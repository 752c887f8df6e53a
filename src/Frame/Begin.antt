-- ===== src/Frame/Begin.antt =====
-- usbdpi.c: what happens when a bus frame is due: the SOF and the next step of the test.
use ciexpert_usbdev.Base.{
  ℕ, ◌+◌, ◌%◌, ◌≤◌, ◌≡◌, refl, ◌∙◌, subst, sym, ap, true, false, Bool-cases, ◌&&◌, inl, inr, Option,
  some, [], ◌∷◌, leb, ltb, ◌>>=◌, u16, sub32, bit_and, ◌==◌, arith, take,
}
use ciexpert_usbdev.Usb.{
  st_sync, hs_startframe, step_idle_start, step_idle_end, pid_sof, step_bus_disconnect,
  step_bus_reset, step_get_device_descriptor, step_set_device_address, step_get_config_descriptor,
  step_get_full_config_descriptor, step_set_device_config, step_set_test_status,
}
use ciexpert_usbdev.Context.{Ctx, start_sending, transfer_frame_start}
use ciexpert_usbdev.Context.Send.{MaySend, IsStarted, stored}
use ciexpert_usbdev.Context.FrameStart.{transfer_frame_start_runs}
use ciexpert_usbdev.Crc.{crc5}
use ciexpert_usbdev.Monitor.Report.{pid_2data, sof}
use ciexpert_usbdev.Transfer.{Transfer}
use ciexpert_usbdev.TestSequence.{usbdpi_test_seq_next}
use ciexpert_usbdev.Frame.{
  frame_interval, is_idle, at_next_frame, ensure_sending, start_of_frame, next_step, begin_frame,
}

-- Choosing a step changes at most the level of VBUS.
unfoldable pub OnlyDriving : Ctx → ℕ × Ctx → Type 0
OnlyDriving c q = (v : ℕ) × (q.1 ≡ record c { driving = v })

levels : (c : Ctx) (step v : ℕ) → OnlyDriving c (step, record c { driving = v })
unfolding OnlyDriving
levels c step v = (v, refl)

pub seq_next-OnlyDriving : (c : Ctx) (step : ℕ) → OnlyDriving c (usbdpi_test_seq_next c step)
unfolding usbdpi_test_seq_next
seq_next-OnlyDriving c step = elim (Bool-cases (step == step_bus_reset)) [
  | inl e ↦ rw e (levels c _ c.driving)
  | inr e ↦ rw e (elim (Bool-cases (step == step_get_device_descriptor)) [
    | inl e ↦ rw e (levels c _ c.driving)
    | inr e ↦ rw e (elim (Bool-cases (step == step_set_device_address)) [
      | inl e ↦ rw e (levels c _ c.driving)
      | inr e ↦ rw e (elim (Bool-cases (step == step_get_config_descriptor)) [
        | inl e ↦ rw e (levels c _ c.driving)
        | inr e ↦ rw e (elim (Bool-cases (step == step_get_full_config_descriptor)) [
          | inl e ↦ rw e (levels c _ c.driving)
          | inr e ↦ rw e (elim (Bool-cases (step == step_set_device_config)) [
            | inl e ↦ rw e (levels c _ c.driving)
            | inr e ↦ rw e (elim (Bool-cases (step == step_set_test_status)) [
              | inl e ↦ rw e (levels c _ c.driving)
              | inr e ↦ rw e (elim (Bool-cases (step == step_bus_disconnect)) [
                | inl e ↦ rw e (levels c _ (bit_and c.driving 0xfffffffe))
                | inr e ↦ rw e (levels c _ c.driving)
              ])
            ])
          ])
        ])
      ])
    ])
  ])
]

-- Which step is chosen depends on the test and on the step before it.
seq_next_test_number :
    (c d : Ctx) (step : ℕ)
    → d.test_number ≡ c.test_number
    → (usbdpi_test_seq_next d step).0 ≡ (usbdpi_test_seq_next c step).0
unfolding usbdpi_test_seq_next
seq_next_test_number c d step e = ground (arith, e)

-- A frame is due, the bus is idle and not to look suspended, and the last transfer has ended.
pub record IsDue (c : Ctx) : Type 0 where
  pub time : frame_interval ≤ sub32 c.tick_bits c.frame_start
  pub idle : is_idle c.state ≡ true
  pub awake : (leb step_idle_start c.step && ltb c.step step_idle_end) ≡ false
  pub ended : at_next_frame c.host_st ≡ true

-- The context at the begin of the frame.
abbrev counted : Ctx → Ctx
counted c = record c { framepend = false; frame = u16 (c.frame + 1); frame_start = c.tick_bits }

ensured : (c : Ctx) (p : ℕ) → c.sending ≡ some p → ensure_sending c ≡ some c
unfolding ensure_sending
ensured c p e = rw e refl

start_of_frame_runs :
    (c d : Ctx) (p : ℕ)
    → c.sending ≡ some p
    → (leb step_idle_start c.step && ltb c.step step_idle_end) ≡ false
    → transfer_frame_start c (some p) c.frame ≡ some d
    → start_of_frame c ≡ some (record d { state = st_sync })
unfolding start_of_frame
start_of_frame_runs c d p e awake runs = rw awake (
    rw (ensured c p e) (
      subst
        (λ (q : Option ℕ).
          (transfer_frame_start c q c.frame >>= λ (x : Ctx). some (record x { state = st_sync }))
          ≡ some (record d { state = st_sync }))
        (sym e) (rw runs refl)))

next_step_runs :
    (c : Ctx)
    → at_next_frame c.host_st ≡ true
    → next_step c
      ≡ some (record (usbdpi_test_seq_next c c.step).1 {
        step = (usbdpi_test_seq_next c c.step).0;
        num_tries = 0;
        host_st = hs_startframe;
      })
unfolding next_step
next_step_runs c e = rw e refl

begin_frame_runs :
    (c d e : Ctx)
    → IsDue c
    → start_of_frame (counted c) ≡ some d
    → next_step d ≡ some e
    → begin_frame c ≡ some e
unfolding begin_frame
begin_frame_runs c d e due sof_runs step_runs =
    let late : leb frame_interval (sub32 c.tick_bits c.frame_start) ≡ true =
      ground (arith, due.time) in
    rw (late, due.idle) (rw sof_runs step_runs)

-- When a frame is due, the bus idle and not to look suspended, and the last transfer ended, and
-- `sending` names a descriptor of the pool with a whole array that may be sent, no assertion fails:
-- the SOF that the host starts to send in that descriptor carries the next frame number, in 11 bits
-- and with its checksum, the frame's time is taken, the step is the one that follows in the test's
-- sequence, and it begins in HS_STARTFRAME with no tries counted.
pub begin_frame-IsStarted :
    (c : Ctx) (p : ℕ) (t : Transfer)
    → IsDue c
    → MaySend c p t
    → c.sending ≡ some p
    → (c' : Ctx) × (t' : Transfer) × (a b : ℕ) × (begin_frame c ≡ some c')
      × IsStarted c' p t'
      × (take 3 t'.data_bytes ≡ pid_sof ∷ a ∷ b ∷ [])
      × (pid_2data pid_sof a b
          ≡ sof (u16 (c.frame + 1) % 2048) (crc5 (u16 (c.frame + 1) % 2048) 11) true)
      × (c'.frame ≡ u16 (c.frame + 1))
      × (c'.frame_start ≡ c.tick_bits)
      × (c'.step ≡ (usbdpi_test_seq_next c c.step).0)
      × (c'.num_tries ≡ 0)
      × (c'.host_st ≡ hs_startframe)
unfolding OnlyDriving
begin_frame-IsStarted c p t due m e =
    let (t', a, b, sent, started, _, content, reads) =
      transfer_frame_start_runs (counted c) p t (u16 (c.frame + 1))
        record { found = m.found; sized = m.sized; free_to_send = m.free_to_send } in
    let d = start_sending (stored (counted c) p t') p in
    let (v, only) = seq_next-OnlyDriving d d.step in
    let n = (usbdpi_test_seq_next d d.step).0 in
    (
      record d { driving = v; step = n; num_tries = 0; host_st = hs_startframe },
      t',
      a,
      b,
      begin_frame_runs c d _ due (start_of_frame_runs (counted c) d p e due.awake sent) (
          next_step_runs d due.ended
          ∙ ap (λ (x : Ctx). some (record x { step = n; num_tries = 0; host_st = hs_startframe }))
              only),
      record {
        holds = started.holds;
        sends = refl;
        syncs = refl;
        first_byte = refl;
        first_bit = refl;
      },
      content,
      reads,
      refl,
      refl,
      seq_next_test_number c d c.step refl,
      refl,
      refl,
    )
