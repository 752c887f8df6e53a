-- ===== src/Receive/Packet.antt =====
-- usbdpi.c, `usbdpi_data_callback`: a packet from the device, collected event by event.
use ciexpert_usbdev.Base.{
  ℕ, ◌+◌, ◌≤◌, ◌<◌, ◌≡◌, refl, sym, subst, ap, ◌∙◌, true, Bool-cases, ◌||◌, inl, inr, Option, none,
  some, List, [], ◌∷◌, ◌++◌, arith, ◌==◌, ◌>>=◌, length, take, get_elem?, if◌then◌else◌, overwrite,
  length-overwrite, length-append, take-overwrite_end,
}
use ciexpert_usbdev.Usb.{
  UsbmonDataType, sync, eop, pid, byte, max_data, no_data_stage, st_get, pid_data0, pid_data1,
}
use ciexpert_usbdev.Transfer.{
  Transfer, IsValid, transfer_init, transfer_data_start, transfer_append,
}
use ciexpert_usbdev.Context.{Ctx, on_transfer}
use ciexpert_usbdev.Bus.{receiving}
use ciexpert_usbdev.Context.Send.{stored, on_transfer_runs, stored-lookup}
use ciexpert_usbdev.Receive.{
  append_byte, receive_pid, receive, receive_buffer, usbdpi_data_callback,
}

-- The calls for a row of events.
unfoldable pub callbacks : Ctx → List (UsbmonDataType × ℕ) → Option Ctx
callbacks ctx [] = some ctx
callbacks ctx ((type, d) ∷ es) = do c ← usbdpi_data_callback ctx type d; callbacks c es

abbrev pub byte_events : List ℕ → List (UsbmonDataType × ℕ)
byte_events [] = (eop, 0) ∷ []
byte_events (d ∷ ds) = (byte, d) ∷ byte_events ds

-- The device is sending, and the descriptor `p`, which holds `t`, takes what it sends.
pub record IsReceiving (c : Ctx) (p : ℕ) (t : Transfer) : Type 0 where
  pub getting : c.state ≡ st_get
  pub into : c.recving ≡ some p
  pub found : get_elem? c.transfer_pool p ≡ some t

buffer_at_hand : (c : Ctx) (p : ℕ) → c.recving ≡ some p → receive_buffer c ≡ some c
unfolding receive_buffer
buffer_at_hand c p e = rw e refl

callback_receives :
    (c : Ctx) (type : UsbmonDataType) (d : ℕ)
    → receiving c.state ≡ true
    → usbdpi_data_callback c type d
      ≡ (receive_buffer c >>= λ (x : Ctx). on_transfer x x.recving (receive type d))
unfolding usbdpi_data_callback
callback_receives c type d e = rw e refl

callback_runs :
    {c : Ctx} {p : ℕ} {t t' : Transfer} (type : UsbmonDataType) (d : ℕ)
    → IsReceiving c p t
    → receive type d t ≡ some t'
    → (usbdpi_data_callback c type d ≡ some (stored c p t')) × IsReceiving (stored c p t') p t'
callback_runs {c} {p} {t} {t'} type d r e = (
  callback_receives c type d (ap receiving r.getting)
      ∙ rw (buffer_at_hand c p r.into) (
          subst (λ (q : Option ℕ). on_transfer c q (receive type d) ≡ some (stored c p t'))
            (sym r.into) (on_transfer_runs c p (receive type d) t t' r.found e)),
  record { getting = r.getting; into = r.into; found = stored-lookup c p t t' r.found },
)

append_byte_fits :
    (t : Transfer) (d : ℕ)
    → IsValid t
    → t.num_bytes < max_data
    → (t' : Transfer) × (append_byte d t ≡ some t')
      × IsValid t'
      × (t'.num_bytes ≡ t.num_bytes + 1)
      × (t'.data_start ≡ t.data_start)
      × (take t'.num_bytes t'.data_bytes ≡ take t.num_bytes t.data_bytes ++ d ∷ [])
unfolding append_byte transfer_append
append_byte_fits t d v lt = (
  record t {
    data_bytes = overwrite t.data_bytes t.num_bytes (d ∷ []);
    num_bytes = t.num_bytes + 1;
  },
  ground (arith, v.sized),
  record {
    sized = length-overwrite t.data_bytes t.num_bytes (d ∷ []) ∙ v.sized;
    within = omega arith;
  },
  refl,
  refl,
  take-overwrite_end t.data_bytes t.num_bytes (d ∷ []) (omega (arith, v.sized)),
)

append_nil : (xs : List ℕ) → xs ++ [] ≡ xs
append_nil [] = refl
append_nil (x ∷ xs) = ap (λ l. x ∷ l) (append_nil xs)

append_assoc : (xs ys zs : List ℕ) → (xs ++ ys) ++ zs ≡ xs ++ (ys ++ zs)
append_assoc [] ys zs = refl
append_assoc (x ∷ xs) ys zs = ap (λ l. x ∷ l) (append_assoc xs ys zs)

-- The packet that the descriptor holds at the end.
pub record IsReceived (content : List ℕ) (start : ℕ) (c : Ctx) (p : ℕ) (t : Transfer) : Type 0 where
  pub still : IsReceiving c p t
  pub valid : IsValid t
  pub begins : t.data_start ≡ start
  pub bytes : take t.num_bytes t.data_bytes ≡ content
  pub ends : t.num_bytes ≡ length content

bytes-IsReceived :
    (ds content : List ℕ) (start : ℕ) {c : Ctx} {p : ℕ} {t : Transfer}
    → IsReceived content start c p t
    → length content + length ds ≤ max_data
    → (c' : Ctx) × (t' : Transfer) × (callbacks c (byte_events ds) ≡ some c')
      × IsReceived (content ++ ds) start c' p t'
unfolding callbacks receive
bytes-IsReceived [] content start {c} {p} {t} r fits =
    let (runs, still) = callback_runs eop 0 r.still refl in
    (
      stored c p t,
      t,
      rw runs refl,
      record {
        still = still;
        valid = r.valid;
        begins = r.begins;
        bytes = r.bytes ∙ sym (append_nil content);
        ends = r.ends ∙ ap length (sym (append_nil content));
      },
    )
bytes-IsReceived (d ∷ ds) content start {c} {p} {t} r fits =
    let (t', fit, valid, more, begins, grown) =
      append_byte_fits t d r.valid (omega (arith, r.ends)) in
    let (runs, still) = callback_runs byte d r.still fit in
    let next : IsReceived (content ++ d ∷ []) start (stored c p t') p t' = record {
      still = still;
      valid = valid;
      begins = begins ∙ r.begins;
      bytes = grown ∙ ap (λ (l : List ℕ). l ++ d ∷ []) r.bytes;
      ends = omega (arith, more, r.ends, length-append content (d ∷ []));
    } in
    let (c', t'', rest, made) =
      bytes-IsReceived ds (content ++ d ∷ []) start next
        (omega (arith, length-append content (d ∷ []))) in
    (
      c',
      t'',
      rw runs rest,
      subst (λ (l : List ℕ). IsReceived l start c' p t'') (append_assoc content (d ∷ []) ds) made,
    )

-- The PID that comes first, in a descriptor that was reset.
pid_received :
    (t : Transfer) (d : ℕ)
    → length t.data_bytes ≡ max_data
    → (t' : Transfer) × (receive_pid d (transfer_init t) ≡ some t')
      × IsValid t'
      × (t'.num_bytes ≡ 1)
      × (t'.data_start ≡ (if d == pid_data0 || d == pid_data1 then 0 else no_data_stage))
      × (take 1 t'.data_bytes ≡ d ∷ [])
unfolding receive_pid transfer_init transfer_data_start
pid_received t d sized = elim (Bool-cases (d == pid_data0 || d == pid_data1)) [
  | inl e ↦ (
    record t {
      next = none;
      data_start = 0;
      data_bytes = overwrite t.data_bytes 0 (d ∷ []);
      num_bytes = 1;
    },
    rw e (ground (arith, e, sized)),
    record { sized = length-overwrite t.data_bytes 0 (d ∷ []) ∙ sized; within = omega arith },
    refl,
    rw e refl,
    take-overwrite_end t.data_bytes 0 (d ∷ []) (omega (arith, sized)),
  )
  | inr e ↦
      let (t', fit, valid, one, start, content) =
        append_byte_fits (transfer_init t) d (record { sized = sized; within = omega arith })
          (omega arith) in
      (
        t',
        rw e fit,
        valid,
        one,
        rw e start,
        subst (λ (n : ℕ). take n t'.data_bytes ≡ d ∷ []) one content,
      )
]

-- A SYNC, a PID, up to 72 bytes and the end of the packet fail no assertion, whatever the
-- descriptor held. It then holds exactly the PID and the bytes, and the data field of a DATA0 or
-- DATA1 packet is known to start behind the PID; any other packet has no data field.
pub packet-IsReceived :
    (c : Ctx) (p : ℕ) (t : Transfer) (d : ℕ) (ds : List ℕ)
    → IsReceiving c p t
    → length t.data_bytes ≡ max_data
    → length ds < max_data
    → (c' : Ctx) × (t' : Transfer) × (callbacks c ((sync, 0) ∷ (pid, d) ∷ byte_events ds) ≡ some c')
      × IsReceived (d ∷ ds) (if d == pid_data0 || d == pid_data1 then 0 else no_data_stage) c' p t'
unfolding callbacks receive transfer_init
packet-IsReceived c p t d ds r sized fits =
    let (first, ready) = callback_runs sync 0 r refl in
    let (t', builds, valid, one, start, content) = pid_received t d sized in
    let (second, still) = callback_runs pid d ready builds in
    let (c', t'', rest, made) =
      bytes-IsReceived ds (d ∷ []) (if d == pid_data0 || d == pid_data1 then 0 else no_data_stage)
        (record {
          still = still;
          valid = valid;
          begins = start;
          bytes = rw one content;
          ends = one;
        })
        (omega arith) in
    (c', t'', rw first (rw second rest), made)
