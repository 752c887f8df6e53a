-- ===== src/Host/Tick.antt =====
-- usbdpi.c: `usbdpi_host_to_device`, whatever it runs, keeps the account of the descriptors from
-- `usbdpi_create` on.
use ciexpert_usbdev.Base.{
  ℕ, zero, suc, ◌≡◌, refl, ◌∙◌, ap, Bool, true, false, Option, none, some, List, [], ◌==◌, ==_iff,
  ◌||◌, not, if◌then◌else◌, has, leb, ltb, replicate, Always, always_some, always_none, always_if,
  always_map, after, after_known, after_assert, subst, ◌&&◌, Bool-cases, inl, inr, ◌⊎◌,
}
use ciexpert_usbdev.Usb.{
  max_transfers, DrvState, st_idle, HostState, hs_startframe, d2p_pu, step_get_test_config,
  step_stream_service, step_idle_start, step_idle_end, step_bus_reset, step_set_device_address,
  step_get_device_descriptor, step_get_config_descriptor, step_get_full_config_descriptor,
  step_set_device_config, step_set_test_status, step_first_read, step_read_baud, step_second_read,
  step_set_baud, step_third_read, step_test_iso1, step_test_iso2, step_endpt_unimpl_setup,
  step_endpt_unimpl_out, step_endpt_unimpl_in, step_device_uk_setup,
}
use ciexpert_usbdev.Transfer.{Transfer}
use ciexpert_usbdev.Context.{Ctx, usb_transfer_setup, link_pool}
use ciexpert_usbdev.Context.Pool.{IsPartition, places}
use ciexpert_usbdev.Context.Reach.{usb_transfer_setup-IsPartition}
use ciexpert_usbdev.Service.Chains.{Queues}
use ciexpert_usbdev.Bus.{bus_reset}
use ciexpert_usbdev.Control.Read.{get_test_config}
use ciexpert_usbdev.Monitor.{Event, usb_monitor, usb_monitor_init}
use ciexpert_usbdev.Service.Flow.{IsOwned, Continues, goes_on, settled}
use ciexpert_usbdev.Service.Calls.{held}
use ciexpert_usbdev.Service.Flow.Reply.{streams_service-Continues}
use ciexpert_usbdev.Dispatch.{reset_step, setup_step, test_step, run_step}
use ciexpert_usbdev.Host.{
  Host, drive_at, host_interval, deliver, monitor_bus, host_drives, zero_ctx, usbdpi_create,
  apply_vbus, next_tick, usbdpi_host_to_device, Startup,
}
use ciexpert_usbdev.Host.Account.{elsewhere, ensure_sending-IsOwned}
use ciexpert_usbdev.Host.Transfers.{
  set_device_address-IsOwned, set_device_configuration-IsOwned, get_descriptor-IsOwned,
}
use ciexpert_usbdev.Host.Endpoints.{
  read_baud-IsOwned, set_baud-IsOwned, try_tx-IsOwned, poll_rx-IsOwned, test_unimpl_ep-IsOwned,
}
use ciexpert_usbdev.Host.Config.{AllEmpty, empty_or_not, get_test_config-IsOwned}
use ciexpert_usbdev.Host.Steps.{get_test_config-SameStep}
use ciexpert_usbdev.Host.Incoming.{usbdpi_data_callback-IsOwned}
use ciexpert_usbdev.Host.Frames.{begin_frame-IsOwned, transmit-IsOwned}

-- The test is in the step that reads its configuration, while a stream holds packets.
pub record Reconfigures (qs : List (List ℕ)) (d : Ctx) : Type 0 where
  pub reading : d.step ≡ step_get_test_config
  pub holding : ¬ AllEmpty qs

abbrev pub Ends : List (List ℕ) → Ctx → Type 0
Ends qs d = Continues qs d ⊎ Reconfigures qs d

-- What a step of the setup or of the basic tests does, if the step is of that kind.
record Kept (qs : List (List ℕ)) (r : Option Ctx) : Type 0 where
  pub keeps : Always r (λ (d : Ctx). IsOwned d qs)

Kept-if :
    {qs : List (List ℕ)} (b : Bool) {r : Option Ctx} {rest : Option (Option Ctx)}
    → Always r (λ (d : Ctx). IsOwned d qs)
    → Always rest (Kept qs)
    → Always (if b then some r else rest) (Kept qs)
Kept-if true k a = always_some (record { keeps = k })
Kept-if false k a = a

module _ {qs : List (List ℕ)} where
  reset_step-IsOwned :
      (hs : HostState) (c : Ctx) (d2p : ℕ) → IsOwned c qs → IsOwned (reset_step hs c d2p) qs
  unfolding reset_step bus_reset
  reset_step-IsOwned hs_startframe c d2p h = elsewhere refl h
  reset_step-IsOwned _ c d2p h = elsewhere refl h

  setup_step-IsOwned : (c : Ctx) (d2p : ℕ) → IsOwned c qs → Always (setup_step c d2p) (Kept qs)
  unfolding setup_step
  setup_step-IsOwned c d2p h =
      Kept-if (c.step == step_bus_reset) (always_some (reset_step-IsOwned c.host_st c d2p h)) (
        Kept-if (c.step == step_set_device_address) (set_device_address-IsOwned c 2 h) (
          Kept-if (c.step == step_get_device_descriptor)
            (get_descriptor-IsOwned (record c { cfg_desc_len = 0x12 }) 1 0 0x12 (elsewhere refl h))
            (Kept-if (c.step == step_get_config_descriptor) (get_descriptor-IsOwned c 2 0 9 h) (
              Kept-if (c.step == step_get_full_config_descriptor) (get_descriptor-IsOwned c 2 0 _ h)
                (Kept-if (c.step == step_set_device_config) (set_device_configuration-IsOwned c 1 h)
                  always_none)))))

  test_step-IsOwned : (c : Ctx) → IsOwned c qs → Always (test_step c) (Kept qs)
  unfolding test_step
  test_step-IsOwned c h = Kept-if (c.step == step_set_test_status) (always_some h) (
      Kept-if (c.step == step_first_read) (poll_rx-IsOwned c 1 true true h) (
        Kept-if (c.step == step_read_baud) (read_baud-IsOwned c 0 h) (
          Kept-if (c.step == step_second_read) (poll_rx-IsOwned c 1 true false h) (
            Kept-if (c.step == step_set_baud) (set_baud-IsOwned c 0 h) (
              Kept-if (c.step == step_third_read) (poll_rx-IsOwned c 1 false true h) (
                Kept-if (c.step == step_test_iso1 || c.step == step_test_iso2)
                  (try_tx-IsOwned c 3 false h)
                  (Kept-if (c.step == step_endpt_unimpl_setup)
                    (test_unimpl_ep-IsOwned c _ c.dev_address 15 h)
                    (Kept-if (c.step == step_endpt_unimpl_out)
                      (test_unimpl_ep-IsOwned c _ c.dev_address 15 h)
                      (Kept-if (c.step == step_endpt_unimpl_in)
                        (test_unimpl_ep-IsOwned c _ c.dev_address 15 h)
                        (Kept-if (c.step == step_device_uk_setup) (test_unimpl_ep-IsOwned c _ 6 1 h)
                          always_none))))))))))

  read_config-Ends :
      (c : Ctx)
      → IsOwned c qs
      → (c.step == step_get_test_config) ≡ true
      → Always (get_test_config c 0x10) (Ends qs)
  read_config-Ends c h e = elim (empty_or_not qs) [
    | inl empty ↦ always_map (get_test_config-IsOwned empty c 0x10 h) λ d owned. inl (goes_on owned)
    | inr holding ↦ record {
      holds = λ d runs. inr (record {
        reading =
            (get_test_config-SameStep c 0x10).holds d runs
            ∙ (==_iff c.step step_get_test_config).0 e;
        holding = holding;
      });
    }
  ]

  run_step-Ends : (c : Ctx) (d2p : ℕ) → IsOwned c qs → Always (run_step c d2p) (Ends qs)
  unfolding run_step
  run_step-Ends c d2p h = kind (setup_step c d2p) (setup_step-IsOwned c d2p h) (
      kind (test_step c) (test_step-IsOwned c h) (
        always_if (c.step == step_get_test_config) (λ e. read_config-Ends c h e)
          (λ _.
            always_if (c.step == step_stream_service)
              (λ _. record { holds = λ d runs. inl (streams_service-Continues c d qs h runs) })
              (λ _.
                always_if (ltb c.step step_idle_start || leb step_idle_end c.step)
                  (λ _.
                    always_map (poll_rx-IsOwned c 1 false false h) λ d owned. inl (goes_on owned))
                  (λ _. always_some (inl (goes_on h)))))))
    where
      kind :
          (o : Option (Option Ctx)) {rest : Option Ctx}
          → Always o (Kept qs)
          → Always rest (Ends qs)
          → Always (elim o [ some r ↦ r | none ↦ rest ]) (Ends qs)
      kind none a k = k
      kind (some r) a k = always_map (a.holds r refl).keeps λ d owned. inl (goes_on owned)

  drive_at-Ends :
      (s : DrvState) (c : Ctx) (d2p : ℕ) → IsOwned c qs → Always (drive_at s c d2p) (Ends qs)
  unfolding drive_at
  drive_at-Ends st_idle c d2p h =
      after_known (ensure_sending-IsOwned c h) λ d owned. run_step-Ends d d2p owned
  drive_at-Ends _ c d2p h = always_map (transmit-IsOwned c d2p h) λ d owned. inl (goes_on owned)

  host_interval-Ends : (c : Ctx) (d2p : ℕ) → IsOwned c qs → Always (host_interval c d2p) (Ends qs)
  unfolding host_interval bus_reset
  host_interval-Ends c d2p h =
      always_if (not (has d2p d2p_pu)) (λ _. always_some (inl (goes_on (elsewhere refl h))))
        (λ _.
          always_if (ltb c.tick c.recovery_time)
            (λ _. always_some (inl (goes_on (elsewhere refl h))))
            (λ _.
              after_known (begin_frame-IsOwned c h) λ d owned. drive_at-Ends d.state d d2p owned))

  deliver-IsOwned :
      (c : Ctx) (event : Event)
      → IsOwned c qs
      → Always (deliver c event) (λ (d : Ctx). IsOwned d qs)
  unfolding deliver
  deliver-IsOwned c none h = always_some h
  deliver-IsOwned c (some (type, d)) h = usbdpi_data_callback-IsOwned c type d h

  monitor_bus-IsOwned :
      (h : Host) (d2p : ℕ)
      → IsOwned h.ctx qs
      → Always (monitor_bus h d2p) (λ (m : Host). IsOwned m.ctx qs)
  unfolding monitor_bus
  monitor_bus-IsOwned h d2p owned = after h.mon λ m _.
      let (mon, event, lastpid) =
        usb_monitor m h.ctx.tick_bits (host_drives h.ctx.state) h.ctx.driving d2p h.ctx.lastrxpid in
      after_known
        (deliver-IsOwned (record h.ctx { lastrxpid = lastpid }) event (elsewhere refl owned))
        λ c kept. always_some kept

  apply_vbus-IsOwned : (c : Ctx) → IsOwned c qs → IsOwned (apply_vbus c) qs
  apply_vbus-IsOwned c h = elim (Bool-cases (c.tick_bits == 160)) [
    | inl e ↦ rw e (elsewhere refl h)
    | inr e ↦ rw e h
  ]

  tick-Ends :
      (h : Host) (d2p : ℕ)
      → IsOwned h.ctx qs
      → Always (usbdpi_host_to_device h d2p) (λ (h' : Host). Ends qs h'.ctx)
  unfolding usbdpi_host_to_device
  tick-Ends h d2p owned =
      always_if (has (next_tick h.ctx).tick 3)
        (λ _. always_some (inl (goes_on (elsewhere refl owned))))
        (λ _.
          after_known
            (monitor_bus-IsOwned (record h { ctx = next_tick h.ctx }) d2p (elsewhere refl owned))
            λ m kept.
              after_known
                (host_interval-Ends (apply_vbus m.ctx) d2p (apply_vbus-IsOwned m.ctx kept))
                λ c ends. always_some ends)

-- While the host holds every descriptor in one place, a call of `usbdpi_host_to_device` that fails
-- no assertion keeps it so, whatever the device does and whichever step of the test runs, and at most
-- one stream's queue of received packets makes one step. The exception is a call that ends in the
-- step that reads the test configuration while a stream holds packets: `streams_init` drops the lists.
pub usbdpi_host_to_device-Ends :
    (h h' : Host) (d2p : ℕ) (qs : List (List ℕ))
    → IsOwned h.ctx qs
    → usbdpi_host_to_device h d2p ≡ some h'
    → Continues qs h'.ctx ⊎ Reconfigures qs h'.ctx
usbdpi_host_to_device-Ends h h' d2p qs owned e = (tick-Ends h d2p owned).holds h' e

-- Streams whose lists are NULL have empty queues.
pub no-Queues : (pool : List Transfer) (n : ℕ) → Queues pool (replicate n none) (replicate n [])
no-Queues pool zero = tt
no-Queues pool (suc n) = (refl, no-Queues pool n)

setup_leaves :
    (c : Ctx)
    → Always
        (usb_transfer_setup c)
        (λ (d : Ctx). (d.stream ≡ c.stream) × (d.sending ≡ c.sending) × (d.recving ≡ c.recving))
unfolding usb_transfer_setup
setup_leaves c =
    after (link_pool max_transfers none c.transfer_pool)
      λ (p, pool) _. always_some (refl, refl, refl)

-- The context that is handed to `usb_transfer_setup`.
abbrev cleared : ℕ → Ctx
cleared loglevel = record (bus_reset zero_ctx) { loglevel = loglevel }

cleared-Streamed :
    (loglevel : ℕ) (c : Ctx)
    → usb_transfer_setup (cleared loglevel) ≡ some c
    → IsPartition c places []
    → IsOwned c (replicate 15 [])
unfolding bus_reset
cleared-Streamed loglevel c e part =
    let (streams, sends, gets) = (setup_leaves (cleared loglevel)).holds c e in
    settled {o = none} gets (ap held sends) (record {
      free = places;
      part = part;
      queues = (refl, rw streams (no-Queues c.transfer_pool 15));
    })

-- All 32 descriptors are free in a new host, nothing is sent or received, and the queues of the 15
-- streams are empty.
pub usbdpi_create-IsOwned :
    (startup : Startup) (loglevel : ℕ)
    → Always (usbdpi_create startup loglevel) (λ (h : Host). IsOwned h.ctx (replicate 15 []))
unfolding usbdpi_create bus_reset
usbdpi_create-IsOwned startup loglevel = after_assert startup.ctx_allocated λ _.
    after_assert startup.cwd_found λ _. after startup.path_length λ rv _.
      after_assert (leb rv startup.filename_max && ltb 0 rv) λ _.
        after (usb_monitor_init startup.mon_allocated startup.mon_opened) λ mon _.
          after (usb_transfer_setup (cleared loglevel)) λ c runs.
            let (a, sets_up, part) = usb_transfer_setup-IsPartition (cleared loglevel) refl in
            let same : a ≡ c = cc (sets_up, runs) in
            always_some (
              cleared-Streamed loglevel c runs
                (subst (λ (x : Ctx). IsPartition x places []) same part))
