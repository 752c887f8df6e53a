-- ===== src/Host/Frames.antt =====
-- usbdpi.c: the begin of a frame and the transmitter keep the account of the descriptors.
use ciexpert_usbdev.Base.{
  ℕ, ◌+◌, refl, sym, ap, Bool, true, false, List, ◌==◌, ◌&&◌, get_elem?, if◌then◌else◌, leb, ltb,
  Always, always_some, always_none, always_if, after, after_known, u8, sub32, bit_and, ◌<<<◌,
}
use ciexpert_usbdev.Usb.{
  DrvState, st_idle, st_send, st_get, st_sync, st_eop, st_eop0, step_idle_start, step_idle_end,
  p2d_dp,
}
use ciexpert_usbdev.Transfer.{Transfer}
use ciexpert_usbdev.Context.{Ctx}
use ciexpert_usbdev.Bus.{set_driving}
use ciexpert_usbdev.Transmit.{
  being_sent, send_sync, send_bit, send_data, send_eop0, send_eop, transmit_in, transmit,
}
use ciexpert_usbdev.Frame.{
  frame_interval, max_tries, is_idle, at_next_frame, start_of_frame, next_step, begin_frame,
}
use ciexpert_usbdev.Frame.Begin.{OnlyDriving, seq_next-OnlyDriving}
use ciexpert_usbdev.Service.Flow.{IsOwned}
use ciexpert_usbdev.Host.Account.{
  shared, elsewhere, ensure_sending-IsOwned, transfer_frame_start-IsOwned,
}

module _ {qs : List (List ℕ)} where
  start_of_frame-IsOwned :
      (c : Ctx) → IsOwned c qs → Always (start_of_frame c) (λ (d : Ctx). IsOwned d qs)
  unfolding start_of_frame
  start_of_frame-IsOwned c h =
      always_if (leb step_idle_start c.step && ltb c.step step_idle_end)
        (λ _. always_some (elsewhere refl h))
        (λ _. after_known (ensure_sending-IsOwned c h) λ d owned.
          after_known (transfer_frame_start-IsOwned d d.frame owned)
            λ e done. always_some (elsewhere refl done))

  next_step-IsOwned : (c : Ctx) → IsOwned c qs → Always (next_step c) (λ (d : Ctx). IsOwned d qs)
  unfolding next_step OnlyDriving
  next_step-IsOwned c h =
      let (v, only) = seq_next-OnlyDriving c c.step in
      always_if (at_next_frame c.host_st) (λ _. always_some (elsewhere (sym (ap shared only)) h))
        (λ _.
          always_if (leb max_tries (u8 (c.num_tries + 1))) (λ _. always_none)
            (λ _. always_some (elsewhere refl h)))

  pub begin_frame-IsOwned :
      (c : Ctx) → IsOwned c qs → Always (begin_frame c) (λ (d : Ctx). IsOwned d qs)
  unfolding begin_frame
  begin_frame-IsOwned c h =
      always_if (leb frame_interval (sub32 c.tick_bits c.frame_start))
        (λ _.
          always_if (is_idle c.state)
            (λ _.
              after_known (start_of_frame-IsOwned _ (elsewhere refl h))
                λ d owned. next_step-IsOwned d owned)
            (λ _. always_some (elsewhere refl h)))
        (λ _. always_some h)

  either : (b : Bool) {c d : Ctx} → IsOwned c qs → IsOwned d qs → IsOwned (if b then c else d) qs
  either true h k = h
  either false h k = k

  send_sync-IsOwned : (c : Ctx) (d2p : ℕ) → IsOwned c qs → IsOwned (send_sync c d2p) qs
  unfolding send_sync
  send_sync-IsOwned c d2p h = either (c.bit <<< 1 == 0x100) (elsewhere refl h) (elsewhere refl h)

  send_bit-IsOwned :
      (c : Ctx) (d2p : ℕ) (t : Transfer) (d : ℕ) → IsOwned c qs → IsOwned (send_bit c d2p t d) qs
  unfolding send_bit
  send_bit-IsOwned c d2p t d h = either (c.bit <<< 1 == 0x100) (elsewhere refl h) (elsewhere refl h)

  send_data-IsOwned :
      (c : Ctx) (d2p : ℕ) → IsOwned c qs → Always (send_data c d2p) (λ (d : Ctx). IsOwned d qs)
  unfolding send_data
  send_data-IsOwned c d2p h = after (being_sent c) λ t _.
      always_if (bit_and c.linebits 0x3f == 0x3f) (λ _. always_some (elsewhere refl h))
        (λ _.
          always_if (leb t.num_bytes c.byte) (λ _. always_some (elsewhere refl h))
            (λ _.
              after (get_elem? t.data_bytes c.byte)
                λ d _. always_some (send_bit-IsOwned c d2p t d h)))

  send_eop-IsOwned :
      (c : Ctx) (d2p : ℕ) → IsOwned c qs → Always (send_eop c d2p) (λ (d : Ctx). IsOwned d qs)
  unfolding send_eop
  send_eop-IsOwned c d2p h =
      let j : Ctx =
        if c.bit == 2 then record c { driving = set_driving c d2p p2d_dp true } else c in
      let second : IsOwned j qs = either (c.bit == 2) (elsewhere refl h) h in
      always_if (c.bit == 4)
        (λ _. after (being_sent j) λ t _.
          always_some
            (either (j.byte == t.data_start) (elsewhere refl second) (elsewhere refl second)))
        (λ _. always_some (elsewhere refl second))

  transmit_in-IsOwned :
      (s : DrvState) (c : Ctx) (d2p : ℕ)
      → IsOwned c qs
      → Always (transmit_in s c d2p) (λ (d : Ctx). IsOwned d qs)
  unfolding transmit_in send_eop0
  transmit_in-IsOwned st_sync c d2p h = always_some (send_sync-IsOwned c d2p h)
  transmit_in-IsOwned st_send c d2p h = send_data-IsOwned c d2p h
  transmit_in-IsOwned st_eop0 c d2p h = always_some (elsewhere refl h)
  transmit_in-IsOwned st_eop c d2p h = send_eop-IsOwned c d2p h
  transmit_in-IsOwned st_idle c d2p h = always_some h
  transmit_in-IsOwned st_get c d2p h = always_some h

  pub transmit-IsOwned :
      (c : Ctx) (d2p : ℕ) → IsOwned c qs → Always (transmit c d2p) (λ (d : Ctx). IsOwned d qs)
  unfolding transmit
  transmit-IsOwned c d2p h = transmit_in-IsOwned c.state c d2p h
