-- ===== src/Service/Out.antt =====
-- usbdpi_stream.c: the states of `streams_service` that send a received packet back to the device.
use ciexpert_usbdev.Base.{
  ℕ, ◌+◌, ◌*◌, Bool, true, false, ◌||◌, Option, none, some, ◌==◌, if◌then◌else◌, get_elem?, assert,
  ◌>>=◌, ◌>>◌, u32,
}
use ciexpert_usbdev.Usb.{
  hs_waitack, hs_streamin, hs_nextframe, hs_error, BusState, is_bus, usb_iso_out, usb_bulk_out,
  usb_bulk_out_ack, usb_interrupt_out, usb_interrupt_out_ack, pid_ack, pid_nak, type_isochronous,
  type_bulk, type_interrupt,
}
use ciexpert_usbdev.Transfer.{transfer_length}
use ciexpert_usbdev.Context.{Ctx, Stream, transfer_send}
use ciexpert_usbdev.Control.{waited, toggle_out}
use ciexpert_usbdev.Streams.{out_stream_next}
use ciexpert_usbdev.Streams.Packets.{set_stream, stream_data_process}
use ciexpert_usbdev.Service.{time_left, release_sending, retire_received, discard_received}

-- The state of the bus while a packet of this transfer type goes out.
unfoldable pub out_bus_state : ℕ → Option BusState
out_bus_state xfr_type =
    if xfr_type == type_interrupt
    then some usb_interrupt_out
    else if xfr_type == type_bulk
    then some usb_bulk_out
    else (do assert (xfr_type == type_isochronous); some usb_iso_out)

-- Sends the reply that was built in the descriptor `reply`, and waits for the handshake.
unfoldable pub send_reply : Ctx → Stream → ℕ → Option Ctx
send_reply ctx s reply = do
  b ← out_bus_state s.xfr_type
  t ← get_elem? ctx.transfer_pool reply
  c ← transfer_send (record ctx { bus_state = b }) (some reply)
  some (record c {
    wait = u32 (c.tick_bits + u32 (transfer_length t * 10 + 160));
    lastrxpid = 0;
    host_st = hs_waitack;
  })

-- Sends the packet `rx` of stream `k`, scrambled. It stays on the stream's list.
unfoldable pub send_received : Ctx → ℕ → Stream → ℕ → Option Ctx
send_received ctx k s rx = do
  c ← release_sending ctx
  (reply, d) ← stream_data_process c k rx
  elim reply [ none ↦ some d | some p ↦ send_reply d s p ]

-- HS_STARTFRAME and HS_STREAMOUT. The list of packets to discard is no longer than the pool.
unfoldable pub stream_out : Ctx → Option Ctx
stream_out ctx =
    if time_left ctx
    then (do
      let (id, c) = out_stream_next ctx
      s ← get_elem? c.stream id
      if s.send
          then elim s.received [
            | none ↦ some (record c { host_st = hs_streamin })
            | some rx ↦ send_received (record c { host_st = hs_streamin }) id s rx
          ]
          else discard_received 33 (record c { host_st = hs_streamin }) id)
    else some (record ctx { host_st = hs_nextframe })

-- What a handshake says: whether the packet was accepted. After a NAK the generator goes back, to
-- scramble the packet again.
unfoldable pub handshake_reply : Ctx → ℕ → Stream → Bool × Ctx
handshake_reply ctx k s =
    if ctx.lastrxpid == pid_ack
    then (true, ctx)
    else if ctx.lastrxpid == pid_nak
    then (
      false,
      set_stream (record ctx { host_st = hs_streamin }) k
          (record s { dpi_lfsr = s.dpi_rewind_lfsr }),
    )
    else (false, record ctx { host_st = hs_error })

-- Whether the packet was accepted. For an isochronous stream no handshake is due.
unfoldable pub out_response : Ctx → ℕ → Stream → Option (Bool × Ctx)
out_response ctx k s =
    if s.xfr_type == type_bulk || s.xfr_type == type_interrupt
    then (if is_bus ctx.bus_state
          (if s.xfr_type == type_bulk then usb_bulk_out_ack else usb_interrupt_out_ack)
        then some (handshake_reply ctx k s)
        else if waited ctx
        then some (false, record ctx { host_st = hs_error })
        else some (false, ctx))
    else (do
      assert (s.xfr_type == type_isochronous)
      if is_bus ctx.bus_state usb_iso_out
          then some (true, ctx)
          else some (false, record ctx { host_st = hs_error }))

-- The packet that the device accepted is done with, and the toggle of its endpoint advances.
unfoldable pub packet_accepted : Ctx → ℕ → Option Ctx
packet_accepted ctx k = do
  s ← get_elem? ctx.stream k
  rx ← s.received
  c ← retire_received ctx k s rx
  d ← if s.xfr_type == type_isochronous then some c else toggle_out c s.ep_out
  some (record d { host_st = hs_streamin })

-- HS_WAITACK
unfoldable pub stream_waitack : Ctx → Option Ctx
stream_waitack ctx = do
  s ← get_elem? ctx.stream ctx.stream_out
  c ← release_sending ctx
  (accepted, d) ← out_response c c.stream_out s
  if accepted then packet_accepted d d.stream_out else some d
