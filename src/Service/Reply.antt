-- ===== src/Service/Reply.antt =====
-- usbdpi_stream.c: the states of `streams_service` that take the device's answer to an IN token,
-- and the service itself.
use ciexpert_usbdev.Base.{
  ℕ, Bool, true, false, ◌&&◌, ◌||◌, not, Option, none, some, ltb, ◌==◌, if◌then◌else◌, get_elem?,
  assert, ◌>>=◌, ◌>>◌,
}
use ciexpert_usbdev.Usb.{
  HostState, hs_startframe, hs_waitack, hs_streamout, hs_streamin, hs_wait_pkt, hs_ackifdata,
  hs_nextframe, hs_error, is_bus, usb_iso_in_data, usb_bulk_in_data, usb_interrupt_in_data,
  pid_data0, pid_data1, pid_ack, pid_nak, type_control, type_isochronous, type_bulk, type_interrupt,
}
use ciexpert_usbdev.Transfer.{transfer_length}
use ciexpert_usbdev.Context.{Ctx, Stream, transfer_release, transfer_status}
use ciexpert_usbdev.Control.{waited}
use ciexpert_usbdev.Streams.Packets.{set_stream, stream_sig_check, sizeof_stream_signature}
use ciexpert_usbdev.Service.{collect_received}
use ciexpert_usbdev.Service.Out.{stream_out, stream_waitack}
use ciexpert_usbdev.Service.In.{stream_in, stream_wait_pkt, decide_retry, check_rest}

-- The first decision: an isochronous packet is accepted if it has data, another one unless it is to
-- be asked for again.
unfoldable pub first_decision : Ctx → ℕ → ℕ → Option (Bool × Ctx)
first_decision ctx k rx = do
  s ← get_elem? ctx.stream k
  if s.xfr_type == type_isochronous
      then (do t ← get_elem? ctx.transfer_pool rx; some (ltb 3 (transfer_length t), ctx))
      else (let (accept, u) = decide_retry s in some (accept, set_stream ctx k u))

-- The check of a packet that is to be accepted. The signature packet of a stream that is not
-- isochronous is released, and the pointer to it becomes NULL.
unfoldable pub check_packet : Ctx → ℕ → ℕ → Option (Bool × Option ℕ × Ctx)
check_packet ctx k rx = do
  s ← get_elem? ctx.stream k
  if s.sig_expected
      then (do
        (ok, c) ← stream_sig_check ctx k rx
        if ok && not (s.xfr_type == type_isochronous)
            then (do d ← transfer_release c rx; some (true, none, d))
            else (do
              (accept, d) ← check_rest c k rx (if ok then sizeof_stream_signature else 0) ok
              some (accept, some rx, d)))
      else (do (accept, d) ← check_rest ctx k rx 0 true; some (accept, some rx, d))

-- A packet that is accepted joins the stream's list, another one is released.
unfoldable pub file_packet : Ctx → ℕ → Bool → Option ℕ → Option Ctx
file_packet ctx k accept none = some ctx
file_packet ctx k true (some rx) = collect_received ctx k rx
file_packet ctx k false (some rx) = transfer_release ctx rx

-- The handshake, which an isochronous stream does not have.
unfoldable pub answer_packet : Ctx → ℕ → Bool → Option Ctx
answer_packet ctx k accept = do
  s ← get_elem? ctx.stream k
  if s.xfr_type == type_isochronous then some ctx else do
    c ← transfer_status ctx ctx.sending (if accept then pid_ack else pid_nak)
    some (if accept then set_stream c k (record s { sig_expected = false }) else c)

-- A data packet.
unfoldable pub take_packet : Ctx → ℕ → ℕ → Option Ctx
take_packet ctx k rx = do
  (willing, c) ← first_decision (record ctx { recving = none }) k rx
  (accept, kept, d) ← if willing then check_packet c k rx else some (false, some rx, c)
  e ← file_packet d k accept kept
  f ← answer_packet e k accept
  some (record f { host_st = hs_streamout })

-- A response of the device.
unfoldable pub take_response : Ctx → ℕ → Stream → ℕ → Option Ctx
take_response ctx k s rx =
    if ctx.lastrxpid == pid_data0 || ctx.lastrxpid == pid_data1
    then take_packet ctx k rx
    else if ctx.lastrxpid == pid_nak
    then some
        (record ctx { host_st = if s.xfr_type == type_isochronous then hs_error else hs_streamout })
    else some (record ctx { host_st = hs_nextframe })

-- `ctx->bus_state` is the one in which data of this transfer type has come in.
abbrev pub in_data : Ctx → ℕ → Bool
in_data ctx xfr_type =
    if xfr_type == type_bulk
    then is_bus ctx.bus_state usb_bulk_in_data
    else if xfr_type == type_interrupt
    then is_bus ctx.bus_state usb_interrupt_in_data
    else xfr_type == type_isochronous && is_bus ctx.bus_state usb_iso_in_data

-- Without a response there is an error once the time is over.
abbrev pub no_response : Ctx → Ctx
no_response ctx = if waited ctx then record ctx { host_st = hs_error } else ctx

-- HS_ACKIFDATA
unfoldable pub stream_ackifdata : Ctx → Option Ctx
stream_ackifdata ctx = do
  s ← get_elem? ctx.stream ctx.stream_in
  if s.xfr_type == type_bulk || s.xfr_type == type_interrupt || s.xfr_type == type_isochronous
      then elim ctx.recving [
        | none ↦ some (no_response ctx)
        | some rx ↦
            if in_data ctx s.xfr_type
            then take_response ctx ctx.stream_in s rx
            else some (no_response ctx)
      ]
      else (do
        assert (s.xfr_type == type_control)
        some (no_response (record ctx { host_st = hs_error })))

-- In any other state than these the service fails an assertion.
unfoldable pub streams_service_at : HostState → Ctx → Option Ctx
streams_service_at hs_startframe ctx = stream_out ctx
streams_service_at hs_streamout ctx = stream_out ctx
streams_service_at hs_waitack ctx = stream_waitack ctx
streams_service_at hs_streamin ctx = stream_in ctx
streams_service_at hs_wait_pkt ctx = some (stream_wait_pkt ctx)
streams_service_at hs_ackifdata ctx = stream_ackifdata ctx
streams_service_at hs_nextframe ctx = some ctx
streams_service_at _ ctx = none

unfoldable pub streams_service : Ctx → Option Ctx
unfolding streams_service_at
streams_service ctx = streams_service_at ctx.host_st ctx
