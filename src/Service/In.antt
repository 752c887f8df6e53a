-- ===== src/Service/In.antt =====
-- usbdpi_stream.c: the states of `streams_service` that collect a packet from the device.
use ciexpert_usbdev.Base.{
  ℕ, ◌-◌, bit_and, Bool, true, false, ◌&&◌, ◌||◌, Option, none, some, ltb, ◌==◌, if◌then◌else◌,
  get_elem?, assert, ◌>>=◌, ◌>>◌,
}
use ciexpert_usbdev.Usb.{
  hs_streamout, hs_wait_pkt, hs_ackifdata, hs_nextframe, BusState, usb_iso_in_token,
  usb_bulk_in_token, usb_interrupt_in_token, pid_in, max_packet_size, type_isochronous, type_bulk,
  type_interrupt,
}
use ciexpert_usbdev.Transfer.{transfer_length}
use ciexpert_usbdev.Context.{Ctx, Stream}
use ciexpert_usbdev.Control.{send_token, wait_then}
use ciexpert_usbdev.Frame.{ensure_sending}
use ciexpert_usbdev.Streams.{lfsr_advance, in_stream_next}
use ciexpert_usbdev.Streams.Packets.{set_stream, stream_data_gen, stream_data_check}
use ciexpert_usbdev.Service.{time_left}

-- `p == NULL`
abbrev pub is_null : Option ℕ → Bool
is_null none = true
is_null (some p) = false

-- The state of the bus once the IN token is sent.
unfoldable pub in_bus_state : ℕ → Option BusState
in_bus_state xfr_type =
    if xfr_type == type_interrupt
    then some usb_interrupt_in_token
    else if xfr_type == type_bulk
    then some usb_bulk_in_token
    else (do assert (xfr_type == type_isochronous); some usb_iso_in_token)

-- Asks the device for a packet of the stream.
unfoldable pub request_packet : Ctx → Stream → Option Ctx
request_packet ctx s = do
  c ← ensure_sending ctx
  d ← send_token c pid_in c.dev_address s.ep_in
  b ← in_bus_state s.xfr_type
  some (record d { bus_state = b; host_st = hs_wait_pkt; lastrxpid = 0 })

-- A packet of full length that stands for one from the device; NULL when no descriptor is free.
unfoldable pub fake_packet : Ctx → ℕ → Option Ctx
fake_packet ctx k = do
  (p, c) ← stream_data_gen ctx k max_packet_size
  s ← get_elem? c.stream k
  some (set_stream c k (record s { received = p }))

-- HS_STREAMIN
unfoldable pub stream_in : Ctx → Option Ctx
stream_in ctx =
    if time_left ctx
    then (do
      let (id, c) = in_stream_next ctx
      s ← get_elem? c.stream id
      if s.retrieve then request_packet c s else do
        d ← if s.send && is_null s.received then fake_packet c id else some c
        some (record d { host_st = hs_streamout }))
    else some (record ctx { host_st = hs_nextframe })

-- HS_WAIT_PKT
unfoldable pub stream_wait_pkt : Ctx → Ctx
stream_wait_pkt ctx = wait_then 562 hs_ackifdata ctx

-- The number of times that the next packet will be asked for again.
unfoldable pub retry_count : ℕ → ℕ
retry_count lfsr =
    let n = bit_and lfsr 7 in
    if n == 7 then 3 else if n == 6 || n == 5 then 2 else if n == 4 then 1 else 0

-- Whether to accept a packet of a stream that is not isochronous, before its content is checked.
unfoldable pub decide_retry : Stream → Bool × Stream
unfolding retry_count
decide_retry s =
    if s.retrying && ltb 0 s.nretries then (false, record s { nretries = s.nretries - 1 }) else (
      true,
      record s { nretries = retry_count s.retry_lfsr; retry_lfsr = lfsr_advance s.retry_lfsr },
    )

-- The bytes behind place `offset` of the data, if any, are compared with the generator's.
unfoldable pub check_rest : Ctx → ℕ → ℕ → ℕ → Bool → Option (Bool × Ctx)
check_rest ctx k rx offset accept = do
  t ← get_elem? ctx.transfer_pool rx
  if ltb offset (transfer_length t)
      then (do (ok, c) ← stream_data_check ctx k rx offset accept; some (accept && ok, c))
      else some (accept, ctx)
