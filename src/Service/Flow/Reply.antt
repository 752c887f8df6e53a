-- ===== src/Service/Flow/Reply.antt =====
-- usbdpi_stream.c: HS_ACKIFDATA keeps the account of the packets; with the other states, so does
-- `streams_service`.
use ciexpert_usbdev.Base.{
  ℕ, ◌≡◌, Bool, true, false, Option, none, some, List, get_elem?, if◌then◌else◌, Always,
  always_some, always_none, always_if, always_case, after, after_known, after_assert, ◌==◌, ◌||◌,
  Bool-cases, inl, inr,
}
use ciexpert_usbdev.Usb.{
  HostState, hs_startframe, hs_waitack, hs_wait_pkt, hs_ackifdata, hs_streamout, hs_streamin,
  hs_nextframe, hs_error, pid_data0, pid_data1, pid_nak, type_control, type_isochronous, type_bulk,
  type_interrupt,
}
use ciexpert_usbdev.Context.{Ctx, Stream}
use ciexpert_usbdev.Control.{waited}
use ciexpert_usbdev.Service.Reply.{
  check_packet, take_packet, take_response, in_data, no_response, stream_ackifdata,
  streams_service_at, streams_service,
}
use ciexpert_usbdev.Service.Effects.{SameLists, SameLists-refl, SameLists-trans, relabelled}
use ciexpert_usbdev.Service.Flow.{IsOwned, Continues, goes_on, still, Continues-SameLists}
use ciexpert_usbdev.Service.Flow.Out.{stream_out-Continues, stream_waitack-Continues}
use ciexpert_usbdev.Service.Flow.In.{stream_in-Continues, stream_wait_pkt-Continues}
use ciexpert_usbdev.Service.Flow.Packet.{
  InHand-SameLists, InHand, taken_over, first_decision-SameLists, Kept, check_packet-Kept,
  file_packet-Continues, answer_packet-IsOwned,
}

take_packet-Continues :
    (c : Ctx) (k rx : ℕ) (qs : List (List ℕ))
    → IsOwned c qs
    → c.recving ≡ some rx
    → Always (take_packet c k rx) (Continues qs)
unfolding take_packet Kept
take_packet-Continues c k rx qs h e =
    after_known (first_decision-SameLists (record c { recving = none }) k rx) λ (willing, d) same.
      let mine = InHand-SameLists same (taken_over c rx qs h e) in
      after_known (checked willing d mine) λ (accept, kept, b) has.
        after_known (file_packet-Continues b k accept kept qs has) λ f on.
          after_known (answer_packet-IsOwned f k accept on.queues_after on.owned) λ g owned.
            always_some (
              Continues-SameLists (relabelled g _ _ _ _ _ _ _)
                (record { queues_after = on.queues_after; step = on.step; owned = owned }))
  where
    checked :
        (b : Bool) (d : Ctx)
        → InHand d rx qs
        → Always
            (if b then check_packet d k rx else some (false, some rx, d))
            (λ (a : Bool × Option ℕ × Ctx). Kept a.2 a.1 qs)
    checked true d mine = check_packet-Kept d k rx qs mine
    checked false d mine = always_some mine

take_response-Continues :
    (c : Ctx) (k : ℕ) (s : Stream) (rx : ℕ) (qs : List (List ℕ))
    → IsOwned c qs
    → c.recving ≡ some rx
    → Always (take_response c k s rx) (Continues qs)
unfolding take_response
take_response-Continues c k s rx qs h e =
    always_if (c.lastrxpid == pid_data0 || c.lastrxpid == pid_data1)
      (λ _. take_packet-Continues c k rx qs h e)
      (λ _.
        always_if (c.lastrxpid == pid_nak) (λ _. always_some (still (relabelled c _ _ _ _ _ _ _) h))
          (λ _. always_some (still (relabelled c _ _ _ _ _ _ _) h)))

no_response-SameLists : (c : Ctx) → SameLists c (no_response c)
no_response-SameLists c = elim (Bool-cases (waited c)) [
  | inl e ↦ rw e (relabelled c _ _ _ _ _ _ _)
  | inr e ↦ rw e (SameLists-refl c)
]

stream_ackifdata-Continues :
    (c : Ctx) (qs : List (List ℕ)) → IsOwned c qs → Always (stream_ackifdata c) (Continues qs)
unfolding stream_ackifdata
stream_ackifdata-Continues c qs h = after (get_elem? c.stream c.stream_in) λ s found.
    always_if
      (s.xfr_type == type_bulk || s.xfr_type == type_interrupt || s.xfr_type == type_isochronous)
      (λ _.
        always_case c.recving (λ _. always_some (still (no_response-SameLists c) h))
          λ rx e.
            always_if (in_data c s.xfr_type)
              (λ _. take_response-Continues c c.stream_in s rx qs h e)
              (λ _. always_some (still (no_response-SameLists c) h)))
      (λ _. after_assert (s.xfr_type == type_control) λ _.
        let failed : Ctx = record c { host_st = hs_error } in
        always_some
          (still (SameLists-trans (relabelled c _ _ _ _ _ _ _) (no_response-SameLists failed)) h))

streams_service_at-Continues :
    (hs : HostState) (c : Ctx) (qs : List (List ℕ))
    → IsOwned c qs
    → Always (streams_service_at hs c) (Continues qs)
unfolding streams_service_at
streams_service_at-Continues hs_startframe c qs h = stream_out-Continues c qs h
streams_service_at-Continues hs_streamout c qs h = stream_out-Continues c qs h
streams_service_at-Continues hs_waitack c qs h = stream_waitack-Continues c qs h
streams_service_at-Continues hs_streamin c qs h = stream_in-Continues c qs h
streams_service_at-Continues hs_wait_pkt c qs h = always_some (stream_wait_pkt-Continues c qs h)
streams_service_at-Continues hs_ackifdata c qs h = stream_ackifdata-Continues c qs h
streams_service_at-Continues hs_nextframe c qs h = always_some (goes_on h)
streams_service_at-Continues _ c qs h = always_none

-- While every descriptor of the pool is free, is the one that is sent or received, or is in one
-- stream's queue, a call of `streams_service` that fails no assertion keeps it so: no descriptor is
-- lost or shared. The queues are first-in first-out: at most one of them changes, its oldest packet
-- leaves, one packet joins its end, or all its packets are discarded.
pub streams_service-Continues :
    (c d : Ctx) (qs : List (List ℕ)) → IsOwned c qs → streams_service c ≡ some d → Continues qs d
unfolding streams_service
streams_service-Continues c d qs h e = (streams_service_at-Continues c.host_st c qs h).holds d e
