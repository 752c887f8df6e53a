-- ===== src/Service/Flow/Out.antt =====
-- usbdpi_stream.c: HS_STREAMOUT and HS_WAITACK keep the account of the packets.
use ciexpert_usbdev.Base.{
  ℕ, ◌≡◌, refl, ◌∙◌, sym, subst, ap, ap₂, Bool, true, false, Option, some, List, [], ◌∷◌, ◌++◌,
  get_elem?, set, if◌then◌else◌, Always, always_some, always_of, always_if, always_case, always_map,
  after, after_known, after_runs, after_assert, ◌==◌, ◌||◌, ◌>>=◌, Bool-cases, inl, inr,
}
use ciexpert_usbdev.Usb.{
  type_isochronous, type_bulk, type_interrupt, is_bus, usb_iso_out, usb_bulk_out_ack,
  usb_interrupt_out_ack, pid_ack, pid_nak, hs_streamin,
}
use ciexpert_usbdev.Context.{Ctx, Stream}
use ciexpert_usbdev.Control.{waited, toggle_out}
use ciexpert_usbdev.Streams.{next_id, out_stream_next}
use ciexpert_usbdev.Service.{time_left, discard_received}
use ciexpert_usbdev.Service.Out.{
  out_bus_state, send_reply, send_received, stream_out, handshake_reply, out_response,
  packet_accepted, stream_waitack,
}
use ciexpert_usbdev.Service.Owned.{Owns-pool}
use ciexpert_usbdev.Service.Queue.{Holds, stream-Holds}
use ciexpert_usbdev.Service.Discard.{retire_received_runs, discard_received-Owns}
use ciexpert_usbdev.Service.Effects.{
  SameLists, SameLists-refl, SameLists-trans, relabelled, SameLists-set_stream,
  transfer_send_starts,
}
use ciexpert_usbdev.Service.Calls.{
  held, Streamed, release_sending_runs, stream_data_process-Streamed,
}
use ciexpert_usbdev.Service.Flow.{
  IsOwned, takes, empties, Continues, settled, goes_on, still, IsOwned-SameLists,
  Continues-SameLists,
}

send_reply-IsOwned :
    (c : Ctx) (s : Stream) (p : ℕ) (qs : List (List ℕ))
    → Streamed c c.recving (p ∷ []) (held c.recving) qs
    → Always (send_reply c s p) (λ (d : Ctx). IsOwned d qs)
unfolding send_reply
send_reply-IsOwned c s p qs h = after (out_bus_state s.xfr_type) λ b _.
    after (get_elem? c.transfer_pool p) λ t _.
      after_known (transfer_send_starts (record c { bus_state = b }) p)
        λ e same. always_some (rw same (record { owns = Owns-pool refl refl h }))

send_received-IsOwned :
    (c : Ctx) (k : ℕ) (s : Stream) (rx : ℕ) (qs : List (List ℕ))
    → IsOwned c qs
    → Always (send_received c k s rx) (λ (d : Ctx). IsOwned d qs)
unfolding send_received
send_received-IsOwned c k s rx qs h =
    let (b, runs, owns, no_sending, receives, _, _) = release_sending_runs c h.owns in
    after_runs _ runs (
      after_known (stream_data_process-Streamed b k rx owns) λ (reply, d) (built, (sends, gets)).
        always_case reply
          (λ e. always_some (
            settled (gets ∙ receives) (ap held (sends ∙ no_sending)) (
              subst (λ (q : Option ℕ). Streamed d c.recving (held q ++ []) (held c.recving) qs) e
                built)))
          λ p e. send_reply-IsOwned d s p qs (
            subst (λ (o : Option ℕ). Streamed d o (p ∷ []) (held o) qs) (sym (gets ∙ receives))
              (subst (λ (q : Option ℕ). Streamed d c.recving (held q ++ []) (held c.recving) qs) e
                built)))

discard-Continues :
    (c : Ctx) (k : ℕ) (s : Stream) (qs : List (List ℕ))
    → get_elem? c.stream k ≡ some s
    → IsOwned c qs
    → Always (discard_received 33 c k) (Continues qs)
discard-Continues c k s qs found h =
    let (d, runs, owns, sends, gets, _) =
      discard_received-Owns c c.recving (held c.recving) (held c.sending) qs k s h.owns found in
    always_of runs (record {
      queues_after = set qs k [];
      step = empties k;
      owned = settled gets (ap held sends) owns;
    })

pub stream_out-Continues :
    (c : Ctx) (qs : List (List ℕ)) → IsOwned c qs → Always (stream_out c) (Continues qs)
unfolding stream_out out_stream_next
stream_out-Continues c qs h =
    always_if (time_left c)
      (λ _. after (get_elem? c.stream _) λ s found.
        always_if s.send
          (λ _.
            always_case s.received (λ _. always_some (still (relabelled c _ _ _ _ _ _ _) h))
              λ rx _.
                always_map
                  (send_received-IsOwned _ _ s rx qs
                    (IsOwned-SameLists (relabelled c _ _ _ _ _ _ _) h))
                  λ d. goes_on)
          (λ _.
            discard-Continues _ _ s qs found (IsOwned-SameLists (relabelled c _ _ _ _ _ _ _) h)))
      (λ _. always_some (still (relabelled c _ _ _ _ _ _ _) h))

handshake_reply-SameLists :
    (c : Ctx) (k : ℕ) (s : Stream)
    → get_elem? c.stream k ≡ some s
    → SameLists c (handshake_reply c k s).1
unfolding handshake_reply
handshake_reply-SameLists c k s found = elim (Bool-cases (c.lastrxpid == pid_ack)) [
  | inl e ↦ rw e (SameLists-refl c)
  | inr e ↦ rw e (elim (Bool-cases (c.lastrxpid == pid_nak)) [
    | inl f ↦ rw f (
        SameLists-trans (relabelled c _ _ _ _ _ _ _)
          (SameLists-set_stream (record c { host_st = hs_streamin }) c.ep_in k s _ found refl))
    | inr f ↦ rw f (relabelled c _ _ _ _ _ _ _)
  ])
]

out_response-SameLists :
    (c : Ctx) (k : ℕ) (s : Stream)
    → get_elem? c.stream k ≡ some s
    → Always (out_response c k s) (λ (a : Bool × Ctx). SameLists c a.1)
unfolding out_response
out_response-SameLists c k s found =
    always_if (s.xfr_type == type_bulk || s.xfr_type == type_interrupt)
      (λ _.
        always_if
          (is_bus c.bus_state
            (if s.xfr_type == type_bulk then usb_bulk_out_ack else usb_interrupt_out_ack))
          (λ _. always_some (handshake_reply-SameLists c k s found))
          (λ _.
            always_if (waited c) (λ _. always_some (relabelled c _ _ _ _ _ _ _))
              (λ _. always_some (SameLists-refl c))))
      (λ _. after_assert (s.xfr_type == type_isochronous) λ _.
        always_if (is_bus c.bus_state usb_iso_out) (λ _. always_some (SameLists-refl c))
          (λ _. always_some (relabelled c _ _ _ _ _ _ _)))

toggle_out-SameLists : (c : Ctx) (endpoint : ℕ) → Always (toggle_out c endpoint) (SameLists c)
unfolding toggle_out
toggle_out-SameLists c endpoint =
    after (get_elem? c.ep_out endpoint) λ pid _. always_some (relabelled c _ _ _ _ _ _ _)

packet_accepted-Continues :
    (c : Ctx) (k : ℕ) (qs : List (List ℕ))
    → IsOwned c qs
    → Always (packet_accepted c k) (Continues qs)
unfolding packet_accepted
packet_accepted-Continues c k qs h = after (get_elem? c.stream k) λ s found.
    after s.received λ rx head.
      let (rest, at) = first_packet c k s rx qs found head h in
      let (d, t, runs, owns, beside) = retire_received_runs k rx s rest at h.owns in
      after_runs _ runs (
        after_known {P = SameLists d}
          (always_if (s.xfr_type == type_isochronous) (λ _. always_some (SameLists-refl d))
            (λ _. toggle_out-SameLists d s.ep_out))
          λ e same. always_some (
            Continues-SameLists (SameLists-trans same (relabelled e _ _ _ _ _ _ _)) (record {
              queues_after = set qs k rest;
              step = takes k rx rest at.queue;
              owned = settled beside.recving (ap held beside.sending) owns;
            })))
  where
    first_packet :
        (c : Ctx) (k : ℕ) (s : Stream) (rx : ℕ) (qs : List (List ℕ))
        → get_elem? c.stream k ≡ some s
        → s.received ≡ some rx
        → IsOwned c qs
        → (rest : List ℕ) × Holds c qs k s (rx ∷ rest)
    first_packet c k s rx qs found head h = from (stream-Holds k s h.owns found)
      where
        from : (q : List ℕ) × Holds c qs k s q → (rest : List ℕ) × Holds c qs k s (rx ∷ rest)
        from ([], at) = cc (at.chain, head)
        from (x ∷ rest, at) =
            let (_, e, _, _) = at.chain in
            let same : x ≡ rx = cc (e, head) in
            (rest, subst (λ (i : ℕ). Holds c qs k s (i ∷ rest)) same at)

pub stream_waitack-Continues :
    (c : Ctx) (qs : List (List ℕ)) → IsOwned c qs → Always (stream_waitack c) (Continues qs)
unfolding stream_waitack
stream_waitack-Continues c qs h = after (get_elem? c.stream c.stream_out) λ s found.
    let (b, runs, owns, no_sending, receives, streams, turn) = release_sending_runs c h.owns in
    let released : IsOwned b qs = settled receives (ap held no_sending) owns in
    let here : get_elem? b.stream b.stream_out ≡ some s =
      ap₂ (λ (l : List Stream) (k : ℕ). get_elem? l k) streams turn ∙ found in
    after_runs _ runs (
      after_known (out_response-SameLists b b.stream_out s here) λ (accepted, d) same.
        always_if accepted
          (λ _. packet_accepted-Continues d d.stream_out qs (IsOwned-SameLists same released))
          (λ _. always_some (still same released)))

-- With time left in the frame, the stream in turn not to send, and every descriptor accounted for,
-- the loop over the stream's received packets ends and no assertion fails: the packets of that stream
-- are released, those of the others stay, and the host goes on to receive.
pub stream_out_discards :
    (c : Ctx) (qs : List (List ℕ)) (s : Stream)
    → IsOwned c qs
    → time_left c ≡ true
    → get_elem? c.stream (next_id c.stream_out c.nstreams) ≡ some s
    → s.send ≡ false
    → (d : Ctx) × (stream_out c ≡ some d)
      × IsOwned d (set qs (next_id c.stream_out c.nstreams) [])
      × (d.host_st ≡ hs_streamin)
unfolding stream_out out_stream_next
stream_out_discards c qs s h time found silent =
    let id = next_id c.stream_out c.nstreams in
    let b : Ctx = record c { stream_out = id; host_st = hs_streamin } in
    let ready = IsOwned-SameLists {c = c} {d = b} (relabelled c _ _ _ _ _ _ _) h in
    let (d, runs, owns, sends, gets, state) =
      discard_received-Owns b b.recving (held b.recving) (held b.sending) qs id s ready.owns
        found in
    (
      d,
      rw (time, ◌>>=◌) (rw (found, ◌>>=◌) (rw silent runs)),
      settled gets (ap held sends) owns,
      state,
    )
