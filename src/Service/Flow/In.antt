-- ===== src/Service/Flow/In.antt =====
-- usbdpi_stream.c: HS_STREAMIN and HS_WAIT_PKT keep the account of the packets.
use mathlib.Core.List.{mem-cons_self}
use ciexpert_usbdev.Base.{
  ℕ, ◌≡◌, refl, sym, subst, ap, Bool, true, false, Option, none, some, List, [], ◌∷◌, ◌++◌,
  get_elem?, set, Always, always_some, always_if, always_map, after, after_known, ◌&&◌,
}
use ciexpert_usbdev.Usb.{max_packet_size, pid_in}
use ciexpert_usbdev.Transfer.{Transfer}
use ciexpert_usbdev.Context.{Ctx, Stream}
use ciexpert_usbdev.Streams.{in_stream_next}
use ciexpert_usbdev.Streams.Packets.{set_stream}
use ciexpert_usbdev.Service.{time_left}
use ciexpert_usbdev.Service.In.{
  is_null, in_bus_state, request_packet, fake_packet, stream_in, stream_wait_pkt,
}
use ciexpert_usbdev.Service.Owned.{Owns-pool, Owns-stored}
use ciexpert_usbdev.Service.Queue.{Holds, stream-Holds, join_empty}
use ciexpert_usbdev.Service.Effects.{relabelled, SameLists-set_stream}
use ciexpert_usbdev.Service.Calls.{
  held, Streamed, stream_data_gen-Streamed, ensure_sending-Streamed, send_token_starts,
}
use ciexpert_usbdev.Service.Flow.{
  IsOwned, adds, Continues, settled, goes_on, still, IsOwned-SameLists, Continues-SameLists,
}

request_packet-IsOwned :
    (c : Ctx) (s : Stream) (qs : List (List ℕ))
    → IsOwned c qs
    → Always (request_packet c s) (λ (d : Ctx). IsOwned d qs)
unfolding request_packet
request_packet-IsOwned c s qs h =
    after_known (ensure_sending-Streamed c h.owns) λ a (p, sends, owns, receives).
      after_known (send_token_starts a p pid_in a.dev_address s.ep_in sends) λ d (t, same).
        after (in_bus_state s.xfr_type) λ b _. always_some (
          rw same
            (settled receives refl (Owns-pool refl refl (Owns-stored p t mem-cons_self owns))))

-- A stream without packets has an empty queue, in whichever way that is found.
no_packets :
    (c d : Ctx) (k : ℕ) (s u : Stream) (qs : List (List ℕ))
    → IsOwned c qs
    → get_elem? c.stream k ≡ some s
    → s.received ≡ none
    → {o : Option ℕ} {r hand : List ℕ} → Streamed d o hand r qs
    → get_elem? d.stream k ≡ some u
    → Holds d qs k u []
no_packets c d k s u qs h found empty owns here =
    both (stream-Holds k s h.owns found) (stream-Holds k u owns here)
  where
    both : (q : List ℕ) × Holds c qs k s q → (q : List ℕ) × Holds d qs k u q → Holds d qs k u []
    both ([], at) (q, at') =
        let same : q ≡ [] = cc (at.queue, at'.queue) in
        subst (λ (l : List ℕ). Holds d qs k u l) same at'
    both (x ∷ xs, at) at' = let (_, e, _, _) = at.chain in cc (e, empty)

fake_packet-Continues :
    (c : Ctx) (k : ℕ) (s : Stream) (qs : List (List ℕ))
    → IsOwned c qs
    → get_elem? c.stream k ≡ some s
    → s.received ≡ none
    → Always (fake_packet c k) (Continues qs)
unfolding fake_packet
fake_packet-Continues c k s qs h found empty =
    after_known (stream_data_gen-Streamed c k max_packet_size h.owns)
      λ (tr, d) (owns, (sends, gets), link).
        after (get_elem? d.stream k) λ u here. always_some (joins tr d u owns sends gets link here)
  where
    joins :
        (tr : Option ℕ) (d : Ctx) (u : Stream)
        → Streamed d c.recving (held tr ++ held c.sending) (held c.recving) qs
        → d.sending ≡ c.sending
        → d.recving ≡ c.recving
        → ((p : ℕ)
            → tr ≡ some p
            → (t : Transfer) × (get_elem? d.transfer_pool p ≡ some t) × (t.next ≡ none))
        → get_elem? d.stream k ≡ some u
        → Continues qs (set_stream d k (record u { received = tr }))
    joins none d u owns sends gets link here =
        let at = no_packets c d k s u qs h found empty owns here in
        still (SameLists-set_stream d d.ep_in k u _ here (sym at.chain))
          (settled gets (ap held sends) owns)
    joins (some p) d u owns sends gets link here =
        let at = no_packets c d k s u qs h found empty owns here in
        let (t, there, unlinked) = link p refl in
        record {
          queues_after = set qs k (p ∷ []);
          step = adds k p [] at.queue;
          owned = settled gets (ap held sends) (join_empty k p u t at there unlinked owns);
        }

pub stream_in-Continues :
    (c : Ctx) (qs : List (List ℕ)) → IsOwned c qs → Always (stream_in c) (Continues qs)
unfolding stream_in in_stream_next
stream_in-Continues c qs h =
    always_if (time_left c)
      (λ _. after (get_elem? c.stream _) λ s found.
        always_if s.retrieve
          (λ _.
            always_map
              (request_packet-IsOwned _ s qs (IsOwned-SameLists (relabelled c _ _ _ _ _ _ _) h))
              λ d. goes_on)
          (λ _.
            after_known {P = Continues qs}
              (always_if (s.send && is_null s.received)
                (λ e.
                  fake_packet-Continues _ _ s qs (IsOwned-SameLists (relabelled c _ _ _ _ _ _ _) h)
                    found (null s e))
                (λ _. always_some (still (relabelled c _ _ _ _ _ _ _) h)))
              λ d on. always_some (Continues-SameLists (relabelled d _ _ _ _ _ _ _) on)))
      (λ _. always_some (still (relabelled c _ _ _ _ _ _ _) h))
  where
    null_of : (b : Bool) (o : Option ℕ) → (b && is_null o) ≡ true → o ≡ none
    null_of b none e = refl
    null_of true (some p) e = cc
    null_of false (some p) e = cc

    null : (s : Stream) → (s.send && is_null s.received) ≡ true → s.received ≡ none
    null s e = null_of s.send s.received e

pub stream_wait_pkt-Continues :
    (c : Ctx) (qs : List (List ℕ)) → IsOwned c qs → Continues qs (stream_wait_pkt c)
unfolding stream_wait_pkt
stream_wait_pkt-Continues c qs h = still (relabelled c _ _ _ _ _ _ _) h
