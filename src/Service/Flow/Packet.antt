-- ===== src/Service/Flow/Packet.antt =====
-- usbdpi_stream.c, HS_ACKIFDATA: a received packet, from the time it is taken until it is answered.
use mathlib.Core.List.{mem-cons_self}
use ciexpert_usbdev.Base.{
  ℕ, ◌≡◌, refl, ◌∙◌, sym, subst, ap, Bool, true, false, not, Option, none, some, List, [], ◌∷◌,
  ◌++◌, get_elem?, set, if◌then◌else◌, Always, always_some, always_none, always_of, always_if,
  always_map, after, after_known, ◌==◌, ◌&&◌, ltb, Bool-cases, inl, inr, ◌>>=◌, >>=-eq-some,
}
use ciexpert_usbdev.Usb.{pid_ack, pid_nak, type_isochronous}
use ciexpert_usbdev.Transfer.{Transfer, transfer_length}
use ciexpert_usbdev.Context.{Ctx, Stream, transfer_status, transfer_release}
use ciexpert_usbdev.Streams.Packets.{set_stream, sizeof_stream_signature}
use ciexpert_usbdev.Service.{collect_received}
use ciexpert_usbdev.Service.In.{decide_retry, check_rest}
use ciexpert_usbdev.Service.Reply.{first_decision, check_packet, file_packet, answer_packet}
use ciexpert_usbdev.Service.Chains.{received}
use ciexpert_usbdev.Service.Owned.{Owns, Owns-pool, Owns-stored, take_first, release_runs}
use ciexpert_usbdev.Service.Queue.{stream-Holds, collect_received_runs}
use ciexpert_usbdev.Service.Effects.{
  SameLists, SameLists-refl, SameLists-set_stream, stream_data_check-SameLists,
  stream_sig_check-SameLists, transfer_status_starts,
}
use ciexpert_usbdev.Service.Calls.{held, Streamed}
use ciexpert_usbdev.Service.Flow.{IsOwned, adds, Continues, settled, goes_on, IsOwned-SameLists}

-- The packet `rx` was taken from `recving`, and is on no list yet.
pub record InHand (c : Ctx) (rx : ℕ) (qs : List (List ℕ)) : Type 0 where
  pub owns : Streamed c none (rx ∷ held c.sending) [] qs
  pub idle : c.recving ≡ none
  pub packet : Transfer
  pub found : get_elem? c.transfer_pool rx ≡ some packet
  pub unlinked : packet.next ≡ none

pub InHand-SameLists :
    {c d : Ctx} {rx : ℕ} {qs : List (List ℕ)} → SameLists c d → InHand c rx qs → InHand d rx qs
InHand-SameLists {c} {d} {rx} {qs} s h = record {
  owns =
      subst (λ (q : Option ℕ). Streamed d none (rx ∷ held q) [] qs) (sym s.sending)
        (subst (λ (l : List (Option ℕ)). Owns d (none ∷ l) (rx ∷ held c.sending) ([] ∷ qs))
          (sym s.lists) (Owns-pool s.pool s.free h.owns));
  idle = s.recving ∙ h.idle;
  packet = h.packet;
  found = rw s.pool h.found;
  unlinked = h.unlinked;
}

pub taken_over :
    (c : Ctx) (rx : ℕ) (qs : List (List ℕ))
    → IsOwned c qs
    → c.recving ≡ some rx
    → InHand (record c { recving = none }) rx qs
taken_over c rx qs h e =
    let owns : Streamed c (some rx) (held c.sending) (rx ∷ []) qs =
      subst (λ (o : Option ℕ). Streamed c o (held c.sending) (held o) qs) e h.owns in
    let (t, found, taken) = take_first 0 rx [] refl refl owns in
    let (u, _, same, end) = owns.queues.0 in
    let alike : u ≡ t = cc (same, found) in
    let unlinked : t.next ≡ none = subst (λ (v : Transfer). v.next ≡ none) alike end in
    record {
      owns = Owns-pool refl refl (
          subst (λ (o : Option ℕ). Owns c (o ∷ received c.stream) (rx ∷ held c.sending) ([] ∷ qs))
            unlinked taken);
      idle = refl;
      packet = t;
      found = found;
      unlinked = unlinked;
    }

decide_retry_keeps : (s : Stream) → (decide_retry s).1.received ≡ s.received
unfolding decide_retry
decide_retry_keeps s = elim (Bool-cases (s.retrying && ltb 0 s.nretries)) [
  | inl e ↦ rw e refl
  | inr e ↦ rw e refl
]

pub first_decision-SameLists :
    (c : Ctx) (k rx : ℕ) → Always (first_decision c k rx) (λ (a : Bool × Ctx). SameLists c a.1)
unfolding first_decision
first_decision-SameLists c k rx = after (get_elem? c.stream k) λ s found.
    always_if (s.xfr_type == type_isochronous)
      (λ _. after (get_elem? c.transfer_pool rx) λ t _. always_some (SameLists-refl c))
      (λ _.
        always_some
          (SameLists-set_stream c c.ep_in k s (decide_retry s).1 found (decide_retry_keeps s)))

check_rest-SameLists :
    (c : Ctx) (k rx offset : ℕ) (accept : Bool)
    → Always (check_rest c k rx offset accept) (λ (a : Bool × Ctx). SameLists c a.1)
unfolding check_rest
check_rest-SameLists c k rx offset accept = after (get_elem? c.transfer_pool rx) λ t _.
    always_if (ltb offset (transfer_length t))
      (λ _.
        after_known (stream_data_check-SameLists c k rx offset accept)
          λ (ok, d) same. always_some same)
      (λ _. always_some (SameLists-refl c))

-- The packet is still in the hand, or was released.
unfoldable pub Kept : Ctx → Option ℕ → List (List ℕ) → Type 0
Kept d none qs = IsOwned d qs
Kept d (some rx) qs = InHand d rx qs

released :
    (c : Ctx) (rx : ℕ) (qs : List (List ℕ))
    → InHand c rx qs
    → Always (transfer_release c rx) (λ (d : Ctx). IsOwned d qs)
released c rx qs h =
    let (d, runs, owns, beside) = release_runs rx h.owns in
    always_of runs (
      settled (beside.recving ∙ h.idle) (ap held beside.sending) (
        subst (λ (l : List Stream). Owns d (none ∷ received l) (held c.sending) ([] ∷ qs))
          (sym beside.stream) owns))

pub check_packet-Kept :
    (c : Ctx) (k rx : ℕ) (qs : List (List ℕ))
    → InHand c rx qs
    → Always (check_packet c k rx) (λ (a : Bool × Option ℕ × Ctx). Kept a.2 a.1 qs)
unfolding check_packet Kept
check_packet-Kept c k rx qs h = after (get_elem? c.stream k) λ s found.
    always_if s.sig_expected
      (λ _. after_known (stream_sig_check-SameLists c k rx) λ (ok, d) same.
        let mine = InHand-SameLists same h in
        always_if (ok && not (s.xfr_type == type_isochronous))
          (λ _. after_known (released d rx qs mine) λ e owned. always_some owned)
          (λ _. rest d (if ok then sizeof_stream_signature else 0) ok mine))
      (λ _. rest c 0 true h)
  where
    rest :
        (d : Ctx) (offset : ℕ) (accept : Bool)
        → InHand d rx qs
        → Always
            (check_rest d k rx offset accept >>= λ (a : Bool × Ctx). some (a.0, some rx, a.1))
            (λ (a : Bool × Option ℕ × Ctx). Kept a.2 a.1 qs)
    rest d offset accept mine =
        after_known (check_rest-SameLists d k rx offset accept)
          λ (ok, e) same. always_some (InHand-SameLists same mine)

-- A packet in the host's hand joins the end of its stream's queue, whatever the queue is: the walk to
-- the end of the list ends, nothing else changes hands, and the packet is in that queue then.
pub collect_received_joins :
    (c : Ctx) (k rx : ℕ) (s : Stream) (qs : List (List ℕ))
    → InHand c rx qs
    → get_elem? c.stream k ≡ some s
    → (d : Ctx) × (q : List ℕ) × (get_elem? qs k ≡ some q)
      × (collect_received c k rx ≡ some d)
      × IsOwned d (set qs k (q ++ (rx ∷ [])))
collect_received_joins c k rx s qs h found =
    let (q, at) = stream-Holds k s h.owns found in
    let (d, runs, owns, sends, gets) =
      collect_received_runs k rx s q h.packet at h.found h.unlinked h.owns in
    (d, q, at.queue, runs, settled (gets ∙ h.idle) (ap held sends) owns)

collected :
    (c : Ctx) (k rx : ℕ) (qs : List (List ℕ))
    → InHand c rx qs
    → Always (collect_received c k rx) (Continues qs)
unfolding collect_received
collected c k rx qs h = record {
  holds = λ d e.
      let (s, found, _) = >>=-eq-some (get_elem? c.stream k) _ e in
      let (b, q, queue, runs, owned) = collect_received_joins c k rx s qs h found in
      let same : b ≡ d = cc (runs, e) in
      subst (λ (a : Ctx). Continues qs a) same
        (record {
          queues_after = set qs k (q ++ (rx ∷ []));
          step = adds k rx q queue;
          owned = owned;
        });
}

pub file_packet-Continues :
    (c : Ctx) (k : ℕ) (accept : Bool) (kept : Option ℕ) (qs : List (List ℕ))
    → Kept c kept qs
    → Always (file_packet c k accept kept) (Continues qs)
unfolding file_packet Kept
file_packet-Continues c k accept none qs h = always_some (goes_on h)
file_packet-Continues c k true (some rx) qs h = collected c k rx qs h
file_packet-Continues c k false (some rx) qs h = always_map (released c rx qs h) λ d. goes_on

-- A handshake goes out through `sending`.
status_sent :
    (c : Ctx) (pid : ℕ) (p : Option ℕ) (qs : List (List ℕ))
    → IsOwned c qs
    → c.sending ≡ p
    → Always (transfer_status c p pid) (λ (d : Ctx). IsOwned d qs × (d.stream ≡ c.stream))
unfolding transfer_status
status_sent c pid none qs h e = always_none
status_sent c pid (some p) qs h e = always_map (transfer_status_starts c p pid) λ d (t, same).
    rw same (
      settled refl refl (
          Owns-pool refl refl (
            Owns-stored p t mem-cons_self (
              subst (λ (q : Option ℕ). Streamed c c.recving (held q) (held c.recving) qs) e
                h.owns))),
      refl,
    )

pub answer_packet-IsOwned :
    (c : Ctx) (k : ℕ) (accept : Bool) (qs : List (List ℕ))
    → IsOwned c qs
    → Always (answer_packet c k accept) (λ (d : Ctx). IsOwned d qs)
unfolding answer_packet
answer_packet-IsOwned c k accept qs h = after (get_elem? c.stream k) λ s found.
    always_if (s.xfr_type == type_isochronous) (λ _. always_some h)
      λ _.
        after_known (status_sent c (if accept then pid_ack else pid_nak) c.sending qs h refl)
          λ d (owned, same).
            let here : get_elem? d.stream k ≡ some s = rw same found in
            always_some (signed accept d s owned here)
  where
    signed :
        (b : Bool) (d : Ctx) (s : Stream)
        → IsOwned d qs
        → get_elem? d.stream k ≡ some s
        → IsOwned (if b then set_stream d k (record s { sig_expected = false }) else d) qs
    signed true d s owned here =
        IsOwned-SameLists (SameLists-set_stream d d.ep_in k s _ here refl) owned
    signed false d s owned here = owned
