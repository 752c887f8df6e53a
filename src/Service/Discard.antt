-- ===== src/Service/Discard.antt =====
-- usbdpi_stream.c: how `streams_service` takes packets off a stream's list, one or all of them.
use ciexpert_usbdev.Base.{
  ℕ, zero, suc, ◌<◌, ◌≡◌, refl, ◌∙◌, subst, Option, some, List, [], ◌∷◌, arith, length, get_elem?,
  set, set-get_elem?, set-set, get_elem?-set_self, get_elem?-lt, ◌>>=◌,
}
use ciexpert_usbdev.Transfer.{Transfer}
use ciexpert_usbdev.Context.{Ctx, Stream}
use ciexpert_usbdev.Streams.Packets.{set_stream}
use ciexpert_usbdev.Service.{retire_received, discard_received}
use ciexpert_usbdev.Service.Chains.{received, received-set, received-get_elem?, queue-le}
use ciexpert_usbdev.Service.Owned.{Owns, Beside, Owns-pool, take_first, release_runs, in_use_le}
use ciexpert_usbdev.Service.Queue.{Holds, stream-Holds}

-- One round of the loop.
discard_round :
    (left k p : ℕ) (c d : Ctx) (s : Stream)
    → get_elem? c.stream k ≡ some s
    → s.received ≡ some p
    → retire_received c k s p ≡ some d
    → discard_received (suc left) c k ≡ discard_received left d k
unfolding discard_received
discard_round left k p c d s e head once = rw (e, ◌>>=◌) (rw head (rw (once, ◌>>=◌) refl))

module _ {o : Option ℕ} {r hand : List ℕ} where
  -- The oldest packet of a stream leaves its queue and is released.
  pub retire_received_runs :
      {c : Ctx} {qs : List (List ℕ)} (k p : ℕ) (s : Stream) (rest : List ℕ)
      → Holds c qs k s (p ∷ rest)
      → Owns c (o ∷ received c.stream) hand (r ∷ qs)
      → (d : Ctx) × (t : Transfer) × (retire_received c k s p ≡ some d)
        × Owns d (o ∷ received d.stream) hand (r ∷ set qs k rest)
        × Beside (set_stream c k (record s { received = t.next })) d
  unfolding retire_received
  retire_received_runs {c} {qs} k p s rest at h =
      let (v, head, _, _) = at.chain in
      let root : get_elem? (received c.stream) k ≡ some (some p) =
        received-get_elem? c.stream k s at.stream ∙ rw head refl in
      let (t, found, owns) = take_first (suc k) p rest root at.queue h in
      let gone : Stream = record s { received = t.next } in
      let moved : Owns (set_stream c k gone) (o ∷ received (set c.stream k gone)) (p ∷ hand)
          (r ∷ set qs k rest) =
        rw (received-set c.stream k gone) (Owns-pool refl refl owns) in
      let (d, runs, after, beside) = release_runs p moved in
      (d, t, rw (found, ◌>>=◌) runs, rw beside.stream after, beside)

  -- The loop releases every packet of a stream's queue, and ends.
  pub discard_received_runs :
      (left : ℕ) (c : Ctx) (qs : List (List ℕ)) (k : ℕ) (s : Stream) (q : List ℕ)
      → Holds c qs k s q
      → length q < left
      → Owns c (o ∷ received c.stream) hand (r ∷ qs)
      → (d : Ctx) × (discard_received left c k ≡ some d)
        × Owns d (o ∷ received d.stream) hand (r ∷ set qs k [])
        × (d.sending ≡ c.sending)
        × (d.recving ≡ c.recving)
        × (d.host_st ≡ c.host_st)
  unfolding discard_received
  discard_received_runs zero c qs k s q at l h = absurd (omega arith)
  discard_received_runs (suc left) c qs k s [] at l h = (
    c,
    rw (at.stream, ◌>>=◌) (rw at.chain refl),
    rw (set-get_elem? qs k [] at.queue) h,
    refl,
    refl,
    refl,
  )
  discard_received_runs (suc left) c qs k s (p ∷ rest) at l h =
      let (v, head, _, _) = at.chain in
      let (d, t, once, owns, beside) = retire_received_runs k p s rest at h in
      let gone : Stream = record s { received = t.next } in
      let here : get_elem? d.stream k ≡ some gone =
        rw beside.stream
          (get_elem?-set_self c.stream k gone (get_elem?-lt c.stream k s at.stream)) in
      let (q, holds) = stream-Holds k gone owns here in
      let rest_is : get_elem? (set qs k rest) k ≡ some rest =
        get_elem?-set_self qs k rest (get_elem?-lt qs k (p ∷ rest) at.queue) in
      let same : q ≡ rest = cc (holds.queue, rest_is) in
      let at_rest = subst (λ (l : List ℕ). Holds d (set qs k rest) k gone l) same holds in
      let (e, goes, done, sends, receives, state) =
        discard_received_runs left d (set qs k rest) k gone rest at_rest (omega arith) owns in
      (
        e,
        discard_round left k p c d s at.stream head once ∙ goes,
        rw set-set at done,
        sends ∙ beside.sending,
        receives ∙ beside.recving,
        state ∙ beside.host,
      )

-- Discarding the packets of a stream that is not to send needs no more rounds than the pool has
-- descriptors: the loop ends, the stream's queue is empty, all its descriptors are free, and the
-- other queues are as they were.
pub discard_received-Owns :
    (c : Ctx) (o : Option ℕ) (r hand : List ℕ) (qs : List (List ℕ)) (k : ℕ) (s : Stream)
    → Owns c (o ∷ received c.stream) hand (r ∷ qs)
    → get_elem? c.stream k ≡ some s
    → (d : Ctx) × (discard_received 33 c k ≡ some d)
      × Owns d (o ∷ received d.stream) hand (r ∷ set qs k [])
      × (d.sending ≡ c.sending)
      × (d.recving ≡ c.recving)
      × (d.host_st ≡ c.host_st)
discard_received-Owns c o r hand qs k s h e =
    let (q, at) = stream-Holds k s h e in
    discard_received_runs 33 c qs k s q at
      (omega (arith, in_use_le h, queue-le (r ∷ qs) (suc k) q at.queue)) h
