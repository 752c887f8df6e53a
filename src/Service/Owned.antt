-- ===== src/Service/Owned.antt =====
-- Who holds the descriptors of the pool while usbdpi_stream.c runs: the free list, the queues of
-- received packets, and the hands that hold single ones. What each operation on the pool does.
use mathlib.Core.List.{
  Mem, Perm, Nodup, mem-cons_self, mem-append_left, mem-append_right, perm_middle, Nodup-append,
  Disjoint-left,
}
use mathlib.Core.List.Perm
use ciexpert_usbdev.Base.{
  ℕ, ◌+◌, ◌≤◌, ◌≡◌, refl, ◌∙◌, subst, Option, none, some, List, [], ◌∷◌, ◌++◌, arith, length,
  get_elem?, set, length-append, length-set, get_elem?-set_self, get_elem?-lt, get_elem?_total, ◌⊎◌,
  inl, inr,
}
use ciexpert_usbdev.Transfer.{Transfer, transfer_init}
use ciexpert_usbdev.Context.{Ctx, transfer_alloc, transfer_release}
use ciexpert_usbdev.Context.Send.{stored}
use ciexpert_usbdev.Context.Pool.{
  Chain, Chain-set, IsPartition, transfer_alloc-IsPartition, transfer_alloc-none,
  transfer_release-IsPartition, used-lt, mem-used-not-free, IsPartition-Nodup,
}
use ciexpert_usbdev.Service.Chains.{
  queued, Queues, Queues-store, Queues-get, Queues-set, queued-uncons, Perm-length,
}

-- Each descriptor is on the free list, in one hand, or in one queue, and there once. The queue
-- `qs[j]` is the chain from `roots[j]`.
pub record Owns (c : Ctx) (roots : List (Option ℕ)) (hand : List ℕ) (qs : List (List ℕ))
    : Type 0 where
  pub free : List ℕ
  pub part : IsPartition c free (hand ++ queued qs)
  pub queues : Queues c.transfer_pool roots qs

-- Another order of the places in use.
pub reordered :
    {c : Ctx} {free used used' : List ℕ}
    → Perm used' used
    → IsPartition c free used
    → IsPartition c free used'
reordered {free} p h = record {
  size = h.size;
  chain = h.chain;
  whole = Perm.trans (Perm.append_left free p) h.whole;
}

module _ {c : Ctx} {roots : List (Option ℕ)} {hand : List ℕ} {qs : List (List ℕ)} where
  -- A place in a hand is in no queue.
  pub hand-not-queued : (p : ℕ) → Owns c roots hand qs → Mem p hand → ¬ Mem p (queued qs)
  hand-not-queued p h m k =
      let n = (Nodup-append.0 (IsPartition-Nodup h.part)).1 in
      Disjoint-left.0 (Nodup-append.0 n).2 p m k

  pub queued-Nodup : Owns c roots hand qs → Nodup (queued qs)
  queued-Nodup h =
      let used =
        (Nodup-append {l₁ = h.free} {l₂ = hand ++ queued qs}).0 (IsPartition-Nodup h.part) in
      ((Nodup-append {l₁ = hand} {l₂ = queued qs}).0 used.1).1

  -- Only the pool and the free list matter.
  pub Owns-pool :
      {d : Ctx}
      → d.transfer_pool ≡ c.transfer_pool
      → d.free ≡ c.free
      → Owns c roots hand qs
      → Owns d roots hand qs
  Owns-pool e f h = record {
    free = h.free;
    part = record { size = rw e h.part.size; chain = rw (e, f) h.part.chain; whole = h.part.whole };
    queues = rw e h.queues;
  }

  -- Something is written to a descriptor in a hand.
  pub Owns-stored :
      (p : ℕ) (t : Transfer) → Mem p hand → Owns c roots hand qs → Owns (stored c p t) roots hand qs
  Owns-stored p t m h = record {
    free = h.free;
    part = record {
      size = length-set c.transfer_pool p t ∙ h.part.size;
      chain =
          Chain-set c.transfer_pool p t c.free h.free
            (mem-used-not-free h.free (hand ++ queued qs) p h.part (mem-append_left (queued qs) m))
            h.part.chain;
      whole = h.part.whole;
    };
    queues = Queues-store c.transfer_pool p t roots qs (hand-not-queued p h m) h.queues;
  }

  -- The places in use are fewer than 33.
  pub in_use_le : Owns c roots hand qs → length hand + length (queued qs) ≤ 32
  in_use_le h = omega (
    arith,
    Perm-length h.part.whole,
    length-append h.free (hand ++ queued qs),
    length-append hand (queued qs),
  )

  -- The oldest packet of a queue is taken in a hand.
  pub take_first :
      (j p : ℕ) (rest : List ℕ)
      → get_elem? roots j ≡ some (some p)
      → get_elem? qs j ≡ some (p ∷ rest)
      → Owns c roots hand qs
      → (t : Transfer) × (get_elem? c.transfer_pool p ≡ some t)
        × Owns c (set roots j t.next) (p ∷ hand) (set qs j rest)
  take_first j p rest e f h =
      let (q, same, chain) = Queues-get c.transfer_pool roots qs j (some p) h.queues e in
      let eq : q ≡ p ∷ rest = cc (same, f) in
      let (t, here, found, tail) : Chain c.transfer_pool (some p) (p ∷ rest) =
        subst (λ (l : List ℕ). Chain c.transfer_pool (some p) l) eq chain in
      (
        t,
        found,
        record {
          free = h.free;
          part = reordered (front f) h.part;
          queues = Queues-set c.transfer_pool roots qs j t.next rest tail h.queues;
        },
      )
    where
      front :
          get_elem? qs j ≡ some (p ∷ rest)
          → Perm ((p ∷ hand) ++ queued (set qs j rest)) (hand ++ queued qs)
      front f =
          Perm.trans (Perm.symm (perm_middle hand (queued (set qs j rest))))
            (Perm.append_left hand (queued-uncons qs j p rest f))

-- The fields that the operations on the pool leave.
pub record Beside (c d : Ctx) : Type 0 where
  pub stream : d.stream ≡ c.stream
  pub sending : d.sending ≡ c.sending
  pub recving : d.recving ≡ c.recving
  pub turn : d.stream_out ≡ c.stream_out
  pub host : d.host_st ≡ c.host_st

-- The descriptor that a hand holds first is released.
pub release_runs :
    {c : Ctx} {roots : List (Option ℕ)} {hand : List ℕ} {qs : List (List ℕ)} (p : ℕ)
    → Owns c roots (p ∷ hand) qs
    → (d : Ctx) × (transfer_release c p ≡ some d) × Owns d roots hand qs × Beside c d
unfolding transfer_release
release_runs {c} {roots} {hand} {qs} p h =
    let m : Mem p (p ∷ hand ++ queued qs) = mem-cons_self in
    let small = used-lt h.free (p ∷ hand ++ queued qs) p h.part m in
    let (t, here) = get_elem?_total c.transfer_pool p (omega (arith, h.part.size)) in
    let d : Ctx = record (stored c p (record t { next = c.free })) { free = some p } in
    let runs : transfer_release c p ≡ some d = rw here in
    let (d', runs', part, _) =
      transfer_release-IsPartition c p h.free [] (hand ++ queued qs) h.part small in
    let same : d' ≡ d = cc (runs, runs') in
    (
      d,
      runs,
      record {
        free = p ∷ h.free;
        part = subst (λ (a : Ctx). IsPartition a (p ∷ h.free) (hand ++ queued qs)) same part;
        queues =
            Queues-store c.transfer_pool p (record t { next = c.free }) roots qs
              (hand-not-queued p h mem-cons_self) h.queues;
      },
      record { stream = refl; sending = refl; recving = refl; turn = refl; host = refl },
    )

-- The result of `transfer_alloc`: a cleared descriptor in a hand.
pub record Allocated (c : Ctx) (roots : List (Option ℕ)) (hand : List ℕ) (qs : List (List ℕ))
    (p : ℕ) (d : Ctx) : Type 0 where
  pub owns : Owns d roots (p ∷ hand) qs
  pub beside : Beside c d
  pub before : Transfer
  pub cleared : get_elem? d.transfer_pool p ≡ some (transfer_init before)

-- What `transfer_alloc` does: it answers NULL and changes nothing, or hands out a descriptor.
abbrev Answers : Ctx → List (Option ℕ) → List ℕ → List (List ℕ) → Type 0
Answers c roots hand qs =
    (transfer_alloc c ≡ some (none, c))
    ⊎ ((p : ℕ) × (d : Ctx) × (transfer_alloc c ≡ some (some p, d)) × Allocated c roots hand qs p d)

module _ {c : Ctx} {roots : List (Option ℕ)} {hand : List ℕ} {qs : List (List ℕ)} where
  alloc_from :
      (free : List ℕ)
      → IsPartition c free (hand ++ queued qs)
      → Queues c.transfer_pool roots qs
      → Answers c roots hand qs
  unfolding transfer_alloc
  alloc_from [] part queues = inl (transfer_alloc-none c (hand ++ queued qs) part)
  alloc_from (p ∷ rest) part queues =
      let (t, head, here, tail) = part.chain in
      let d : Ctx = record (stored c p (transfer_init t)) { free = t.next } in
      let runs : transfer_alloc c ≡ some (some p, d) = rw (head, here) in
      let (d', _, runs', whole, _, _) =
        transfer_alloc-IsPartition c p rest (hand ++ queued qs) part in
      let same : d' ≡ d = cc (runs, runs') in
      let away : ¬ Mem p (queued qs) = λ k.
        let apart = (Nodup-append.0 (IsPartition-Nodup part)).2 in
        Disjoint-left.0 apart p mem-cons_self (mem-append_right hand k) in
      inr (
        p,
        d,
        runs,
        record {
          owns = record {
            free = rest;
            part = subst (λ (a : Ctx). IsPartition a rest (p ∷ hand ++ queued qs)) same whole;
            queues = Queues-store c.transfer_pool p (transfer_init t) roots qs away queues;
          };
          beside = record {
            stream = refl;
            sending = refl;
            recving = refl;
            turn = refl;
            host = refl;
          };
          before = t;
          cleared =
              get_elem?-set_self c.transfer_pool p (transfer_init t)
                (get_elem?-lt c.transfer_pool p t here);
        },
      )

  pub alloc-Answers : Owns c roots hand qs → Answers c roots hand qs
  alloc-Answers h = alloc_from h.free h.part h.queues
