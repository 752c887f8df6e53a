-- ===== src/Service/Chains.antt =====
-- The lists of received packets of usbdpi_stream.c as queues of places in the pool: several chains
-- of descriptors that share none.
use mathlib.Core.List.{
  Mem, Perm, Nodup, mem-cons, mem-cons_self, mem-append, not-mem-nil, perm_middle, append_assoc,
  append-nil, Nodup-append, Nodup-cons, mem-append_right, mem-append_left, Disjoint-left,
}
use mathlib.Core.List.Perm
use mathlib.Core.List
use mathlib.Core.Logic.Or
use ciexpert_usbdev.Base.{
  ℕ, zero, suc, ◌≤◌, ◌≡◌, refl, ◌∙◌, subst, Option, some, List, [], ◌∷◌, ◌++◌, arith, length,
  get_elem?, set, ap, set-get_elem?, length-append,
}
use ciexpert_usbdev.Transfer.{Transfer}
use ciexpert_usbdev.Context.{Stream}
use ciexpert_usbdev.Context.Pool.{Chain, Chain-set}

-- All places of the queues, one queue after the other.
abbrev pub queued : List (List ℕ) → List ℕ
queued [] = []
queued (q ∷ qs) = q ++ queued qs

-- From each root the `next` fields lead through the places of its queue.
abbrev pub Queues : List Transfer → List (Option ℕ) → List (List ℕ) → Type 0
Queues pool [] [] = Unit
Queues pool [] (q ∷ qs) = ⊥
Queues pool (r ∷ rs) [] = ⊥
Queues pool (r ∷ rs) (q ∷ qs) = Chain pool r q × Queues pool rs qs

-- The roots of the streams' lists.
abbrev pub received : List Stream → List (Option ℕ)
received [] = []
received (s ∷ ss) = s.received ∷ received ss

pub received-get_elem? :
    (ss : List Stream) (k : ℕ) (s : Stream)
    → get_elem? ss k ≡ some s
    → get_elem? (received ss) k ≡ some s.received
received-get_elem? [] k s e = cc
received-get_elem? (t ∷ ss) zero s e = let same : t ≡ s = cc e in rw same refl
received-get_elem? (t ∷ ss) (suc k) s e = received-get_elem? ss k s e

pub received-set :
    (ss : List Stream) (k : ℕ) (s : Stream) → received (set ss k s) ≡ set (received ss) k s.received
received-set [] k s = refl
received-set (t ∷ ss) zero s = refl
received-set (t ∷ ss) (suc k) s = ap (λ r. t.received ∷ r) (received-set ss k s)

-- A change of a stream that leaves its list.
pub received-set_same :
    (ss : List Stream) (k : ℕ) (s t : Stream)
    → get_elem? ss k ≡ some s
    → t.received ≡ s.received
    → received (set ss k t) ≡ received ss
received-set_same ss k s t e f =
    received-set ss k t
    ∙ rw f (set-get_elem? (received ss) k s.received (received-get_elem? ss k s e))

length_of_library : (xs ys : List ℕ) → List.length xs ≡ List.length ys → length xs ≡ length ys
length_of_library [] [] e = refl
length_of_library [] (y ∷ ys) e = cc
length_of_library (x ∷ xs) [] e = cc
length_of_library (x ∷ xs) (y ∷ ys) e = ap suc (length_of_library xs ys (cc e))

pub Perm-length : {xs ys : List ℕ} → Perm xs ys → length xs ≡ length ys
Perm-length {xs} {ys} p = length_of_library xs ys (Perm.length-eq p)

-- A store at a place that is in no queue.
pub Queues-store :
    (pool : List Transfer) (i : ℕ) (t : Transfer) (rs : List (Option ℕ)) (qs : List (List ℕ))
    → ¬ Mem i (queued qs)
    → Queues pool rs qs
    → Queues (set pool i t) rs qs
Queues-store pool i t [] [] away h = tt
Queues-store pool i t [] (q ∷ qs) away h = h
Queues-store pool i t (r ∷ rs) [] away h = h
Queues-store pool i t (r ∷ rs) (q ∷ qs) away (c, h) = (
  Chain-set pool i t r q (λ m. away (mem-append_left (queued qs) m)) c,
  Queues-store pool i t rs qs (λ m. away (mem-append_right q m)) h,
)

-- The queue of a root.
pub Queues-get :
    (pool : List Transfer) (rs : List (Option ℕ)) (qs : List (List ℕ)) (j : ℕ) (r : Option ℕ)
    → Queues pool rs qs
    → get_elem? rs j ≡ some r
    → (q : List ℕ) × (get_elem? qs j ≡ some q) × Chain pool r q
Queues-get pool [] qs j r h e = cc
Queues-get pool (s ∷ rs) [] j r h e = absurd h
Queues-get pool (s ∷ rs) (q ∷ qs) zero r (c, h) e =
    let same : s ≡ r = cc e in (q, refl, subst (λ (p : Option ℕ). Chain pool p q) same c)
Queues-get pool (s ∷ rs) (q ∷ qs) (suc j) r (c, h) e = Queues-get pool rs qs j r h e

-- One queue, and its root, is exchanged.
pub Queues-set :
    (pool : List Transfer) (rs : List (Option ℕ)) (qs : List (List ℕ)) (j : ℕ) (r : Option ℕ)
    (q : List ℕ)
    → Chain pool r q
    → Queues pool rs qs
    → Queues pool (set rs j r) (set qs j q)
Queues-set pool [] [] j r q c h = tt
Queues-set pool [] (p ∷ qs) j r q c h = absurd h
Queues-set pool (s ∷ rs) [] j r q c h = absurd h
Queues-set pool (s ∷ rs) (p ∷ qs) zero r q c (_, h) = (c, h)
Queues-set pool (s ∷ rs) (p ∷ qs) (suc j) r q c (d, h) = (d, Queues-set pool rs qs j r q c h)

-- A place of one queue is in no other.
apart : {xs ys : List ℕ} {i : ℕ} → Nodup (xs ++ ys) → Mem i xs → ¬ Mem i ys
apart {xs} {ys} {i} n m k = Disjoint-left.0 (Nodup-append.0 n).2 i m k

pub mem-queued :
    (qs : List (List ℕ)) (j i : ℕ) (q : List ℕ)
    → get_elem? qs j ≡ some q
    → Mem i q
    → Mem i (queued qs)
mem-queued [] j i q e m = cc
mem-queued (p ∷ qs) zero i q e m =
    let same : p ≡ q = cc e in mem-append_left (queued qs) (rw same m)
mem-queued (p ∷ qs) (suc j) i q e m = mem-append_right p (mem-queued qs j i q e m)

pub queue-Nodup :
    (qs : List (List ℕ)) (j : ℕ) (q : List ℕ)
    → get_elem? qs j ≡ some q
    → Nodup (queued qs)
    → Nodup q
queue-Nodup [] j q e n = cc
queue-Nodup (p ∷ qs) zero q e n = let same : p ≡ q = cc e in rw (← same) (Nodup-append.0 n).0
queue-Nodup (p ∷ qs) (suc j) q e n = queue-Nodup qs j q e (Nodup-append.0 n).1

pub queue-le :
    (qs : List (List ℕ)) (j : ℕ) (q : List ℕ)
    → get_elem? qs j ≡ some q
    → length q ≤ length (queued qs)
queue-le [] j q e = cc
queue-le (p ∷ qs) zero q e =
    let same : p ≡ q = cc e in rw (← same) (omega (arith, length-append p (queued qs)))
queue-le (p ∷ qs) (suc j) q e = omega (arith, queue-le qs j q e, length-append p (queued qs))

-- A store at a place of one queue, which is exchanged.
pub Queues-update :
    (pool : List Transfer) (i : ℕ) (t : Transfer) (rs : List (Option ℕ)) (qs : List (List ℕ))
    (j : ℕ) (r : Option ℕ) (p q : List ℕ)
    → Nodup (queued qs)
    → get_elem? qs j ≡ some p
    → Mem i p
    → Chain (set pool i t) r q
    → Queues pool rs qs
    → Queues (set pool i t) (set rs j r) (set qs j q)
Queues-update pool i t [] [] j r p q n e m c h = tt
Queues-update pool i t [] (o ∷ qs) j r p q n e m c h = absurd h
Queues-update pool i t (s ∷ rs) [] j r p q n e m c h = absurd h
Queues-update pool i t (s ∷ rs) (o ∷ qs) zero r p q n e m c (d, h) =
    let same : o ≡ p = cc e in
    (c, Queues-store pool i t rs qs (λ k. apart {xs = o} n (rw same m) k) h)
Queues-update pool i t (s ∷ rs) (o ∷ qs) (suc j) r p q n e m c (d, h) = (
  Chain-set pool i t s o (λ k. apart n k (mem-queued qs j i p e m)) d,
  Queues-update pool i t rs qs j r p q (Nodup-append.0 n).1 e m c h,
)

-- The oldest place of a queue leaves it.
pub queued-uncons :
    (qs : List (List ℕ)) (j p : ℕ) (rest : List ℕ)
    → get_elem? qs j ≡ some (p ∷ rest)
    → Perm (p ∷ queued (set qs j rest)) (queued qs)
queued-uncons [] j p rest e = cc
queued-uncons (q ∷ qs) zero p rest e =
    let same : q ≡ p ∷ rest = cc e in rw same (Perm.refl (p ∷ rest ++ queued qs))
queued-uncons (q ∷ qs) (suc j) p rest e =
    Perm.trans (Perm.symm (perm_middle q (queued (set qs j rest))))
      (Perm.append_left q (queued-uncons qs j p rest e))

-- A place joins a queue at its end.
pub queued-snoc :
    (qs : List (List ℕ)) (j p : ℕ) (q : List ℕ)
    → get_elem? qs j ≡ some q
    → Perm (queued (set qs j (q ++ (p ∷ [])))) (p ∷ queued qs)
queued-snoc [] j p q e = cc
queued-snoc (o ∷ qs) zero p q e =
    let same : o ≡ q = cc e in
    rw (same, append_assoc q (p ∷ []) (queued qs)) (perm_middle q (queued qs))
queued-snoc (o ∷ qs) (suc j) p q e =
    Perm.trans (Perm.append_left o (queued-snoc qs j p q e)) (perm_middle o (queued qs))

-- The same, with places in hands.
pub joined :
    (qs : List (List ℕ)) (hand : List ℕ) (j p : ℕ) (q : List ℕ)
    → get_elem? qs j ≡ some q
    → Perm (hand ++ queued (set qs j (q ++ (p ∷ [])))) ((p ∷ hand) ++ queued qs)
joined qs hand j p q e =
    Perm.trans (Perm.append_left hand (queued-snoc qs j p q e)) (perm_middle hand (queued qs))

-- The place behind which a queue is continued.
abbrev pub last_of : ℕ → List ℕ → ℕ
last_of x [] = x
last_of x (y ∷ ys) = last_of y ys

pub mem-last_of : (x : ℕ) (xs : List ℕ) → Mem (last_of x xs) (x ∷ xs)
mem-last_of x [] = mem-cons_self
mem-last_of x (y ∷ ys) = mem-cons.1 (Or.inr (mem-last_of y ys))
