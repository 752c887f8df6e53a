-- ===== src/Context/Pool.antt =====
-- The pool of transfer descriptors of usb_transfer.c against its abstract view: a list of free
-- places and a list of places in use.
use mathlib.Core.List.{
  Mem, Perm, Nodup, mem-cons, mem-cons_self, not-mem-nil, perm_middle, append_assoc, Nodup-append,
  Nodup-cons, mem-append_right, Nodup-nil, mem-append_left, Disjoint-left,
}
use mathlib.Core.List.Perm
use native.Mathlib.Bridge.{le_prop}
use mathlib.Core.Logic.Or
use ciexpert_usbdev.Base.{
  ℕ, zero, suc, ◌+◌, ◌≤◌, ◌<◌, ◌≡◌, ◌≢◌, refl, ◌∙◌, Option, none, some, List, [], ◌∷◌, ◌++◌, arith,
  length, get_elem?, set, length-set, get_elem?-set_self, get_elem?-set_ne, get_elem?-lt,
  get_elem?_total,
}
use ciexpert_usbdev.Transfer.{Transfer, transfer_init}
use ciexpert_usbdev.Context.{Ctx, transfer_alloc, transfer_release}

-- From the pointer `p` the `next` fields lead through these places, to NULL.
abbrev pub Chain : List Transfer → Option ℕ → List ℕ → Type 0
Chain pool p [] = p ≡ none
Chain pool p (x ∷ xs) =
    (t : Transfer) × (p ≡ some x) × (get_elem? pool x ≡ some t) × Chain pool t.next xs

-- A store at a place off the chain leaves the chain.
pub Chain-set :
    (pool : List Transfer) (i : ℕ) (t : Transfer) (p : Option ℕ) (xs : List ℕ)
    → ¬ Mem i xs
    → Chain pool p xs
    → Chain (set pool i t) p xs
Chain-set pool i t p [] away c = c
Chain-set pool i t p (x ∷ xs) away (u, e, h, rest) = (
  u,
  e,
  get_elem?-set_ne pool i x t (λ s. away (mem-cons.1 (Or.inl s))) ∙ h,
  Chain-set pool i t u.next xs (λ m. away (mem-cons.1 (Or.inr m))) rest,
)

-- 0, ..., n - 1
abbrev pub places_from : ℕ → ℕ → List ℕ
places_from i zero = []
places_from i (suc n) = i ∷ places_from (suc i) n

abbrev pub places : List ℕ
places = places_from 0 32

-- Each of the 32 descriptors is on the free list or in use, and on one of them only, once.
pub record IsPartition (c : Ctx) (free used : List ℕ) : Type 0 where
  pub size : length c.transfer_pool ≡ 32
  pub chain : Chain c.transfer_pool c.free free
  pub whole : Perm (free ++ used) places

pub le-places_from : (a i n : ℕ) → Mem a (places_from i n) → i ≤ a
le-places_from a i zero m = absurd (not-mem-nil m)
le-places_from a i (suc n) m =
    Or.elim le_prop (mem-cons.0 m) (λ e. omega arith)
      (λ r. omega (arith, le-places_from a (suc i) n r))

places_from-Nodup : (i n : ℕ) → Nodup (places_from i n)
places_from-Nodup i zero = Nodup-nil
places_from-Nodup i (suc n) =
    Nodup-cons.1
      ((λ m. absurd (omega (arith, le-places_from i (suc i) n m))), places_from-Nodup (suc i) n)

pub IsPartition-Nodup :
    {c : Ctx} {free used : List ℕ} → IsPartition c free used → Nodup (free ++ used)
IsPartition-Nodup h = Perm.nodup (Perm.symm h.whole) (places_from-Nodup 0 32)

-- A place in use is not on the free list.
pub mem-used-not-free :
    {c : Ctx} (free used : List ℕ) (p : ℕ) → IsPartition c free used → Mem p used → ¬ Mem p free
mem-used-not-free free used p h m n = Disjoint-left.0 (Nodup-append.0 (IsPartition-Nodup h)).2 p n m

pub used-not-free :
    {c : Ctx} (free us vs : List ℕ) (p : ℕ) → IsPartition c free (us ++ p ∷ vs) → ¬ Mem p free
used-not-free free us vs p h =
    mem-used-not-free free (us ++ p ∷ vs) p h (mem-append_right us mem-cons_self)

-- The descriptors at all places but `p` are the same in both contexts.
abbrev pub SameElsewhere : ℕ → Ctx → Ctx → Type 0
SameElsewhere p c c' = (q : ℕ) → p ≢ q → get_elem? c'.transfer_pool q ≡ get_elem? c.transfer_pool q

-- With a descriptor free, `transfer_alloc` takes the first one off the free list, clears its
-- counts and its link, and touches no other.
pub transfer_alloc-IsPartition :
    (c : Ctx) (p : ℕ) (rest used : List ℕ)
    → IsPartition c (p ∷ rest) used
    → (c' : Ctx) × (t : Transfer) × (transfer_alloc c ≡ some (some p, c'))
      × IsPartition c' rest (p ∷ used)
      × (get_elem? c'.transfer_pool p ≡ some (transfer_init t))
      × SameElsewhere p c c'
unfolding transfer_alloc
transfer_alloc-IsPartition c p rest used h =
    let (t, head, here, tail) = h.chain in
    let place : p < length c.transfer_pool = get_elem?-lt c.transfer_pool p t here in
    (
      record c { free = t.next; transfer_pool = set c.transfer_pool p (transfer_init t) },
      t,
      rw (head, here),
      record {
        size = length-set c.transfer_pool p (transfer_init t) ∙ h.size;
        chain =
            Chain-set c.transfer_pool p (transfer_init t) t.next rest
              (λ m. (Nodup-cons.0 (IsPartition-Nodup h)).0 (mem-append_left used m)) tail;
        whole = Perm.trans (perm_middle rest used) h.whole;
      },
      get_elem?-set_self c.transfer_pool p (transfer_init t) place,
      λ q ne. get_elem?-set_ne c.transfer_pool p q (transfer_init t) ne,
    )

-- With none free it answers NULL and changes nothing.
pub transfer_alloc-none :
    (c : Ctx) (used : List ℕ) → IsPartition c [] used → transfer_alloc c ≡ some (none, c)
unfolding transfer_alloc
transfer_alloc-none c used h = rw h.chain

-- `transfer_release` puts a descriptor that is in use at the head of the free list, and touches no
-- other.
pub transfer_release-IsPartition :
    (c : Ctx) (p : ℕ) (free us vs : List ℕ)
    → IsPartition c free (us ++ p ∷ vs)
    → p < 32
    → (c' : Ctx) × (transfer_release c p ≡ some c')
      × IsPartition c' (p ∷ free) (us ++ vs)
      × SameElsewhere p c c'
unfolding transfer_release
transfer_release-IsPartition c p free us vs h small =
    let (t, here) = get_elem?_total c.transfer_pool p (omega (arith, h.size)) in
    let freed : Transfer = record t { next = c.free } in
    (
      record c { transfer_pool = set c.transfer_pool p freed; free = some p },
      rw here,
      record {
        size = length-set c.transfer_pool p freed ∙ h.size;
        chain = (
          freed,
          refl,
          get_elem?-set_self c.transfer_pool p freed (omega (arith, h.size)),
          Chain-set c.transfer_pool p freed c.free free (used-not-free free us vs p h) h.chain,
        );
        whole = Perm.trans (moved free us vs p) h.whole;
      },
      λ q ne. get_elem?-set_ne c.transfer_pool p q freed ne,
    )
  where
    moved : (xs ys zs : List ℕ) (a : ℕ) → Perm ((a ∷ xs) ++ (ys ++ zs)) (xs ++ (ys ++ a ∷ zs))
    moved xs ys zs a =
        rw (← append_assoc xs ys zs, ← append_assoc xs ys (a ∷ zs))
          (Perm.symm (perm_middle (xs ++ ys) zs))

places-lt : (a i n : ℕ) → Mem a (places_from i n) → a < i + n
places-lt a i zero m = absurd (not-mem-nil m)
places-lt a i (suc n) m =
    Or.elim le_prop (mem-cons.0 m) (λ e. omega arith) (λ r. omega (arith, places-lt a (suc i) n r))

-- A place in use is one of the 32.
pub used-lt : {c : Ctx} (free used : List ℕ) (p : ℕ) → IsPartition c free used → Mem p used → p < 32
used-lt free used p h m = places-lt p 0 32 ((Perm.subset h.whole) p (mem-append_right free m))
