-- ===== src/Context/Reach.antt =====
-- The pool of usb_transfer.c under any sequence of its operations, from `usb_transfer_setup` on.
use mathlib.Core.List.{Mem, append-nil, mem-cons_self, mem-append_right}
use mathlib.Core.List.Perm
use ciexpert_usbdev.Base.{
  ℕ, zero, suc, ◌+◌, ◌≤◌, ◌≡◌, refl, ◌∙◌, Option, none, some, List, [], ◌∷◌, ◌++◌, arith, length,
  get_elem?, set, length-set, get_elem?-set_self, get_elem?_total, >>=-eq-some, subst, subst₂,
}
use ciexpert_usbdev.Transfer.{Transfer}
use ciexpert_usbdev.Context.{
  Ctx, transfer_alloc, transfer_release, link_pool, usb_transfer_setup, on_transfer,
}
use ciexpert_usbdev.Context.Pool.{
  Chain, Chain-set, IsPartition, places, places_from, le-places_from, transfer_alloc-IsPartition,
  transfer_alloc-none, transfer_release-IsPartition, used-lt, mem-used-not-free,
}

-- The loop links the places below `idx` in front of those that are linked already.
link_pool-Chain :
    (idx k : ℕ) (next : Option ℕ) (pool : List Transfer)
    → idx ≤ length pool
    → Chain pool next (places_from idx k)
    → (p : Option ℕ) × (pool' : List Transfer) × (link_pool idx next pool ≡ some (p, pool'))
      × (length pool' ≡ length pool)
      × Chain pool' p (places_from 0 (idx + k))
unfolding link_pool
link_pool-Chain zero k next pool h c =
    let e : zero + k ≡ k = omega arith in (next, pool, refl, refl, rw e c)
link_pool-Chain (suc idx) k next pool h c =
    let (t, here) = get_elem?_total pool idx (omega arith) in
    let linked : Transfer = record t { next = next } in
    let away : ¬ Mem idx (places_from (suc idx) k) =
      λ m. absurd (omega (arith, le-places_from idx (suc idx) k m)) in
    let (p, pool', runs, size, chain) =
      link_pool-Chain idx (suc k) (some idx) (set pool idx linked)
        (omega (arith, length-set pool idx linked))
        (
          linked,
          refl,
          get_elem?-set_self pool idx linked (omega arith),
          Chain-set pool idx linked next (places_from (suc idx) k) away c,
        ) in
    let n : suc idx + k ≡ idx + suc k = omega arith in
    (p, pool', rw here runs, size ∙ length-set pool idx linked, rw n chain)

-- After `usb_transfer_setup` all 32 descriptors are free, in the order of the pool.
pub usb_transfer_setup-IsPartition :
    (c : Ctx)
    → length c.transfer_pool ≡ 32
    → (c' : Ctx) × (usb_transfer_setup c ≡ some c') × IsPartition c' places []
unfolding usb_transfer_setup
usb_transfer_setup-IsPartition c h =
    let (p, pool', runs, size, chain) =
      link_pool-Chain 32 0 none c.transfer_pool (omega arith) refl in
    (
      record c { transfer_pool = pool'; free = p },
      rw runs,
      record { size = size ∙ h; chain = chain; whole = rw append-nil (Perm.refl places) },
    )

-- What may happen to the pool, with the places in use before and after: a descriptor is allocated
-- or refused, one in use is released, one in use is changed at will, links included, and the
-- other fields of the context change.
pub data PoolStep : Ctx → List ℕ → Ctx → List ℕ → Type 0 where
  allocates :
      {c c' : Ctx} {used : List ℕ} {p : ℕ}
      → transfer_alloc c ≡ some (some p, c')
      → PoolStep c used c' (p ∷ used)
  refuses :
      {c c' : Ctx} {used : List ℕ} → transfer_alloc c ≡ some (none, c') → PoolStep c used c' used
  releases :
      {c c' : Ctx} {used used' : List ℕ} (us vs : List ℕ) (p : ℕ)
      → used ≡ us ++ p ∷ vs
      → used' ≡ us ++ vs
      → transfer_release c p ≡ some c'
      → PoolStep c used c' used'
  changes :
      {c c' : Ctx} {used : List ℕ} (p : ℕ) (f : Transfer → Option Transfer)
      → Mem p used
      → on_transfer c (some p) f ≡ some c'
      → PoolStep c used c' used
  elsewhere :
      {c c' : Ctx} {used : List ℕ}
      → c'.free ≡ c.free
      → c'.transfer_pool ≡ c.transfer_pool
      → PoolStep c used c' used

pub data PoolReach (start : Ctx) : Ctx → List ℕ → Type 0 where
  fresh : {c : Ctx} → usb_transfer_setup start ≡ some c → PoolReach start c []
  next :
      {c c' : Ctx} {used used' : List ℕ}
      → PoolReach start c used
      → PoolStep c used c' used'
      → PoolReach start c' used'

on_transfer-IsPartition :
    (c c' : Ctx) (free used : List ℕ) (p : ℕ) (f : Transfer → Option Transfer)
    → ¬ Mem p free
    → IsPartition c free used
    → on_transfer c (some p) f ≡ some c'
    → IsPartition c' free used
unfolding on_transfer
on_transfer-IsPartition c c' free used p f away h e =
    let (t, found, e₁) = >>=-eq-some (get_elem? c.transfer_pool p) _ e in
    let (t', runs, e₂) = >>=-eq-some (f t) _ e₁ in
    let store : record c { transfer_pool = set c.transfer_pool p t' } ≡ c' = cc e₂ in
    subst (λ (d : Ctx). IsPartition d free used) store
      (record {
        size = length-set c.transfer_pool p t' ∙ h.size;
        chain = Chain-set c.transfer_pool p t' c.free free away h.chain;
        whole = h.whole;
      })

allocates-IsPartition :
    (c c' : Ctx) (free used : List ℕ) (p : ℕ)
    → IsPartition c free used
    → transfer_alloc c ≡ some (some p, c')
    → (rest : List ℕ) × IsPartition c' rest (p ∷ used)
allocates-IsPartition c c' [] used p h e = cc (transfer_alloc-none c used h)
allocates-IsPartition c c' (x ∷ xs) used p h e =
    let (d, t, runs, part, made, rest) = transfer_alloc-IsPartition c x xs used h in
    let place : x ≡ p = cc (runs, e) in
    let same : d ≡ c' = cc (runs, e) in
    (xs, subst₂ (λ (a : Ctx) (q : ℕ). IsPartition a xs (q ∷ used)) same place part)

refuses-IsPartition :
    (c c' : Ctx) (free used : List ℕ)
    → IsPartition c free used
    → transfer_alloc c ≡ some (none, c')
    → IsPartition c' free used
refuses-IsPartition c c' [] used h e =
    let same : c ≡ c' = cc (transfer_alloc-none c used h) in
    subst (λ (a : Ctx). IsPartition a [] used) same h
refuses-IsPartition c c' (x ∷ xs) used h e =
    let (d, t, runs, part, made, rest) = transfer_alloc-IsPartition c x xs used h in cc (runs, e)

releases-IsPartition :
    (c c' : Ctx) (free us vs : List ℕ) (p : ℕ)
    → IsPartition c free (us ++ p ∷ vs)
    → transfer_release c p ≡ some c'
    → IsPartition c' (p ∷ free) (us ++ vs)
releases-IsPartition c c' free us vs p h e =
    let (d, runs, part, _) =
      transfer_release-IsPartition c p free us vs h
        (used-lt free (us ++ p ∷ vs) p h (mem-append_right us mem-cons_self)) in
    let same : d ≡ c' = cc (runs, e) in
    subst (λ (a : Ctx). IsPartition a (p ∷ free) (us ++ vs)) same part

PoolStep-IsPartition :
    {c c' : Ctx} {used used' : List ℕ} (free : List ℕ)
    → PoolStep c used c' used'
    → IsPartition c free used
    → (free' : List ℕ) × IsPartition c' free' used'
PoolStep-IsPartition {c} {c'} {used} free (allocates {p = p} e) h =
    allocates-IsPartition c c' free used p h e
PoolStep-IsPartition {c} {c'} {used} free (refuses e) h =
    (free, refuses-IsPartition c c' free used h e)
PoolStep-IsPartition {c} {c'} free (releases us vs p before after e) h =
    let part = releases-IsPartition c c' free us vs p (rw before at h) e in
    (p ∷ free, rw after part)
PoolStep-IsPartition {c} {c'} {used} free (changes p f m e) h =
    (free, on_transfer-IsPartition c c' free used p f (mem-used-not-free free used p h m) h e)
PoolStep-IsPartition free (elsewhere same_free same_pool) h = (
  free,
  record { size = rw same_pool h.size; chain = rw (same_free, same_pool) h.chain; whole = h.whole },
)

-- From `usb_transfer_setup` on a pool of 32, after any sequence of allocations, of releases and
-- changes of descriptors that are in use, and of writes beside the pool, every one of the 32
-- descriptors is either on the free list or in use, on one of them only and once: none is handed out
-- twice and none is lost. That a descriptor which is not in use is neither released nor written is a
-- condition on the steps.
pub PoolReach-IsPartition :
    {start c : Ctx} {used : List ℕ}
    → length start.transfer_pool ≡ 32
    → PoolReach start c used
    → (free : List ℕ) × IsPartition c free used
PoolReach-IsPartition {start} {c} sized (fresh e) =
    let (d, runs, part) = usb_transfer_setup-IsPartition start sized in
    let same : d ≡ c = cc (runs, e) in
    (places, subst (λ (a : Ctx). IsPartition a places []) same part)
PoolReach-IsPartition sized (next r s) =
    let (free, part) = PoolReach-IsPartition sized r in PoolStep-IsPartition free s part
