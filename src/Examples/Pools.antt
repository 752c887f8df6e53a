-- ===== src/Examples/Pools.antt =====
-- The theorems on the pool of transfer descriptors at concrete pools.
use ciexpert_usbdev.Base.{
  ℕ, ◌≡◌, refl, subst, ap, arith, Option, some, List, [], ◌∷◌, set, get_elem?,
}
use ciexpert_usbdev.Transfer.{Transfer, transfer_init}
use ciexpert_usbdev.Context.{Ctx, link_pool, usb_transfer_setup, transfer_alloc, transfer_release}
use ciexpert_usbdev.Context.Pool.{
  places, places_from, IsPartition, SameElsewhere, transfer_alloc-IsPartition,
  transfer_release-IsPartition,
}
use ciexpert_usbdev.Context.Reach.{
  usb_transfer_setup-IsPartition, PoolReach, fresh, next, allocates, releases,
  PoolReach-IsPartition,
}
use ciexpert_usbdev.Examples.Data.{blank, at_creation, linked}

linked_setup : usb_transfer_setup at_creation ≡ some linked
unfolding usb_transfer_setup link_pool
linked_setup = refl

usb_transfer_setup-IsPartition_example :
    (c' : Ctx) × (usb_transfer_setup at_creation ≡ some c') × IsPartition c' places []
usb_transfer_setup-IsPartition_example = usb_transfer_setup-IsPartition at_creation refl

-- A result is the one that was computed.
results_agree :
    {A B : Type 0} (P : A → Type 0) (f : A → B) {o : Option B} {a b : A}
    → ((x y : A) → f x ≡ f y → x ≡ y)
    → o ≡ some (f a)
    → o ≡ some (f b)
    → P a
    → P b
results_agree P f inj e g = subst P (inj _ _ (cc))

pub linked-IsPartition : IsPartition linked places []
linked-IsPartition =
    let (c, runs, part) = usb_transfer_setup-IsPartition at_creation refl in
    results_agree (λ (x : Ctx). IsPartition x places []) (λ (x : Ctx). x) (λ x y e. e) runs
      linked_setup part

transfer_alloc-IsPartition_example :
    (c' : Ctx) × (t : Transfer) × (transfer_alloc linked ≡ some (some 0, c'))
    × IsPartition c' (places_from 1 31) (0 ∷ [])
    × (get_elem? c'.transfer_pool 0 ≡ some (transfer_init t))
    × SameElsewhere 0 linked c'
transfer_alloc-IsPartition_example =
    transfer_alloc-IsPartition linked 0 (places_from 1 31) [] linked-IsPartition

-- The first descriptor is taken.
abbrev pub one_taken : Ctx
one_taken = record linked { free = some 1; transfer_pool = set linked.transfer_pool 0 blank }

one_taken_runs : transfer_alloc linked ≡ some (some 0, one_taken)
unfolding transfer_alloc transfer_init
one_taken_runs = refl

abbrev answer : Ctx → Option ℕ × Ctx
answer x = (some 0, x)

second : (x y : Ctx) → answer x ≡ answer y → x ≡ y
second x y e = ap (λ (q : Option ℕ × Ctx). q.1) e

pub one_taken-IsPartition : IsPartition one_taken (places_from 1 31) (0 ∷ [])
one_taken-IsPartition =
    let (c, t, runs, part, _, _) =
      transfer_alloc-IsPartition linked 0 (places_from 1 31) [] linked-IsPartition in
    results_agree (λ (x : Ctx). IsPartition x (places_from 1 31) (0 ∷ [])) answer second runs
      one_taken_runs part

transfer_release-IsPartition_example :
    (c' : Ctx) × (transfer_release one_taken 0 ≡ some c')
    × IsPartition c' (0 ∷ places_from 1 31) []
    × SameElsewhere 0 one_taken c'
transfer_release-IsPartition_example =
    transfer_release-IsPartition one_taken 0 (places_from 1 31) [] [] one_taken-IsPartition
      (omega arith)

taken_and_given_back : PoolReach at_creation linked []
unfolding transfer_release
taken_and_given_back =
    next (next (fresh linked_setup) (allocates one_taken_runs)) (releases [] [] 0 refl refl refl)

PoolReach-IsPartition_example : (free : List ℕ) × IsPartition linked free []
PoolReach-IsPartition_example = PoolReach-IsPartition refl taken_and_given_back
