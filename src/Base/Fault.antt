-- ===== src/Base/Fault.antt =====
-- Fallible steps: `none` is a failed assertion, or an access that C leaves undefined.
use mathlib.Core.Path.{◌≡◌, refl, subst}
use mathlib.Core.Logic.{◌⊎◌, inl, inr}
use mathlib.Core.Bool.{Bool, true, false}
use mathlib.Core.Option.{Option, none, some}
use ciexpert_usbdev.Base.Tests.{if◌then◌else◌}

infixl 5 ◌>>=◌ ◌>>◌
abbrev pub ◌>>=◌ {ℓ κ} : {A : Type ℓ} {B : Type κ} → Option A → (A → Option B) → Option B
none >>= f = none
some a >>= f = f a

abbrev pub ◌>>◌ {ℓ} : {B : Type ℓ} → Option (Unit {0}) → Option B → Option B
m >> k = m >>= λ _. k

-- assert(b)
abbrev pub assert : Bool → Option (Unit {0})
assert true = some tt
assert false = none

pub Option-cases {ℓ} : {A : Type ℓ} (o : Option A) → (o ≡ none) ⊎ ((a : A) × (o ≡ some a))
Option-cases none = inl refl
Option-cases (some a) = inr (a, refl)

pub >>=-eq-some {ℓ κ} :
    {A : Type ℓ} {B : Type κ} (m : Option A) (f : A → Option B) {b : B}
    → (m >>= f) ≡ some b
    → (a : A) × (m ≡ some a) × (f a ≡ some b)
>>=-eq-some none f h = cc
>>=-eq-some (some a) f h = (a, refl, h)

-- What holds of the result whenever there is one.
pub record Always {ℓ κ} {A : Type ℓ} (m : Option A) (P : A → Type κ) : Type (ℓ ⊔ κ) where
  pub holds : (a : A) → m ≡ some a → P a

module _ {ℓ κ} {A : Type ℓ} {P : A → Type κ} where
  pub always_some : {a : A} → P a → Always (some a) P
  always_some {a} p = record { holds = λ b e. let same : a ≡ b = cc e in subst P same p }

  pub always_none : Always none P
  always_none = record { holds = λ b e. cc }

  pub always_of : {m : Option A} {a : A} → m ≡ some a → P a → Always m P
  always_of e p = rw e (always_some p)

  pub always_if :
      (b : Bool) {x y : Option A}
      → (b ≡ true → Always x P)
      → (b ≡ false → Always y P)
      → Always (if b then x else y) P
  always_if true h k = h refl
  always_if false h k = k refl

  pub always_case {μ} :
      {X : Type μ} (o : Option X) {x : Option A} {g : X → Option A}
      → (o ≡ none → Always x P)
      → ((y : X) → o ≡ some y → Always (g y) P)
      → Always (elim o [ none ↦ x | some y ↦ g y ]) P
  always_case none h k = h refl
  always_case (some y) h k = k y refl

  pub always_map {μ} :
      {Q : A → Type μ} {m : Option A} → Always m P → ((a : A) → P a → Q a) → Always m Q
  always_map h k = record { holds = λ a e. k a (h.holds a e) }

module _ {ℓ κ μ} {A : Type ℓ} {B : Type κ} {Q : B → Type μ} {f : A → Option B} where
  -- After a step of which nothing but its result is used.
  pub after : (m : Option A) → ((a : A) → m ≡ some a → Always (f a) Q) → Always (m >>= f) Q
  after none h = always_none
  after (some a) h = h a refl

  -- After a step of which something is known.
  pub after_known {ν} :
      {P : A → Type ν} {m : Option A}
      → Always m P
      → ((a : A) → P a → Always (f a) Q)
      → Always (m >>= f) Q
  after_known {m} p h = after m λ a e. h a (p.holds a e)

-- After a step whose result is known.
pub after_runs {ℓ κ μ} :
    {A : Type ℓ} {B : Type κ} {Q : B → Type μ} {m : Option A} {a : A} (f : A → Option B)
    → m ≡ some a
    → Always (f a) Q
    → Always (m >>= f) Q
after_runs f e h = rw e h

-- After an assertion that holds.
pub after_assert {ℓ κ} :
    {B : Type ℓ} {Q : B → Type κ} {k : Option B} (b : Bool)
    → (b ≡ true → Always k Q)
    → Always (assert b >> k) Q
after_assert true h = h refl
after_assert false h = always_none
