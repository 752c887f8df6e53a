-- ===== src/Base/Bits.antt =====
-- Laws of `&`, `|` and `^` at variables, from the digit recursion that the operations stand for.
use Prim.Native.Nat.{
  ℕ, zero, suc, ◌+◌, ◌-◌, ◌*◌, ◌/◌, ◌%◌, ◌^◌, ◌≤◌, ◌<◌, min, max, digits, differ, bit_and, bit_or,
  bit_xor, bit_and-bitwise, bit_or-bitwise, bit_xor-bitwise, bitwise,
}
use mathlib.Core.Path.{◌≡◌, refl, ap, subst, ◌∙◌}
use mathlib.Core.Bool.{Bool, true, ◌&&◌}
use native.Mathlib.Nat.{le_refl, pow-suc}
use native.Mathlib.Omega.{arith}

-- `digits` halves its first number in every round, so more fuel than that number changes nothing.
more_fuel :
    (z : ℕ → ℕ) (f : ℕ → ℕ → ℕ) (a b n : ℕ) → a ≤ n → digits z f (suc n) a b ≡ digits z f n a b
more_fuel z f zero b zero enough = refl
more_fuel z f zero b (suc n) enough = refl
more_fuel z f (suc a) b zero enough = absurd (omega arith)
more_fuel z f (suc a) b (suc n) enough =
    ap (λ (rest : ℕ). rest * 2 + f (suc a % 2) (b % 2))
      (more_fuel z f (suc a / 2) (b / 2) n (omega arith))

any_fuel :
    (z : ℕ → ℕ) (f : ℕ → ℕ → ℕ) (extra a b : ℕ) → digits z f (extra + a) a b ≡ digits z f a a b
any_fuel z f zero a b = let e : zero + a ≡ a = omega arith in rw e refl
any_fuel z f (suc extra) a b =
    let e : suc extra + a ≡ suc (extra + a) = omega arith in
    rw e (more_fuel z f a b (extra + a) (omega arith) ∙ any_fuel z f extra a b)

lowest_digit :
    (z : ℕ → ℕ) (f : ℕ → ℕ → ℕ) (a b : ℕ)
    → bitwise z f (suc a) b ≡ f (suc a % 2) (b % 2) + 2 * bitwise z f (suc a / 2) (b / 2)
lowest_digit z f a b =
    let extra : (a - suc a / 2) + suc a / 2 ≡ a = omega arith in
    omega (
      arith,
      subst (λ (fuel : ℕ). digits z f fuel (suc a / 2) (b / 2) ≡ bitwise z f (suc a / 2) (b / 2))
          extra (any_fuel z f (a - suc a / 2) (suc a / 2) (b / 2)),
    )

-- Each operation by its lowest digit.
pub bit_and_step : (x y : ℕ) → bit_and x y ≡ min (x % 2) (y % 2) + 2 * bit_and (x / 2) (y / 2)
bit_and_step zero y = simp bit_and-bitwise (omega arith)
bit_and_step (suc x) y = simp bit_and-bitwise (lowest_digit (λ _. 0) min x y)

pub bit_or_step : (x y : ℕ) → bit_or x y ≡ max (x % 2) (y % 2) + 2 * bit_or (x / 2) (y / 2)
bit_or_step zero y = simp bit_or-bitwise (omega arith)
bit_or_step (suc x) y = simp bit_or-bitwise (lowest_digit (λ u. u) max x y)

-- `differ` on binary digits is addition without carry.
differ_sum : (x y : ℕ) → x ≤ 1 → y ≤ 1 → (x + y) % 2 ≡ differ x y
differ_sum zero zero h g = refl
differ_sum (suc zero) zero h g = refl
differ_sum zero (suc zero) h g = refl
differ_sum (suc zero) (suc zero) h g = refl
differ_sum zero (suc (suc y)) h g = absurd (omega arith)
differ_sum (suc zero) (suc (suc y)) h g = absurd (omega arith)
differ_sum (suc (suc x)) y h g = absurd (omega arith)

pub bit_xor_step : (x y : ℕ) → bit_xor x y ≡ (x + y) % 2 + 2 * bit_xor (x / 2) (y / 2)
bit_xor_step zero y = simp bit_xor-bitwise (omega arith)
bit_xor_step (suc x) y = simp bit_xor-bitwise (
    omega (
      arith,
      lowest_digit (λ u. u) differ x y,
      differ_sum (suc x % 2) (y % 2) (omega arith) (omega arith),
    ))

-- The laws by induction on a bound `n` of the operands.
xor_comm_fuel : (n a b : ℕ) → a ≤ n → b ≤ n → bit_xor a b ≡ bit_xor b a
xor_comm_fuel zero zero zero p q = refl
xor_comm_fuel zero (suc a) b p q = absurd (omega arith)
xor_comm_fuel zero zero (suc b) p q = absurd (omega arith)
xor_comm_fuel (suc n) a b p q = omega (
  arith,
  bit_xor_step a b,
  bit_xor_step b a,
  xor_comm_fuel n (a / 2) (b / 2) (omega arith) (omega arith),
)

pub bit_xor_comm : (a b : ℕ) → bit_xor a b ≡ bit_xor b a
bit_xor_comm a b = xor_comm_fuel (a + b) a b (omega arith) (omega arith)

xor_assoc_fuel :
    (n a b c : ℕ) → a ≤ n → b ≤ n → c ≤ n → bit_xor (bit_xor a b) c ≡ bit_xor a (bit_xor b c)
xor_assoc_fuel zero zero zero zero p q r = refl
xor_assoc_fuel zero (suc a) b c p q r = absurd (omega arith)
xor_assoc_fuel zero zero (suc b) c p q r = absurd (omega arith)
xor_assoc_fuel zero zero zero (suc c) p q r = absurd (omega arith)
xor_assoc_fuel (suc n) a b c p q r =
    let left : bit_xor a b / 2 ≡ bit_xor (a / 2) (b / 2) = omega (arith, bit_xor_step a b) in
    let right : bit_xor b c / 2 ≡ bit_xor (b / 2) (c / 2) = omega (arith, bit_xor_step b c) in
    omega (
      arith,
      bit_xor_step (bit_xor a b) c,
      bit_xor_step a (bit_xor b c),
      bit_xor_step a b,
      bit_xor_step b c,
      ap (λ (t : ℕ). bit_xor t (c / 2)) left,
      ap (bit_xor (a / 2)) right,
      xor_assoc_fuel n (a / 2) (b / 2) (c / 2) (omega arith) (omega arith) (omega arith),
    )

pub bit_xor_assoc : (a b c : ℕ) → bit_xor (bit_xor a b) c ≡ bit_xor a (bit_xor b c)
bit_xor_assoc a b c = xor_assoc_fuel (a + b + c) a b c (omega arith) (omega arith) (omega arith)

xor_zero_fuel : (n a : ℕ) → a ≤ n → bit_xor a 0 ≡ a
xor_zero_fuel zero zero p = refl
xor_zero_fuel zero (suc a) p = absurd (omega arith)
xor_zero_fuel (suc n) a p = omega (arith, bit_xor_step a 0, xor_zero_fuel n (a / 2) (omega arith))

pub bit_xor-zero : (a : ℕ) → bit_xor a 0 ≡ a
bit_xor-zero a = xor_zero_fuel a a (le_refl a)

xor_self_fuel : (n a : ℕ) → a ≤ n → bit_xor a a ≡ 0
xor_self_fuel zero zero p = refl
xor_self_fuel zero (suc a) p = absurd (omega arith)
xor_self_fuel (suc n) a p = omega (arith, bit_xor_step a a, xor_self_fuel n (a / 2) (omega arith))

pub bit_xor_self : (a : ℕ) → bit_xor a a ≡ 0
bit_xor_self a = xor_self_fuel a a (le_refl a)

pub bit_xor_undo : (a b : ℕ) → bit_xor (bit_xor a b) b ≡ a
bit_xor_undo a b = rw (bit_xor_assoc a b b, bit_xor_self b) (bit_xor-zero a)

pub bit_xor_cancel_right : (a b c : ℕ) → bit_xor a c ≡ bit_xor b c → a ≡ b
bit_xor_cancel_right a b c h =
    cc (bit_xor_undo a c, bit_xor_undo b c, ap (λ (t : ℕ). bit_xor t c) h)

pub bit_xor_cancel_left : (a b c : ℕ) → bit_xor c a ≡ bit_xor c b → a ≡ b
bit_xor_cancel_left a b c h = bit_xor_cancel_right a b c (cc (bit_xor_comm c a, bit_xor_comm c b))

-- Within `k` bits the result keeps the width.
pub bit_xor-lt : (k a b : ℕ) → a < 2 ^ k → b < 2 ^ k → bit_xor a b < 2 ^ k
bit_xor-lt zero zero zero p q = omega arith
bit_xor-lt zero (suc a) b p q = absurd (omega arith)
bit_xor-lt zero zero (suc b) p q = absurd (omega arith)
bit_xor-lt (suc k) a b p q = omega (
  arith,
  pow-suc 2 k,
  bit_xor_step a b,
  bit_xor-lt k (a / 2) (b / 2) (omega (arith, pow-suc 2 k)) (omega (arith, pow-suc 2 k)),
)

-- A word whose top bit is clear, flipped by one whose top bit is set, has its top bit set.
pub le-bit_xor : (k a b : ℕ) → a < 2 ^ k → 2 ^ k ≤ b → b < 2 ^ suc k → 2 ^ k ≤ bit_xor a b
le-bit_xor zero zero zero p q r = absurd (omega arith)
le-bit_xor zero zero (suc zero) p q r = omega arith
le-bit_xor zero zero (suc (suc b)) p q r = absurd (omega arith)
le-bit_xor zero (suc a) b p q r = absurd (omega arith)
le-bit_xor (suc k) a b p q r = omega (
  arith,
  pow-suc 2 k,
  pow-suc 2 (suc k),
  bit_xor_step a b,
  le-bit_xor k (a / 2) (b / 2) (omega (arith, pow-suc 2 k)) (omega (arith, pow-suc 2 k))
      (omega (arith, pow-suc 2 k, pow-suc 2 (suc k))),
)

-- `(q << k) | r` is a sum when `r` fits `k` bits.
or_zero_fuel : (n a : ℕ) → a ≤ n → bit_or a 0 ≡ a
or_zero_fuel zero zero p = refl
or_zero_fuel zero (suc a) p = absurd (omega arith)
or_zero_fuel (suc n) a p = omega (arith, bit_or_step a 0, or_zero_fuel n (a / 2) (omega arith))

pub bit_or_fields : (k q r : ℕ) → r < 2 ^ k → bit_or (q * 2 ^ k) r ≡ q * 2 ^ k + r
bit_or_fields zero q zero h = ground (arith, or_zero_fuel q q (le_refl q))
bit_or_fields zero q (suc r) h = absurd (omega arith)
bit_or_fields (suc k) q r h =
    let e : q * 2 ^ suc k ≡ 2 * (q * 2 ^ k) = omega (arith, ap (λ (t : ℕ). q * t) (pow-suc 2 k)) in
    ground (arith, bit_or_step (q * 2 ^ suc k) r, e, bit_or_fields k q (r / 2) (half_lt k r h))
  where
    half_lt : (j s : ℕ) → s < 2 ^ suc j → s / 2 < 2 ^ j
    half_lt j s l = omega (arith, pow-suc 2 j)

or_comm_fuel : (n a b : ℕ) → a ≤ n → b ≤ n → bit_or a b ≡ bit_or b a
or_comm_fuel zero zero zero p q = refl
or_comm_fuel zero (suc a) b p q = absurd (omega arith)
or_comm_fuel zero zero (suc b) p q = absurd (omega arith)
or_comm_fuel (suc n) a b p q = omega (
  arith,
  bit_or_step a b,
  bit_or_step b a,
  or_comm_fuel n (a / 2) (b / 2) (omega arith) (omega arith),
)

pub bit_or_comm : (a b : ℕ) → bit_or a b ≡ bit_or b a
bit_or_comm a b = or_comm_fuel (a + b) a b (omega arith) (omega arith)

-- The same with the fields the other way round.
pub bit_or_fields_swap : (k q r : ℕ) → r < 2 ^ k → bit_or r (q * 2 ^ k) ≡ q * 2 ^ k + r
bit_or_fields_swap k q r h = bit_or_comm r (q * 2 ^ k) ∙ bit_or_fields k q r h

-- A mask of `k` low bits is the remainder by `2 ^ k`.
and_zero_fuel : (n a : ℕ) → a ≤ n → bit_and a 0 ≡ 0
and_zero_fuel zero zero p = refl
and_zero_fuel zero (suc a) p = absurd (omega arith)
and_zero_fuel (suc n) a p = omega (arith, bit_and_step a 0, and_zero_fuel n (a / 2) (omega arith))

pub bit_and-one : (a : ℕ) → bit_and a 1 ≡ a % 2
bit_and-one a = omega (arith, bit_and_step a 1, and_zero_fuel (a / 2) (a / 2) (le_refl _))

pub bit_and-seven : (a : ℕ) → bit_and a 7 ≡ a % 8
bit_and-seven a = omega (arith, bit_and_step a 7, bit_and_step (a / 2) 3, bit_and-one (a / 2 / 2))

pub bit_and-fifteen : (a : ℕ) → bit_and a 15 ≡ a % 16
bit_and-fifteen a = omega (arith, bit_and_step a 15, bit_and-seven (a / 2))

pub bit_and-mask7 : (a : ℕ) → bit_and a 127 ≡ a % 128
bit_and-mask7 a = omega (
  arith,
  bit_and_step a 127,
  bit_and_step (a / 2) 63,
  bit_and_step (a / 2 / 2) 31,
  bit_and-fifteen (a / 2 / 2 / 2),
)

-- A test of every number below a bound, by evaluation.
unfoldable pub holds_below : ℕ → (ℕ → Bool) → Bool
holds_below zero check = true
holds_below (suc bound) check = holds_below bound check && check bound

pub holds_below_lem :
    (bound : ℕ) (check : ℕ → Bool) (k : ℕ)
    → holds_below bound check ≡ true
    → k < bound
    → check k ≡ true
unfolding holds_below
holds_below_lem zero check k table below = absurd (omega arith)
holds_below_lem (suc bound) check k table below =
    ground (arith, holds_below_lem bound check k, table, below)
