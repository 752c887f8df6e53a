-- ===== src/Crc/Loop.antt =====
-- The shift-register loop of usb_crc.c: its width, its independence of the part of the input that
-- is shifted out, and that it forgets nothing.
use native.Mathlib.Nat.{pow-suc}
use ciexpert_usbdev.Base.{
  ℕ, zero, suc, ◌+◌, ◌*◌, ◌/◌, ◌%◌, ◌^◌, ◌≤◌, ◌<◌, ◌≡◌, ap, ◌∙◌, bit_xor, arith, has, ◌==◌, ◌⊎◌,
}
use ciexpert_usbdev.Base.Bits.{
  bit_and-one, bit_xor_step, bit_xor_comm, bit_xor_assoc, bit_xor-zero, bit_xor_cancel_right,
  bit_xor-lt, le-bit_xor,
}
use ciexpert_usbdev.Crc.{crc_bit, crc_loop}

-- The decision of a round: the sum of the two low bits.
pub has_low : (x y : ℕ) → has (bit_xor x y) 1 ≡ ((x + y) % 2 == 1)
has_low x y = ground (arith, bit_and-one (bit_xor x y), bit_xor_step x y)

pub crc_bit_cases :
    (poly crc udata : ℕ)
    → (((udata + crc) % 2 ≡ 1) × (crc_bit poly crc udata ≡ bit_xor (crc / 2) poly))
      ⊎ (((udata + crc) % 2 ≡ 0) × (crc_bit poly crc udata ≡ crc / 2))
unfolding crc_bit
crc_bit_cases poly crc udata = ground (arith, has_low udata crc)

-- A polynomial of `suc k` bits keeps the register in `suc k` bits.
module _ (k poly : ℕ) (low : 2 ^ k ≤ poly) (high : poly < 2 ^ suc k) where
  pub crc_bit-lt : (crc udata : ℕ) → crc < 2 ^ suc k → crc_bit poly crc udata < 2 ^ suc k
  crc_bit-lt crc udata h =
      ground
        (arith, crc_bit_cases poly crc udata, bit_xor-lt (suc k) (crc / 2) poly (omega arith) high)

  pub crc_loop-lt :
      (bits crc udata : ℕ) → crc < 2 ^ suc k → crc_loop poly bits crc udata < 2 ^ suc k
  unfolding crc_loop
  crc_loop-lt zero crc udata h = h
  crc_loop-lt (suc bits) crc udata h =
      crc_loop-lt bits (crc_bit poly crc udata) (udata / 2) (crc_bit-lt crc udata h)

  -- The top bit of the new register tells the decision, so a round can be undone.
  crc_bit_injective :
      (c d udata : ℕ)
      → c < 2 ^ suc k
      → d < 2 ^ suc k
      → crc_bit poly c udata ≡ crc_bit poly d udata
      → c ≡ d
  crc_bit_injective c d udata p q e = ground (
    arith,
    pow-suc 2 k,
    crc_bit_cases poly c udata,
    crc_bit_cases poly d udata,
    le-bit_xor k (c / 2) poly (omega (arith, pow-suc 2 k)) low high,
    le-bit_xor k (d / 2) poly (omega (arith, pow-suc 2 k)) low high,
    bit_xor_cancel_right (c / 2) (d / 2) poly,
  )

  pub crc_loop_injective :
      (bits c d udata : ℕ)
      → c < 2 ^ suc k
      → d < 2 ^ suc k
      → crc_loop poly bits c udata ≡ crc_loop poly bits d udata
      → c ≡ d
  unfolding crc_loop
  crc_loop_injective zero c d udata p q e = e
  crc_loop_injective (suc bits) c d udata p q e = crc_bit_injective c d udata p q (
      crc_loop_injective bits (crc_bit poly c udata) (crc_bit poly d udata) (udata / 2)
        (crc_bit-lt c udata p) (crc_bit-lt d udata q) e)

-- A round sees the input only through its low bit.
crc_bit_parity : (poly crc u v : ℕ) → u % 2 ≡ v % 2 → crc_bit poly crc u ≡ crc_bit poly crc v
crc_bit_parity poly crc u v e = ground (arith, crc_bit_cases poly crc u, crc_bit_cases poly crc v)

-- A run over two fields is the run over the low one, then over the high one.
pub crc_loop_split :
    (k j poly crc lo t : ℕ)
    → lo < 2 ^ k
    → crc_loop poly (k + j) crc (lo + 2 ^ k * t) ≡ crc_loop poly j (crc_loop poly k crc lo) t
unfolding crc_loop
crc_loop_split zero j poly crc lo t h =
    let e : lo + 2 ^ 0 * t ≡ t = omega arith in let n : 0 + j ≡ j = omega arith in rw (e, n)
crc_loop_split (suc k) j poly crc lo t h =
    let p : 2 ^ suc k * t ≡ 2 * (2 ^ k * t) = omega (arith, ap (λ (a : ℕ). a * t) (pow-suc 2 k)) in
    let n : suc k + j ≡ suc (k + j) = omega arith in
    let half : (lo + 2 ^ suc k * t) / 2 ≡ lo / 2 + 2 ^ k * t = omega arith in
    let same : crc_bit poly crc (lo + 2 ^ suc k * t) ≡ crc_bit poly crc lo =
      crc_bit_parity poly crc (lo + 2 ^ suc k * t) lo (omega arith) in
    rw (n, crc_loop, half, same)
      (crc_loop_split k j poly (crc_bit poly crc lo) (lo / 2) t (omega (arith, pow-suc 2 k)))

crc_bit_absorb :
    (poly crc u : ℕ) → bit_xor (crc_bit poly crc u) (u / 2) ≡ crc_bit poly (bit_xor crc u) 0
crc_bit_absorb poly crc u =
    let half : bit_xor crc u / 2 ≡ bit_xor (crc / 2) (u / 2) = omega (arith, bit_xor_step crc u) in
    let swap : bit_xor (bit_xor (crc / 2) poly) (u / 2) ≡ bit_xor (bit_xor (crc / 2) (u / 2)) poly =
      cc (
        bit_xor_assoc (crc / 2) poly (u / 2),
        bit_xor_assoc (crc / 2) (u / 2) poly,
        bit_xor_comm poly (u / 2),
      ) in
    ground (
      arith,
      bit_xor_step crc u,
      crc_bit_cases poly crc u,
      crc_bit_cases poly (bit_xor crc u) 0,
      half,
      swap,
    )

-- An input that is wholly shifted out might as well have been added to the register at once.
pub crc_loop_absorb :
    (bits poly crc u : ℕ)
    → u < 2 ^ bits
    → crc_loop poly bits crc u ≡ crc_loop poly bits (bit_xor crc u) 0
unfolding crc_loop
crc_loop_absorb zero poly crc zero h = rw (bit_xor-zero crc)
crc_loop_absorb zero poly crc (suc u) h = absurd (omega arith)
crc_loop_absorb (suc bits) poly crc u h =
    crc_loop_absorb bits poly (crc_bit poly crc u) (u / 2) (omega (arith, pow-suc 2 bits))
    ∙ ap (λ (c : ℕ). crc_loop poly bits c 0) (crc_bit_absorb poly crc u)
