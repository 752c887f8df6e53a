-- ===== src/Crc/Order.antt =====
-- The two bit orders of CRC5 in usb_crc.c agree: each is the other on reversed bits.
use ciexpert_usbdev.Base.{
  ℕ, zero, suc, ◌+◌, ◌*◌, ◌/◌, ◌%◌, ◌^◌, ◌<◌, ◌≡◌, refl, arith, Bool, true, false, Option, none,
  some, ◌==◌,
}
use ciexpert_usbdev.Base.Bits.{holds_below, holds_below_lem}
use ciexpert_usbdev.Crc.{crc5, crc5_msb_first}

-- The `n` low bits of `x` in reverse.
unfoldable pub reverse_bits : ℕ → ℕ → ℕ
reverse_bits zero x = 0
reverse_bits (suc n) x = x % 2 * 2 ^ n + reverse_bits n (x / 2)

abbrev is_some_of : Option ℕ → ℕ → Bool
is_some_of none n = false
is_some_of (some m) n = m == n

is_some_of_lem : (o : Option ℕ) (n : ℕ) → is_some_of o n ≡ true → o ≡ some n
is_some_of_lem none n h = cc
is_some_of_lem (some m) n h = ground arith

order_table :
    holds_below 2048
      (λ x. is_some_of (crc5_msb_first (reverse_bits 11 x) 11) (reverse_bits 5 (crc5 x 11)))
    ≡ true
unfolding holds_below crc5 crc5_msb_first reverse_bits
order_table = refl

-- For every 11-bit token field the most significant bit first routine, given the bits in reverse,
-- returns the checksum of the other routine in reverse.
pub crc5_msb_first-crc5 :
    (x : ℕ) → x < 2048 → crc5_msb_first (reverse_bits 11 x) 11 ≡ some (reverse_bits 5 (crc5 x 11))
crc5_msb_first-crc5 x h =
    is_some_of_lem (crc5_msb_first (reverse_bits 11 x) 11) (reverse_bits 5 (crc5 x 11)) (
      holds_below_lem 2048
        (λ x. is_some_of (crc5_msb_first (reverse_bits 11 x) 11) (reverse_bits 5 (crc5 x 11))) x
        order_table h)
