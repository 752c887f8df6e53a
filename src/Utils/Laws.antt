-- ===== src/Utils/Laws.antt =====
-- Round trips of the little endian fields, and what a valid packet identifier is.
use ciexpert_usbdev.Base.{
  ℕ, ◌+◌, ◌*◌, ◌/◌, ◌%◌, ◌^◌, ◌<◌, ◌≡◌, refl, ◌∙◌, ap, bit_or, Bool, true, false, not, some, List,
  ◌++◌, arith, ◌==◌, ◌↔◌,
}
use ciexpert_usbdev.Base.Bits.{bit_or_fields_swap, holds_below, holds_below_lem}
use ciexpert_usbdev.Utils.{bad_pid, get_le16, get_le32, set_le16, set_le32}

le16_sum : (a b : ℕ) → a < 256 → bit_or a (b * 2 ^ 8) ≡ b * 256 + a
le16_sum a b h = bit_or_fields_swap 8 b a h

-- What `set_le16` stores `get_le16` reads back, whatever bytes follow.
pub get_le16-set_le16 :
    (n : ℕ) (rest : List ℕ) → n < 2 ^ 16 → get_le16 (set_le16 n ++ rest) ≡ some n
unfolding get_le16 set_le16
get_le16-set_le16 n rest h =
    ap some (le16_sum (n % 256) (n / 256 % 256) (omega arith) ∙ omega arith)

le32_sum :
    (a b c d : ℕ)
    → a < 256
    → b < 256
    → c < 256
    → bit_or (bit_or (bit_or a (b * 2 ^ 8)) (c * 2 ^ 16)) (d * 2 ^ 24)
      ≡ a + 256 * b + 65536 * c + 16777216 * d
le32_sum a b c d ha hb hc =
    rw
      (
        le16_sum a b ha,
        bit_or_fields_swap 16 c (b * 256 + a) (omega arith),
        bit_or_fields_swap 24 d (c * 65536 + (b * 256 + a)) (omega arith),
      )
      (omega arith)

-- What `set_le32` stores `get_le32` reads back, whatever bytes follow.
get_le32-set_le32 : (n : ℕ) (rest : List ℕ) → n < 2 ^ 32 → get_le32 (set_le32 n ++ rest) ≡ some n
unfolding get_le32 set_le32
get_le32-set_le32 n rest h = ap some (
    le32_sum (n % 256) (n / 256 % 256) (n / 65536 % 256) (n / 16777216 % 256) (omega arith)
      (omega arith) (omega arith)
    ∙ omega arith)

abbrev same : Bool → Bool → Bool
same true b = b
same false b = not b

same_lem : (a b : Bool) → same a b ≡ true → a ≡ b
same_lem true b h = ground arith
same_lem false b h = ground arith

pid_table : holds_below 256 (λ p. same (bad_pid p) (not (p / 16 + p % 16 == 15))) ≡ true
unfolding holds_below bad_pid
pid_table = refl

-- A byte passes the test exactly when its upper nibble is the complement of its lower one.
pub bad_pid_iff : (p : ℕ) → p < 256 → (bad_pid p ≡ false) ↔ (p / 16 + p % 16 ≡ 15)
bad_pid_iff p h = ground (
  arith,
  same_lem (bad_pid p) (not (p / 16 + p % 16 == 15))
      (holds_below_lem 256 (λ q. same (bad_pid q) (not (q / 16 + q % 16 == 15))) p pid_table h),
)
