-- ===== src/Control/Read/Config.antt =====
-- usbdpi.c, `getTestConfig`: the test descriptor that the device's software sends.
use ciexpert_usbdev.Base.{ℕ, ◌^◌, ◌<◌, ◌≡◌, refl, some, List, [], ◌∷◌, arith, u8, ◌>>>◌}
use ciexpert_usbdev.Utils.{get_le16, set_le16}
use ciexpert_usbdev.Utils.Laws.{get_le16-set_le16}
use ciexpert_usbdev.Control.Read.{parse_test_config}

-- The descriptor of a test with its four arguments.
abbrev pub test_descriptor : ℕ → ℕ → ℕ → ℕ → ℕ → List ℕ
test_descriptor number a b c d =
    0x7e
    ∷ 0x57
    ∷ 0xc0
    ∷ 0xf1
    ∷ 0x10
    ∷ 0
    ∷ u8 number
    ∷ u8 (number >>> 8)
    ∷ a
    ∷ b
    ∷ c
    ∷ d
    ∷ 0x1f
    ∷ 0x0c
    ∷ 0x75
    ∷ 0xe7
    ∷ []

-- Every test number of 16 bits and all arguments are read back from their descriptor.
pub parse_test_config-test_descriptor :
    (number a b c d : ℕ)
    → number < 2 ^ 16
    → parse_test_config (test_descriptor number a b c d) ≡ some (number, a ∷ b ∷ c ∷ d ∷ [])
unfolding parse_test_config set_le16
parse_test_config-test_descriptor number a b c d h =
    let len : get_le16 (0x10 ∷ 0 ∷ []) ≡ some 0x10 = get_le16-set_le16 0x10 [] (omega arith) in
    let num : get_le16 (u8 number ∷ u8 (number >>> 8) ∷ []) ≡ some number =
      get_le16-set_le16 number [] h in
    rw (len, num) refl
