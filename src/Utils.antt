-- ===== src/Utils.antt =====
-- usb_utils.c and usb_utils.h: the names of packet identifiers, and little endian fields.
-- A pointer into a byte stream is the list of the bytes from there on.
pub mod Laws
use Prim.Native.String.{String}
use ciexpert_usbdev.Base.{
  ℕ, zero, suc, ◌+◌, ◌*◌, ◌/◌, ◌%◌, ◌^◌, bit_and, bit_or, bit_xor, Bool, true, false, not, Option,
  none, some, List, [], ◌∷◌, ◌==◌, if◌then◌else◌, get_or, u8, ◌<<<◌, ◌>>>◌,
}

abbrev pub pid_names : List String
pid_names =
    "Rsvd" ∷ "OUT" ∷ "ACK" ∷ "DATA0" ∷ "PING" ∷ "SOF" ∷ "NYET" ∷ "DATA2" ∷ "SPLIT" ∷ "IN" ∷ "NAK"
    ∷ "DATA1" ∷ "PRE/ERR" ∷ "SETUP" ∷ "STALL" ∷ "MDATA" ∷ []

-- The test that `decode_pid` and `usb_monitor` write out: the nibbles are not complementary.
unfoldable pub bad_pid : ℕ → Bool
bad_pid pid = not (bit_xor (bit_xor pid 0xf0 >>> 4) (bit_and pid 0xf) == 0)

unfoldable pub decode_pid : ℕ → String
unfolding bad_pid
decode_pid pid = if bad_pid pid then "???" else get_or pid_names (bit_and pid 0xf) "???"

-- Reads past the end are faults.
unfoldable pub get_le16 : List ℕ → Option ℕ
get_le16 (a ∷ b ∷ _) = some (bit_or a (b <<< 8))
get_le16 (a ∷ []) = none
get_le16 [] = none

unfoldable pub get_le32 : List ℕ → Option ℕ
get_le32 (a ∷ b ∷ c ∷ d ∷ _) = some (bit_or (bit_or (bit_or a (b <<< 8)) (c <<< 16)) (d <<< 24))
get_le32 _ = none

-- The bytes that are stored.
unfoldable pub set_le16 : ℕ → List ℕ
set_le16 n = u8 n ∷ u8 (n >>> 8) ∷ []

unfoldable pub set_le32 : ℕ → List ℕ
set_le32 n = u8 n ∷ u8 (n >>> 8) ∷ u8 (n >>> 16) ∷ u8 (n >>> 24) ∷ []
