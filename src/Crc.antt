-- ===== src/Crc.antt =====
-- usb_crc.c: the CRC5 of token packets, in both bit orders, and the CRC16 of data fields.
pub mod Loop
pub mod Detect
pub mod Order
use ciexpert_usbdev.Base.{
  ℕ, zero, suc, ◌+◌, ◌-◌, ◌*◌, ◌/◌, ◌%◌, ◌^◌, bit_and, bit_xor, Option, none, some, List, [], ◌∷◌,
  Bool, ◌||◌, ltb, if◌then◌else◌, has, u32, ◌<<<◌, ◌>>>◌,
}

-- The loop that `CRC5` and `CRC16` write out: `while (bits--)`, least significant bit first.
-- The register and the input shift right; the polynomial is applied when their low bits differ.
unfoldable pub crc_bit : ℕ → ℕ → ℕ → ℕ
crc_bit poly crc udata =
    if has (bit_xor udata crc) 0x01 then bit_xor (crc >>> 1) poly else crc >>> 1

unfoldable pub crc_loop : ℕ → ℕ → ℕ → ℕ → ℕ
unfolding crc_bit
crc_loop poly zero crc udata = crc
crc_loop poly (suc bits) crc udata = crc_loop poly bits (crc_bit poly crc udata) (udata >>> 1)

-- The bit count is a C `int`: a count below 1 comes as 0.
unfoldable pub crc5 : ℕ → ℕ → ℕ
unfolding crc_loop
crc5 dw_input bitcnt =
    if ltb bitcnt 1 || ltb 32 bitcnt
    then 0xffffffff
    else bit_xor (crc_loop 0x14 bitcnt 0x1f dw_input) 0x1f

-- One round of the most significant bit first, in a 32-bit register.
unfoldable pub crc5_msb_loop : ℕ → ℕ → ℕ → ℕ
crc5_msb_loop zero crc udata = crc
crc5_msb_loop (suc bits) crc udata =
    crc5_msb_loop bits
      (if has (bit_xor udata crc) 0x80000000
        then bit_xor (u32 (crc <<< 1)) 0x28000000
        else u32 (crc <<< 1))
      (u32 (udata <<< 1))

-- `none` is the shift of the input by 32 or more places, which stands above the check of the count.
unfoldable pub crc5_msb_first : ℕ → ℕ → Option ℕ
unfolding crc5_msb_loop
crc5_msb_first dw_input bitcnt =
    if ltb bitcnt 1 || ltb 32 bitcnt
    then none
    else some
        (bit_xor (crc5_msb_loop bitcnt 0xf8000000 (u32 (dw_input <<< (32 - bitcnt))) >>> 27) 0x1f)

unfoldable pub crc16_bytes : ℕ → List ℕ → ℕ
unfolding crc_loop
crc16_bytes crc [] = crc
crc16_bytes crc (d ∷ ds) = crc16_bytes (crc_loop 0xA001 8 crc d) ds

-- The bytes are those of `data`, `bytes` many: a count of 0 or less is the empty list.
unfoldable pub crc16 : List ℕ → ℕ
unfolding crc16_bytes
crc16 ds = bit_xor (crc16_bytes 0xffff ds) 0xffff
