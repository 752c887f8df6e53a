-- ===== src/Monitor/Report.antt =====
-- usb_monitor.c, `pid_2data`: the report on a packet of an identifier and two bytes.
use Prim.Native.String.{String}
use ciexpert_usbdev.Base.{
  ℕ, bit_and, bit_or, bit_xor, Bool, not, ◌||◌, ◌==◌, if◌then◌else◌, ◌<<<◌, ◌>>>◌,
}
use ciexpert_usbdev.Usb.{pid_sof, pid_setup, pid_out, pid_in, pid_data0, pid_data1}
use ciexpert_usbdev.Utils.{decode_pid}
use ciexpert_usbdev.Crc.{crc5}

-- What the text says: the numbers that are printed, and whether the checksum is called OK.
pub data Report : Type 0 where
  sof : (frame crc : ℕ) → (crc_ok : Bool) → Report
  token : (name : String) → (device endpoint crc : ℕ) → (crc_ok : Bool) → Report
  short_data : (name : String) → (d0 d1 : ℕ) → (crc16_bad : Bool) → Report
  other : (name : String) → (d0 d1 : ℕ) → (crc_ok : Bool) → Report
  bad : (name : String) → (d0 d1 : ℕ) → (crc_ok : Bool) → Report

unfoldable pub pid_2data : ℕ → ℕ → ℕ → Report
pid_2data pid d0 d1 =
    let frame = bit_or (bit_and d1 7 <<< 8) d0 in
    let ok = crc5 frame 11 == d1 >>> 3 in
    if pid == pid_sof
    then sof frame (d1 >>> 3) ok
    else if pid == pid_setup || pid == pid_out || pid == pid_in
    then token (decode_pid pid) (bit_and d0 0x7f) (bit_or (bit_and d1 7 <<< 1) (d0 >>> 7))
        (d1 >>> 3) ok
    else if pid == pid_data0 || pid == pid_data1
    then short_data (decode_pid pid) d0 d1 (not (bit_or d0 d1 == 0))
    else if bit_xor (pid >>> 4) 0xf == bit_and pid 0xf
    then other (decode_pid pid) d0 d1 ok
    else bad (decode_pid pid) d0 d1 ok
