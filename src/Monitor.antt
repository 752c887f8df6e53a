-- ===== src/Monitor.antt =====
-- usb_monitor.c: the monitor of the bus, one call a bit interval. It recovers the levels of D+ and
-- D-, looks for the start and the end of a packet, drops stuffed bits and collects bytes. What it
-- writes to its log file is left out, except for the text of `pid_2data`.
pub mod Report
pub mod Lines
pub mod Collect
pub mod Hear
pub mod Byte
pub mod Packet
use ciexpert_usbdev.Base.{
  ℕ, zero, suc, ◌+◌, ◌-◌, ◌*◌, ◌/◌, ◌%◌, ◌^◌, bit_and, bit_or, Bool, true, false, not, ◌&&◌, ◌||◌,
  Option, none, some, List, [], ◌∷◌, if◌then◌else◌, ◌==◌, ltb, leb, set, has, get_or, u8, u32,
  ◌<<<◌, ◌>>>◌, replicate, assert, ◌>>◌,
}
use ciexpert_usbdev.Usb.{
  d2p_dp, d2p_dp_en, d2p_dn, d2p_dn_en, d2p_d, d2p_d_en, d2p_se0, d2p_tx_use_d_se0, d2p_dnpu,
  d2p_pu, d2p_rx_enable, p2d_dn, p2d_dp, p2d_d, UsbmonDataType, sync, eop, pid, byte,
}
use ciexpert_usbdev.Utils.{bad_pid}

-- usb_monitor_state_t and usbmon_driver_t
pub data MonState : Type 0 where
  ms_idle ms_get_pid ms_get_bytes : MonState

pub data Driver : Type 0 where
  m_none m_host m_device : Driver

-- struct usb_monitor_ctx, without the log file and the registered callback.
pub record Monitor : Type 0 where
  pub state : MonState
  pub driver : Driver
  pub pu : ℕ
  pub line : ℕ
  pub rawbits : ℕ
  pub bits : ℕ
  pub needbits : ℕ
  pub sop_at : ℕ
  pub lastpid : ℕ
  pub byte : ℕ
  pub bytes : List ℕ

abbrev pub mon_bytes_size : ℕ
mon_bytes_size = 1024

-- The monitor once its memory is cleared and its fields are set.
unfoldable pub new_monitor : Monitor
new_monitor = record {
  state = ms_idle;
  driver = m_none;
  pu = 0;
  line = 0;
  rawbits = 0;
  bits = 0;
  needbits = 0;
  sop_at = 0;
  lastpid = 0;
  byte = 0;
  bytes = replicate (mon_bytes_size + 2) 0;
}

-- Whether `calloc` gives memory and `fopen` opens the log file. Without a log file the result is
-- NULL.
unfoldable pub usb_monitor_init : Bool → Bool → Option (Option Monitor)
usb_monitor_init allocated opened = do
  assert allocated
  some (if opened then some new_monitor else none)

-- Who drives the bus, and the levels of D+ and D- before a swap is undone.
unfoldable pub driven_lines : Bool → ℕ → ℕ → Option (Driver × Bool × Bool)
driven_lines hdrive p2d d2p =
    if has d2p d2p_dp_en || has d2p d2p_dn_en || has d2p d2p_d_en
    then (if has d2p d2p_tx_use_d_se0
        then (if has d2p d2p_se0 || not (has d2p d2p_d_en)
            then some (m_device, false, false)
            else some (m_device, has d2p d2p_d, not (has d2p d2p_d)))
        else some
            (m_device, has d2p d2p_dp_en && has d2p d2p_dp, has d2p d2p_dn_en && has d2p d2p_dn))
    else if hdrive
    then (if has d2p d2p_rx_enable
        then (if has p2d (bit_or p2d_dp p2d_dn)
            then some (m_host, has p2d p2d_d, not (has p2d p2d_d))
            else some (m_host, false, false))
        else some (m_host, has p2d p2d_dp, has p2d p2d_dn))
    else none

-- `dp << 1 | dn`, with the pins swapped back.
unfoldable pub line_code : ℕ → Bool → Bool → ℕ
line_code d2p dp dn =
    let a = if dp then 1 else 0 in
    let b = if dn then 1 else 0 in
    if has d2p d2p_dnpu then bit_or (b <<< 1) a else bit_or (a <<< 1) b

abbrev pub Event : Type 0
Event = Option (UsbmonDataType × ℕ)

-- A complete byte. The third component is the caller's `lastpid`.
unfoldable pub complete_byte : Monitor → ℕ → Monitor × Event × ℕ
complete_byte mon lastpid = elim mon.state [
  | ms_idle ↦ (mon, none, lastpid)
  | ms_get_pid ↦
      let d = u8 mon.bits in
      let m = record mon { state = ms_get_bytes; needbits = 8; byte = 0 } in
      if bad_pid d
      then (m, some (pid, d), lastpid)
      else (record m { lastpid = d }, some (pid, d), d)
  | ms_get_bytes ↦
      let d = u8 mon.bits in
      (
        record mon {
          bytes = set mon.bytes mon.byte d;
          needbits = 8;
          byte = if ltb mon.byte mon_bytes_size then u8 (mon.byte + 1) else mon.byte;
        },
        some (byte, d),
        lastpid,
      )
]

-- A bit: dropped if it is a stuffed one, else collected.
unfoldable pub collect_bit : Monitor → ℕ → Monitor × Event × ℕ
unfolding complete_byte
collect_bit mon lastpid =
    let newbit = if bit_and mon.line 0xc >>> 2 == bit_and mon.line 0x3 then 1 else 0 in
    let raw = u32 (bit_or (mon.rawbits <<< 1) newbit) in
    let m = record mon { rawbits = raw } in
    if bit_and raw 0x7e == 0x7e
    then (m, none, lastpid)
    else let need = u32 (mon.needbits + 0xffffffff) in
      let n = record m { bits = bit_or (mon.bits >>> 1) (newbit <<< 7); needbits = need } in
      if need == 0 then complete_byte n lastpid else (n, none, lastpid)

-- The lines have been collected: the start of a packet, its end, or a bit.
unfoldable pub follow_line : Monitor → ℕ → ℕ → Monitor × Event × ℕ
unfolding collect_bit
follow_line mon tick_bits lastpid = elim mon.state [
  | ms_idle ↦
      if bit_and mon.line 0xfff == 0x665
      then (
        record mon { sop_at = tick_bits; state = ms_get_pid; needbits = 8 },
        some (sync, 0),
        lastpid,
      )
      else (mon, none, lastpid)
  | _ ↦
      if bit_and mon.line 0x3f == 0x02
      then (record mon { state = ms_idle }, some (eop, 0), lastpid)
      else collect_bit mon lastpid
]

unfoldable pub usb_monitor : Monitor → ℕ → Bool → ℕ → ℕ → ℕ → Monitor × Event × ℕ
unfolding driven_lines line_code follow_line
usb_monitor mon tick_bits hdrive p2d d2p lastpid = elim (driven_lines hdrive p2d d2p) [
  | none ↦ (record mon { driver = m_none; pu = bit_and d2p d2p_pu; line = 0 }, none, lastpid)
  | some (who, dp, dn) ↦
      follow_line
        (record mon { driver = who; line = u32 (bit_or (mon.line <<< 2) (line_code d2p dp dn)) })
        tick_bits lastpid
]

-- The values of the enumeration.
abbrev pub mon_code : MonState → ℕ
mon_code ms_idle = 0
mon_code ms_get_pid = 1
mon_code ms_get_bytes = 2

unfoldable pub usb_monitor_diags : Monitor → ℕ
usb_monitor_diags mon =
    let diags =
      if ltb 0 mon.byte && leb mon.byte mon_bytes_size
      then bit_or mon.lastpid (get_or mon.bytes (mon.byte - 1) 0 <<< 8)
      else mon.lastpid in
    u32 (bit_or (bit_or diags (mon.needbits <<< 16)) (mon_code mon.state <<< 20))
