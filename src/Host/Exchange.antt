-- ===== src/Host/Exchange.antt =====
-- usbdpi.c and usb_monitor.c: the monitor hears what the host sends.
use ciexpert_usbdev.Base.{
  ℕ, ◌+◌, ◌-◌, ◌/◌, ◌%◌, ◌≤◌, ◌≡◌, refl, ◌∙◌, sym, ap, Bool, true, false, not, Bool-cases,
  if◌then◌else◌, arith, inl, inr, List, [], ◌++◌, has, bit_and, bit_xor, bit_or, ◌<<<◌, u32, some,
}
use ciexpert_usbdev.Base.Bits.{bit_and_step, bit_and-one, bit_xor_step}
use ciexpert_usbdev.Host.{host_drives}
use ciexpert_usbdev.Usb.{
  DrvState, st_send, p2d_dn, p2d_dp, p2d_d, d2p_dp_en, d2p_dn_en, d2p_d_en, d2p_rx_enable,
}
use ciexpert_usbdev.Context.{Ctx}
use ciexpert_usbdev.Bus.{inv_driving}
use ciexpert_usbdev.Transmit.{transmit}
use ciexpert_usbdev.Transmit.Step.{Sends, done, step}
use ciexpert_usbdev.Monitor.{
  Monitor, m_host, Event, driven_lines, line_code, usb_monitor, follow_line, collect_bit,
  complete_byte,
}
use ciexpert_usbdev.Monitor.Collect.{level, moved, moved_low}
use ciexpert_usbdev.Monitor.Hear.{Events, events_of, Hears, over, hear}

-- The host drives one of D+ and D-, and not the other one.
abbrev pub IsLevel : ℕ → Type 0
IsLevel x = has x p2d_dn ≡ not (has x p2d_dp)

-- The code that the monitor reads then: it takes the levels from P2D_D if the receiver is enabled.
abbrev pub host_level : ℕ → ℕ → ℕ
host_level d2p x =
    let dp = if has d2p d2p_rx_enable then has x p2d_d else has x p2d_dp in
    line_code d2p dp (not dp)

xor_bit1 : (x : ℕ) → has (bit_xor x 14) 2 ≡ not (has x 2)
xor_bit1 x = ground (
  arith,
  bit_and_step x 2,
  bit_and-one (x / 2),
  bit_and_step (bit_xor x 14) 2,
  bit_and-one (bit_xor x 14 / 2),
  bit_xor_step x 14,
  bit_xor_step (x / 2) 7,
)

xor_bit2 : (x : ℕ) → has (bit_xor x 14) 4 ≡ not (has x 4)
xor_bit2 x =
    let y = bit_xor x 14 in
    let quarter : y / 2 / 2 ≡ bit_xor (x / 2 / 2) 3 =
      omega (arith, bit_xor_step x 14, bit_xor_step (x / 2) 7) in
    ground (
      arith,
      bit_and_step x 4,
      bit_and_step (x / 2) 2,
      bit_and-one (x / 2 / 2),
      bit_and_step y 4,
      bit_and_step (y / 2) 2,
      bit_and-one (y / 2 / 2),
      quarter,
      bit_xor_step (x / 2 / 2) 3,
    )

xor_bit3 : (x : ℕ) → has (bit_xor x 14) 8 ≡ not (has x 8)
xor_bit3 x =
    let y = bit_xor x 14 in
    let eighth : y / 2 / 2 / 2 ≡ bit_xor (x / 2 / 2 / 2) 1 =
      omega (arith, bit_xor_step x 14, bit_xor_step (x / 2) 7, bit_xor_step (x / 2 / 2) 3) in
    ground (
      arith,
      bit_and_step x 8,
      bit_and_step (x / 2) 4,
      bit_and_step (x / 2 / 2) 2,
      bit_and-one (x / 2 / 2 / 2),
      bit_and_step y 8,
      bit_and_step (y / 2) 4,
      bit_and_step (y / 2 / 2) 2,
      bit_and-one (y / 2 / 2 / 2),
      eighth,
      bit_xor_step (x / 2 / 2 / 2) 1,
    )

inverted-IsLevel : (x : ℕ) → IsLevel x → IsLevel (bit_xor x 14)
inverted-IsLevel x h = xor_bit1 x ∙ ap not h ∙ ap not (sym (xor_bit2 x))

-- J and K are the codes 2 and 1, and swap when the lines are inverted.
level_codes :
    (d2p : ℕ) (dp : Bool)
    → (line_code d2p (not dp) (not (not dp)) ≡ 3 - line_code d2p dp (not dp))
      × (1 ≤ line_code d2p dp (not dp))
      × (line_code d2p dp (not dp) ≤ 2)
unfolding line_code
level_codes d2p dp = ground arith

-- The level of D+ that the monitor reads.
abbrev dp_seen : ℕ → ℕ → Bool
dp_seen d2p x = if has d2p d2p_rx_enable then has x p2d_d else has x p2d_dp

dp_inverted : (d2p x : ℕ) → dp_seen d2p (bit_xor x 14) ≡ not (dp_seen d2p x)
dp_inverted d2p x = elim (Bool-cases (has d2p d2p_rx_enable)) [
  | inl e ↦ rw e (xor_bit3 x)
  | inr e ↦ rw e (xor_bit2 x)
]

-- Whatever the monitor does with a code, the line and the driver stay.
follow_line_keeps :
    (m : Monitor) (tick lastpid : ℕ)
    → ((follow_line m tick lastpid).0.line ≡ m.line)
      × ((follow_line m tick lastpid).0.driver ≡ m.driver)
unfolding follow_line collect_bit complete_byte
follow_line_keeps m tick lastpid = ground arith

-- The device drives none of its lines.
pub record IsSilent (d2p : ℕ) : Type 0 where
  pub dp_off : has d2p d2p_dp_en ≡ false
  pub dn_off : has d2p d2p_dn_en ≡ false
  pub d_off : has d2p d2p_d_en ≡ false

one_driven : (x : ℕ) → IsLevel x → has x (bit_or p2d_dp p2d_dn) ≡ true
one_driven x h =
    let both : bit_and x 6 ≡ bit_and x 2 + bit_and x 4 = omega (
      arith,
      bit_and_step x 6,
      bit_and_step (x / 2) 3,
      bit_and-one (x / 2 / 2),
      bit_and_step x 2,
      bit_and-one (x / 2),
      bit_and_step x 4,
      bit_and_step (x / 2) 2,
    ) in
    elim (Bool-cases (has x p2d_dp)) [
      | inl e ↦ ground (arith, both)
      | inr e ↦ let other : has x 2 ≡ true = h ∙ ap not e in ground (arith, both)
    ]

host_lines :
    (d2p x : ℕ)
    → IsSilent d2p
    → IsLevel x
    → driven_lines true x d2p ≡ some (m_host, dp_seen d2p x, not (dp_seen d2p x))
unfolding driven_lines
host_lines d2p x silent h = elim (Bool-cases (has d2p d2p_rx_enable)) [
  | inl e ↦ rw (silent.dp_off, silent.dn_off, silent.d_off, e, one_driven x h) refl
  | inr e ↦ rw (silent.dp_off, silent.dn_off, silent.d_off, e, h) refl
]

-- A call of the monitor while the host drives a level.
monitor_hears :
    (m : Monitor) (d2p x tick lastpid : ℕ)
    → IsSilent d2p
    → IsLevel x
    → usb_monitor m tick true x d2p lastpid
      ≡ follow_line
          (record m { driver = m_host; line = u32 (bit_or (m.line <<< 2) (host_level d2p x)) })
          tick
          lastpid
unfolding usb_monitor
monitor_hears m d2p x tick lastpid silent h = rw (usb_monitor, host_lines d2p x silent h) refl

-- Bit intervals in which the host transmits and the monitor then looks at what it drives, as
-- `usbdpi_host_to_device` does it in one call and in the next. The events are the monitor's. The time
-- `tick`, which only dates the start of a packet, and the device's signals are the same in all of them.
pub data Exchange (d2p tick : ℕ) : Ctx → Monitor → ℕ → Events → Ctx → Monitor → ℕ → Type 0 where
  ended : {c : Ctx} {m : Monitor} {lastpid : ℕ} → Exchange d2p tick c m lastpid [] c m lastpid
  interval :
      {c c' d : Ctx} {m m' n : Monitor} {lastpid lastpid' p : ℕ} {e : Event} {es : Events}
      → transmit c d2p ≡ some c'
      → usb_monitor m tick (host_drives c'.state) c'.driving d2p lastpid ≡ (m', e, lastpid')
      → Exchange d2p tick c' m' lastpid' es d n p
      → Exchange d2p tick c m lastpid (events_of e ++ es) d n p

-- The monitor has looked at the level that the host drives.
pub record Follows (d2p : ℕ) (c : Ctx) (m : Monitor) : Type 0 where
  pub level_at : IsLevel c.driving
  pub line_at : m.line % 4 ≡ host_level d2p c.driving
  pub driver_at : m_host ≡ m.driver

-- One interval: the line takes the next level.
next_level :
    (c c' : Ctx) (m : Monitor) (b : Bool) (d2p : ℕ)
    → Follows d2p c m
    → c'.driving ≡ (if b then c.driving else inv_driving c d2p)
    → IsLevel c'.driving × (host_level d2p c'.driving ≡ level (m.line % 4) b)
unfolding inv_driving
next_level c c' m true d2p f e = (rw e f.level_at, rw e (sym f.line_at))
next_level c c' m false d2p f e = (
  rw e (inverted-IsLevel c.driving f.level_at),
  rw (e, f.line_at, dp_inverted d2p c.driving) (level_codes d2p (dp_seen d2p c.driving)).0,
)

Follows-next :
    {d2p : ℕ} {c c' : Ctx} (m : Monitor) {m' : Monitor} (b : Bool) (tick lastpid : ℕ) {e : Event}
    {q : ℕ}
    → Follows d2p c m
    → host_level d2p c'.driving ≡ level (m.line % 4) b
    → IsLevel c'.driving
    → follow_line (moved m b) tick lastpid ≡ (m', e, q)
    → Follows d2p c' m'
Follows-next {d2p} {c} {c'} m {m'} b tick lastpid f code next runs =
    let (line, driver) = follow_line_keeps (moved m b) tick lastpid in
    let (_, low, high) = level_codes d2p (dp_seen d2p c.driving) in
    record {
      level_at = next;
      line_at =
          ap (λ (r : Monitor × Event × ℕ). r.0.line % 4) (sym runs)
          ∙ ap (λ (x : ℕ). x % 4) line
          ∙ moved_low m b (rw f.line_at low) (rw f.line_at high)
          ∙ sym code;
      driver_at = f.driver_at ∙ sym driver ∙ ap (λ (r : Monitor × Event × ℕ). r.0.driver) runs;
    }

-- What is sent is heard.
pub exchanged :
    {d2p tick : ℕ} {c d : Ctx} {m n : Monitor} {lastpid p : ℕ} {bits : List Bool} {es : Events}
    → IsSilent d2p
    → Sends d2p c bits d
    → Hears tick m lastpid bits es n p
    → Follows d2p c m
    → c.state ≡ st_send
    → Exchange d2p tick c m lastpid es d n p × Follows d2p d n
exchanged silent done over f s = (ended, f)
exchanged {d2p} {tick} {c} {d} {m} {n} {lastpid} {p} silent
      (step {c' = c'} b runs drives state sent)
      (hear {m' = m'} {lastpid' = q} {e = e} follows heard) f s =
    let (level_next, code) = next_level c c' m b d2p f drives in
    let next : record m {
      driver = m_host;
      line = u32 (bit_or (m.line <<< 2) (host_level d2p c'.driving));
    }
        ≡ moved m b =
      rw (code, f.driver_at) refl in
    let s' : c'.state ≡ st_send = state ∙ s in
    let call : usb_monitor m tick (host_drives c'.state) c'.driving d2p lastpid ≡ (m', e, q) =
      ap (λ (x : DrvState). usb_monitor m tick (host_drives x) c'.driving d2p lastpid) s'
      ∙ monitor_hears m d2p c'.driving tick lastpid silent level_next
      ∙ ap (λ (x : Monitor). follow_line x tick lastpid) next
      ∙ follows in
    let f' = Follows-next m b tick lastpid f code level_next follows in
    let (more, last) = exchanged silent sent heard f' s' in (interval runs call more, last)
