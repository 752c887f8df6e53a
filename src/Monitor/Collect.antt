-- ===== src/Monitor/Collect.antt =====
-- usb_monitor.c: what `follow_line` does with one bit inside of a packet.
use ciexpert_usbdev.Base.{
  ℕ, ◌+◌, ◌-◌, ◌*◌, ◌/◌, ◌%◌, ◌^◌, ◌≤◌, ◌<◌, ◌≡◌, refl, ◌∙◌, ap, bit_and, bit_or, Bool, true, false,
  none, if◌then◌else◌, ◌==◌, u32, arith, ◌<<<◌, ◌>>>◌, ◌⊎◌, inl, inr,
}
use ciexpert_usbdev.Base.Bits.{bit_and_step, bit_or_fields, bit_or_fields_swap, bit_and-one}
use ciexpert_usbdev.Transmit.Stuff.{next_run}
use ciexpert_usbdev.Transmit.Step.{Ones, bit_and-mask6, six-Ones, Ones-zero, Ones-next}
use ciexpert_usbdev.Monitor.{
  Monitor, ms_get_pid, ms_get_bytes, Event, complete_byte, collect_bit, follow_line,
}

-- The next code of the line: the same one for a one, the other one of J and K for a zero.
abbrev pub level : ℕ → Bool → ℕ
level l b = if b then l else 3 - l

-- The monitor has collected the next level of the line.
abbrev pub moved : Monitor → Bool → Monitor
moved m b = record m { line = u32 (bit_or (m.line <<< 2) (level (m.line % 4) b)) }

-- The register of raw bits after one more.
abbrev pub raw_after : Monitor → Bool → ℕ
raw_after m b = u32 (bit_or (m.rawbits <<< 1) (if b then 1 else 0))

abbrev pub dropped : Monitor → Monitor
dropped m = record (moved m false) { rawbits = raw_after m false }

abbrev pub collected : Monitor → Bool → Monitor
collected m b = record (moved m b) {
  rawbits = raw_after m b;
  bits = m.bits / 2 + (if b then 128 else 0);
  needbits = m.needbits - 1;
}

-- The monitor is inside of a packet and has seen `n` ones last.
pub record Listens (m : Monitor) (n : ℕ) : Type 0 where
  pub busy : (m.state ≡ ms_get_pid) ⊎ (m.state ≡ ms_get_bytes)
  pub low : 1 ≤ m.line % 4
  pub high : m.line % 4 ≤ 2
  pub few : n ≤ 6
  pub ones : Ones n m.rawbits
  pub small : m.bits < 256

-- The line after one more code.
pub line_after : (l c : ℕ) → c < 4 → u32 (bit_or (l <<< 2) c) ≡ (l * 4 + c) % 2 ^ 32
line_after l c h = ap u32 (bit_or_fields 2 l c h)

level-le : (l : ℕ) (b : Bool) → 1 ≤ l → l ≤ 2 → (1 ≤ level l b) × (level l b ≤ 2)
level-le l true low high = (low, high)
level-le l false low high = (omega arith, omega arith)

pub mask2 : (x : ℕ) → bit_and x 3 ≡ x % 4
mask2 x = omega (arith, bit_and_step x 3, bit_and-one (x / 2))

pub mask_upper : (x : ℕ) → bit_and x 0xc ≡ x / 4 % 4 * 4
mask_upper x = omega (arith, bit_and_step x 12, bit_and_step (x / 2) 6, mask2 (x / 2 / 2))

pub six_raw : (x : ℕ) → bit_and x 0x7e ≡ x / 2 % 64 * 2
six_raw x = omega (arith, bit_and_step x 0x7e, bit_and-mask6 (x / 2))

-- The line then ends in the new level.
pub moved_low :
    (m : Monitor) (b : Bool)
    → 1 ≤ m.line % 4
    → m.line % 4 ≤ 2
    → (moved m b).line % 4 ≡ level (m.line % 4) b
moved_low m b low high =
    let (more, less) = level-le (m.line % 4) b low high in
    omega (arith, line_after m.line (level (m.line % 4) b) (omega (arith, less)), less)

-- What the code reads off the line: the next bit, and that the packet is not over.
module _ {m : Monitor} {n : ℕ} (h : Listens m n) (b : Bool) where
  line_next : (moved m b).line ≡ (m.line * 4 + level (m.line % 4) b) % 2 ^ 32
  line_next =
      line_after m.line (level (m.line % 4) b)
        (omega (arith, (level-le (m.line % 4) b h.low h.high).1))

  line_low : (moved m b).line % 4 ≡ level (m.line % 4) b
  line_low = moved_low m b h.low h.high

  line_high : (moved m b).line / 4 % 4 ≡ m.line % 4
  line_high = omega (arith, line_next, (level-le (m.line % 4) b h.low h.high).1)

  goes_on : (bit_and (moved m b).line 0x3f == 0x02) ≡ false
  goes_on = ground (arith, bit_and-mask6 (moved m b).line, line_low, line_high, h.low)

  reads_bit : (bit_and (moved m b).line 0xc >>> 2 == bit_and (moved m b).line 0x3) ≡ b
  reads_bit =
      let before : bit_and (moved m b).line 0xc >>> 2 ≡ m.line % 4 =
        omega (arith, mask_upper (moved m b).line, line_high) in
      let now : bit_and (moved m b).line 0x3 ≡ level (m.line % 4) b =
        mask2 (moved m b).line ∙ line_low in
      rw (before, now) (reads b)
    where
      reads : (b : Bool) → (m.line % 4 == level (m.line % 4) b) ≡ b
      reads true = ground arith
      reads false = ground (arith, h.low, h.high)

-- The code tests the six bits in front of the new one.
pub six_before :
    (m : Monitor) (n : ℕ) (b : Bool)
    → n ≤ 6
    → Ones n m.rawbits
    → (bit_and (raw_after m b) 0x7e == 0x7e) ≡ (n == 6)
six_before m n b few ones = before b ∙ six-Ones n m.rawbits few ones
  where
    before : (b : Bool) → (bit_and (raw_after m b) 0x7e == 0x7e) ≡ (bit_and m.rawbits 0x3f == 0x3f)
    before true = ground (
      arith,
      bit_or_fields 1 m.rawbits 1 (omega arith),
      six_raw (raw_after m true),
      bit_and-mask6 m.rawbits,
    )
    before false = ground (
      arith,
      bit_or_fields 1 m.rawbits 0 (omega arith),
      six_raw (raw_after m false),
      bit_and-mask6 m.rawbits,
    )

-- Inside of a packet every level that is J or K is a bit.
collects :
    {m : Monitor} {n : ℕ}
    → Listens m n
    → (b : Bool) (tick lastpid : ℕ)
    → follow_line (moved m b) tick lastpid ≡ collect_bit (moved m b) lastpid
unfolding follow_line
collects {m} h b tick lastpid = elim h.busy [
  | inl e ↦ rw (e, goes_on h b) refl
  | inr e ↦ rw (e, goes_on h b) refl
]

still-Listens :
    {m d : Monitor} {n : ℕ}
    → Listens m n
    → (b : Bool) (k : ℕ) → d.line ≡ (moved m b).line
    → (d.state ≡ ms_get_pid) ⊎ (d.state ≡ ms_get_bytes)
    → k ≤ 6
    → Ones k d.rawbits
    → d.bits < 256
    → Listens d k
still-Listens {m} h b k line busy few ones small =
    let (low, high) = level-le (m.line % 4) b h.low h.high in
    record {
      busy = busy;
      low = rw (line, line_low h b) low;
      high = rw (line, line_low h b) high;
      few = few;
      ones = ones;
      small = small;
    }

-- What happens to the bit that was read.
abbrev pub kept_bit : Monitor → Bool → Monitor
kept_bit m b = record m {
  rawbits = raw_after m b;
  bits = bit_or (m.bits >>> 1) ((if b then 1 else 0) <<< 7);
  needbits = u32 (m.needbits + 0xffffffff);
}

abbrev pub take_bit : Monitor → ℕ → Bool → Monitor × Event × ℕ
take_bit m lastpid b =
    if bit_and (raw_after m b) 0x7e == 0x7e
    then (record m { rawbits = raw_after m b }, none, lastpid)
    else if u32 (m.needbits + 0xffffffff) == 0
    then complete_byte (kept_bit m b) lastpid
    else (kept_bit m b, none, lastpid)

pub collect_take :
    (m : Monitor) (b : Bool) (lastpid : ℕ)
    → (bit_and m.line 0xc >>> 2 == bit_and m.line 0x3) ≡ b
    → collect_bit m lastpid ≡ take_bit m lastpid b
unfolding collect_bit
collect_take m b lastpid e = ap (take_bit m lastpid) e

raw_zero : (m : Monitor) → Ones 0 (raw_after m false)
raw_zero m =
    ap (λ (x : ℕ). u32 x % 2) (bit_or_fields 1 m.rawbits 0 (omega arith))
    ∙ ap (λ (x : ℕ). u32 x % 2) (omega arith)
    ∙ Ones-zero m.rawbits

-- After six ones a zero is dropped.
pub drop_step :
    {m : Monitor} {n : ℕ} (tick lastpid : ℕ)
    → Listens m n
    → (n == 6) ≡ true
    → (follow_line (moved m false) tick lastpid ≡ (dropped m, none, lastpid))
      × Listens (dropped m) 0
drop_step {m} {n} tick lastpid h e = (
  collects h false tick lastpid
      ∙ collect_take (moved m false) false lastpid (reads_bit h false)
      ∙ rw (six_before m n false h.few h.ones, e) refl,
  still-Listens h false 0 refl h.busy (omega arith) (raw_zero m) h.small,
)

pub new_bits :
    (x : ℕ) (b : Bool)
    → x < 256
    → bit_or (x >>> 1) ((if b then 1 else 0) <<< 7) ≡ x / 2 + (if b then 128 else 0)
new_bits x true h = bit_or_fields_swap 7 1 (x / 2) (omega arith) ∙ omega arith
new_bits x false h = bit_or_fields_swap 7 0 (x / 2) (omega arith) ∙ omega arith

-- Any other bit is collected, and one of eight completes a byte.
pub bit_step :
    {m : Monitor} {n : ℕ} (tick lastpid : ℕ)
    → Listens m n
    → (n == 6) ≡ false
    → (b : Bool) → 0 < m.needbits
    → m.needbits ≤ 8
    → (follow_line (moved m b) tick lastpid ≡ (
        if m.needbits == 1
        then complete_byte (collected m b) lastpid
        else (collected m b, none, lastpid)))
      × Listens (collected m b) (next_run n b)
bit_step {m} {n} tick lastpid h e b some le =
    let small : m.bits / 2 + (if b then 128 else 0) < 256 = below b in
    let lt : n < 6 = ground (arith, h.few) in
    let next : Ones (next_run n b) (raw_after m b) = Ones-next n m.rawbits b lt h.ones in
    let bits = new_bits m.bits b h.small in
    let need : u32 (m.needbits + 0xffffffff) ≡ m.needbits - 1 = omega arith in
    let last : (m.needbits - 1 == 0) ≡ (m.needbits == 1) = ground arith in
    (
      collects h b tick lastpid
          ∙ collect_take (moved m b) b lastpid (reads_bit h b)
          ∙ rw (six_before m n b h.few h.ones, e, bits, need, last) refl,
      still-Listens h b (next_run n b) refl h.busy (few b lt) next small,
    )
  where
    below : (b : Bool) → m.bits / 2 + (if b then 128 else 0) < 256
    below true = omega (arith, h.small)
    below false = omega (arith, h.small)

    few : (b : Bool) → n < 6 → next_run n b ≤ 6
    few true lt = omega arith
    few false lt = omega arith
