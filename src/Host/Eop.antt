-- ===== src/Host/Eop.antt =====
-- usbdpi.c and usb_monitor.c: the monitor hears the end of a packet that the host sends.
use ciexpert_usbdev.Base.{
  ℕ, ◌+◌, ◌*◌, ◌%◌, ◌^◌, ◌≤◌, ◌<◌, ◌≡◌, refl, ◌∙◌, ap, Bool, true, false, if◌then◌else◌, ◌==◌,
  arith, [], ◌∷◌, has, bit_and, ◌>>>◌, u32, some, none, get_elem?,
}
use ciexpert_usbdev.Usb.{p2d_dp, d2p_pu, st_eop, st_idle, eop}
use ciexpert_usbdev.Transfer.{Transfer}
use ciexpert_usbdev.Context.{Ctx}
use ciexpert_usbdev.Bus.{set_driving}
use ciexpert_usbdev.Transmit.{being_sent, send_eop, transmit}
use ciexpert_usbdev.Transmit.Step.{Ones, Ones-next, IsSending, end_step, bit_and-mask6}
use ciexpert_usbdev.Monitor.{
  Monitor, ms_idle, ms_get_bytes, m_none, driven_lines, usb_monitor, follow_line, collect_bit,
}
use ciexpert_usbdev.Monitor.Collect.{
  Listens, raw_after, kept_bit, collect_take, line_after, mask2, mask_upper, six_before, new_bits,
}
use ciexpert_usbdev.Host.Exchange.{IsSilent, Exchange, ended, interval}
use ciexpert_usbdev.Host.Sync.{IsPlain, with_code, Reads-level}

-- A bit that SE0 is taken for, while the eight bits of a byte are not complete.
se0_bit :
    (m : Monitor) (b : Bool) (n need tick lastpid : ℕ)
    → m.state ≡ ms_get_bytes
    → (m.line % 4 == 0) ≡ b
    → n < 6
    → Ones n m.rawbits
    → m.needbits ≡ need + 2
    → need < 7
    → follow_line (with_code m 0) tick lastpid ≡ (kept_bit (with_code m 0) b, none, lastpid)
unfolding follow_line
se0_bit m b n need tick lastpid state null few ones need_at small =
    let x = (with_code m 0).line in
    let line : x ≡ (m.line * 4 + 0) % 2 ^ 32 = line_after m.line 0 (omega arith) in
    let on : (bit_and x 0x3f == 0x02) ≡ false = ground (arith, bit_and-mask6 x, line) in
    let bit : (bit_and x 0xc >>> 2 == bit_and x 0x3) ≡ b =
      ground (arith, mask_upper x, mask2 x, line, null) in
    let six : (bit_and (raw_after (with_code m 0) b) 0x7e == 0x7e) ≡ false =
      six_before m n b (omega arith) ones ∙ ground arith in
    let more : (u32 (m.needbits + 0xffffffff) == 0) ≡ false = ground (arith, need_at) in
    let goes_on : follow_line (with_code m 0) tick lastpid ≡ collect_bit (with_code m 0) lastpid =
      rw (state, on) refl in
    goes_on ∙ collect_take (with_code m 0) b lastpid bit ∙ rw (six, more) refl

-- The J behind two SE0 ends the packet.
eop_step :
    (m : Monitor) (tick lastpid : ℕ)
    → m.state ≡ ms_get_bytes
    → m.line % 16 ≡ 0
    → follow_line (with_code m 2) tick lastpid
      ≡ (record (with_code m 2) { state = ms_idle }, some (eop, 0), lastpid)
unfolding follow_line
eop_step m tick lastpid state zeros =
    let x = (with_code m 2).line in
    let line : x ≡ (m.line * 4 + 2) % 2 ^ 32 = line_after m.line 2 (omega arith) in
    let off : (bit_and x 0x3f == 0x02) ≡ true = ground (arith, bit_and-mask6 x, line, zeros) in
    rw (state, off) refl

-- The host's lines at the end of a packet: SE0 twice, J, and then no level.
second_se0 :
    (c : Ctx) (d2p : ℕ)
    → c.state ≡ st_eop
    → c.bit ≡ 1
    → transmit c d2p ≡ some (record c { bit = 2 })
unfolding transmit send_eop
second_se0 c d2p s b = rw (s, b) refl

drives_j :
    (c : Ctx) (d2p : ℕ)
    → c.state ≡ st_eop
    → c.bit ≡ 2
    → transmit c d2p ≡ some (record c { driving = set_driving c d2p p2d_dp true; bit = 4 })
unfolding transmit send_eop
drives_j c d2p s b = rw (s, b) refl

lets_go :
    (c : Ctx) (t : Transfer) (at d2p : ℕ)
    → c.state ≡ st_eop
    → c.bit ≡ 4
    → c.sending ≡ some at
    → get_elem? c.transfer_pool at ≡ some t
    → (c.byte == t.data_start) ≡ false
    → transmit c d2p
      ≡ some (record c {
        driving = set_driving c d2p (if has d2p d2p_pu then p2d_dp else 0) false;
        state = st_idle;
      })
unfolding transmit send_eop being_sent
lets_go c t at d2p s b p f e = rw (s, b, p, f, e) refl

-- No one drives the lines.
abbrev unheard : Monitor → ℕ → Monitor
unheard m d2p = record m { driver = m_none; pu = bit_and d2p d2p_pu; line = 0 }

hears_nothing :
    (m : Monitor) (x d2p tick lastpid : ℕ)
    → IsSilent d2p
    → usb_monitor m tick false x d2p lastpid ≡ (unheard m d2p, none, lastpid)
unfolding usb_monitor driven_lines
hears_nothing m x d2p tick lastpid s =
    rw (usb_monitor, driven_lines, s.dp_off, s.dn_off, s.d_off) refl

-- A monitor that waits for a packet, after a packet or from the start on.
pub record Waits (m : Monitor) : Type 0 where
  pub state_at : m.state ≡ ms_idle
  pub line_at : m.line ≡ 0
  pub count : ℕ
  pub few : count ≤ 1
  pub ones : Ones count m.rawbits
  pub small : m.bits < 256

-- The rest of the packet has been sent and heard.
module _ (c : Ctx) (m : Monitor) (t : Transfer) (sent n d2p tick lastpid : ℕ) (plain : IsPlain d2p)
    (s : IsSending c t sent) (no_stuffing : (sent == 6) ≡ false) (few : n < 6)
    (all : t.num_bytes ≤ c.byte) (last : (c.byte == t.data_start) ≡ false) (h : Listens m n)
    (in_bytes : m.state ≡ ms_get_bytes) (need : m.needbits ≡ 8) where
  abbrev first : Ctx
  first = record c { state = st_eop; driving = set_driving c d2p 0 true; bit = 1 }

  abbrev first_heard : Monitor
  first_heard = kept_bit (with_code m 0) false

  abbrev second_heard : Monitor
  second_heard = kept_bit (with_code first_heard 0) true

  hears_first : usb_monitor m tick true first.driving d2p lastpid ≡ (first_heard, none, lastpid)
  hears_first =
      (Reads-level m c d2p tick lastpid plain).2
      ∙ se0_bit m false n 6 tick lastpid in_bytes (ground (arith, h.low)) few h.ones need
          (omega arith)

  first_zero : Ones 0 first_heard.rawbits
  first_zero = Ones-next n m.rawbits false few h.ones

  first_line : first_heard.line ≡ (m.line * 4 + 0) % 2 ^ 32
  first_line = line_after m.line 0 (omega arith)

  first_need : first_heard.needbits ≡ 5 + 2
  first_need = ap (λ (x : ℕ). u32 (x + 0xffffffff)) need

  hears_second :
      usb_monitor first_heard tick true first.driving d2p lastpid ≡ (second_heard, none, lastpid)
  hears_second =
      (Reads-level first_heard c d2p tick lastpid plain).2
      ∙ se0_bit first_heard true 0 5 tick lastpid in_bytes (ground (arith, first_line))
          (omega arith) first_zero first_need (omega arith)

  second_line : second_heard.line % 16 ≡ 0
  second_line = omega (arith, first_line, line_after first_heard.line 0 (omega arith))

  abbrev second : Ctx
  second = record first { bit = 2 }

  abbrev third : Ctx
  third = record second { driving = set_driving second d2p p2d_dp true; bit = 4 }

  abbrev third_heard : Monitor
  third_heard = record (with_code second_heard 2) { state = ms_idle }

  hears_third :
      usb_monitor second_heard tick true third.driving d2p lastpid
      ≡ (third_heard, some (eop, 0), lastpid)
  hears_third =
      (Reads-level second_heard second d2p tick lastpid plain).0
      ∙ eop_step second_heard tick lastpid in_bytes second_line

  abbrev fourth : Ctx
  fourth = record third {
    driving = set_driving third d2p (if has d2p d2p_pu then p2d_dp else 0) false;
    state = st_idle;
  }

  first_small : first_heard.bits < 256
  first_small = omega (arith, new_bits m.bits false h.small, h.small)

  heard_small : third_heard.bits < 256
  heard_small = omega (arith, new_bits first_heard.bits true first_small, first_small)

  -- The end of a packet is reported, and both wait for the next one.
  pub eop_heard :
      (d : Ctx) × (k : Monitor) × Exchange d2p tick c m lastpid ((eop, 0) ∷ []) d k lastpid
      × (d.state ≡ st_idle)
      × Waits k
  eop_heard = (
    fourth,
    unheard third_heard d2p,
    interval (end_step d2p s no_stuffing all) hears_first (
        interval (second_se0 first d2p refl refl) hears_second (
          interval (drives_j second d2p refl refl) hears_third (
            interval (lets_go third t s.at d2p refl refl s.pointer s.holds last)
              (hears_nothing third_heard fourth.driving d2p tick lastpid plain.silent) ended))),
    refl,
    record {
      state_at = refl;
      line_at = refl;
      count = 1;
      few = omega arith;
      ones = Ones-next 0 first_heard.rawbits true (omega arith) first_zero;
      small = heard_small;
    },
  )
