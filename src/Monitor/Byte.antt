-- ===== src/Monitor/Byte.antt =====
-- usb_monitor.c: the bits of one byte, and what `complete_byte` makes of them.
use ciexpert_usbdev.Base.{
  ℕ, ◌+◌, ◌-◌, ◌/◌, ◌≤◌, ◌<◌, ◌≡◌, refl, ◌∙◌, ap, subst, Bool, true, false, Bool-cases, none, some,
  if◌then◌else◌, ◌==◌, ltb, set, u8, arith, inl, inr, List, [], ◌∷◌, ◌++◌, length,
}
use ciexpert_usbdev.Usb.{pid, byte}
use ciexpert_usbdev.Utils.{bad_pid}
use ciexpert_usbdev.Transmit.Stuff.{next_run, due}
use ciexpert_usbdev.Transmit.Byte.{settled_not_six}
use ciexpert_usbdev.Monitor.{
  Monitor, MonState, ms_idle, ms_get_pid, ms_get_bytes, Event, complete_byte, follow_line,
  mon_bytes_size,
}
use ciexpert_usbdev.Monitor.Collect.{moved, collected, Listens, bit_step}
use ciexpert_usbdev.Monitor.Hear.{
  Events, events_of, Hears, over, hear, Hears-append, Gathers, gather_both, settle,
}

-- The register of collected bits after one more.
abbrev pub push : ℕ → Bool → ℕ
push acc b = acc / 2 + (if b then 128 else 0)

abbrev pub push_all : ℕ → List Bool → ℕ
push_all acc [] = acc
push_all acc (b ∷ bs) = push_all (push acc b) bs

mid_bit :
    {m : Monitor} {n : ℕ} (tick lastpid : ℕ)
    → Listens m n
    → (b : Bool) → 1 < m.needbits
    → m.needbits ≤ 8
    → Gathers tick m lastpid n (b ∷ []) [] m.state (m.needbits - 1) (push m.bits b) lastpid
mid_bit {m} {n} tick lastpid h b more le =
    let (d, due_heard, listens, state_same, need_same, bits_same) = settle tick lastpid h in
    let (runs, still) =
      bit_step tick lastpid listens (settled_not_six n) b (omega (arith, need_same))
        (omega (arith, need_same)) in
    let waits : (d.needbits == 1) ≡ false = ground (arith, need_same) in
    let quiet : follow_line (moved d b) tick lastpid ≡ (collected d b, none, lastpid) =
      runs ∙ rw waits refl in
    record {
      after = collected d b;
      hears = Hears-append due_heard (hear quiet over);
      listens = still;
      state_at = state_same;
      need_at = ap (λ (k : ℕ). k - 1) need_same;
      bits_at = ap (λ (k : ℕ). push k b) bits_same;
    }

pub mid_bits :
    (bs : List Bool) {m : Monitor} {n : ℕ} (tick lastpid : ℕ)
    → Listens m n
    → length bs < m.needbits
    → m.needbits ≤ 8
    → Gathers tick m lastpid n bs [] m.state (m.needbits - length bs) (push_all m.bits bs) lastpid
mid_bits [] tick lastpid h more le = record {
  after = _;
  hears = over;
  listens = h;
  state_at = refl;
  need_at = omega arith;
  bits_at = refl;
}
mid_bits (b ∷ bs) {m} {n} tick lastpid h more le =
    let g = mid_bit tick lastpid h b (omega arith) le in
    let k =
      mid_bits bs tick lastpid g.listens (omega (arith, g.need_at)) (omega (arith, g.need_at)) in
    gather_both g record {
      after = k.after;
      hears = k.hears;
      listens = k.listens;
      state_at = k.state_at ∙ g.state_at;
      need_at = omega (arith, k.need_at, g.need_at);
      bits_at = k.bits_at ∙ ap (λ (x : ℕ). push_all x bs) g.bits_at;
    }

-- What a byte is reported as, and the caller's `lastpid` then.
abbrev pub report : MonState → ℕ → Events
report ms_idle d = []
report ms_get_pid d = (pid, d) ∷ []
report ms_get_bytes d = (byte, d) ∷ []

abbrev pub pid_after_byte : MonState → ℕ → ℕ → ℕ
pid_after_byte ms_get_pid lastpid d = if bad_pid d then lastpid else d
pid_after_byte _ lastpid d = lastpid

-- A byte is complete.
record Completes (m : Monitor) (lastpid n : ℕ) : Type 0 where
  after : Monitor
  event : Event
  runs : complete_byte m lastpid ≡ (after, event, pid_after_byte m.state lastpid m.bits)
  reports : events_of event ≡ report m.state m.bits
  listens : Listens after n
  state_at : after.state ≡ ms_get_bytes
  need_at : after.needbits ≡ 8
  bits_at : after.bits ≡ m.bits

-- The context behind a byte, whose next byte has eight bits to come.
abbrev behind : Monitor → List ℕ → ℕ → ℕ → Monitor
behind m bytes at lastpid = record m {
  state = ms_get_bytes;
  needbits = 8;
  bytes = bytes;
  byte = at;
  lastpid = lastpid;
}

behind-Listens :
    {m : Monitor} {n : ℕ} (bytes : List ℕ) (at lastpid : ℕ)
    → Listens m n
    → Listens (behind m bytes at lastpid) n
behind-Listens bytes at lastpid h = record {
  busy = inr refl;
  low = h.low;
  high = h.high;
  few = h.few;
  ones = h.ones;
  small = h.small;
}

completed :
    {m : Monitor} {n : ℕ} {lastpid : ℕ} (bytes : List ℕ) (at p : ℕ) (event : Event)
    → Listens m n
    → complete_byte m lastpid ≡ (behind m bytes at p, event, pid_after_byte m.state lastpid m.bits)
    → events_of event ≡ report m.state m.bits
    → Completes m lastpid n
completed {m} bytes at p event h runs reports = record {
  after = behind m bytes at p;
  event = event;
  runs = runs;
  reports = reports;
  listens = behind-Listens bytes at p h;
  state_at = refl;
  need_at = refl;
  bits_at = refl;
}

completes : {m : Monitor} {n : ℕ} (lastpid : ℕ) → Listens m n → Completes m lastpid n
unfolding complete_byte
completes {m} {n} lastpid h =
    let whole : u8 m.bits ≡ m.bits = omega (arith, h.small) in
    elim h.busy [
      | inl s ↦ elim (Bool-cases (bad_pid m.bits)) [
        | inl bad ↦
            completed m.bytes 0 m.lastpid (some (pid, m.bits)) h (rw (s, whole, bad) refl)
              (rw s refl)
        | inr good ↦
            completed m.bytes 0 m.bits (some (pid, m.bits)) h (rw (s, whole, good) refl) (rw s refl)
      ]
      | inr s ↦
          completed (set m.bytes m.byte m.bits)
            (if ltb m.byte mon_bytes_size then u8 (m.byte + 1) else m.byte) m.lastpid
            (some (byte, m.bits)) h (rw (s, whole) refl) (rw s refl)
    ]

pub events_end : (es : Events) → es ++ [] ≡ es
events_end [] = refl
events_end (e ∷ es) = ap (λ (l : Events). e ∷ l) (events_end es)

-- The eighth bit of a byte.
final_bit :
    {m : Monitor} {n : ℕ} (tick lastpid : ℕ)
    → Listens m n
    → (n == 6) ≡ false
    → (b : Bool) → m.needbits ≡ 1
    → let d = push m.bits b in
      (e : Monitor) × Hears tick m lastpid
        (b ∷ [])
        (report m.state d)
        e
        (pid_after_byte m.state lastpid d)
      × Listens e (next_run n b)
      × (e.state ≡ ms_get_bytes)
      × (e.needbits ≡ 8)
      × (e.bits ≡ d)
final_bit {m} {n} tick lastpid h few b one =
    let (runs, still) = bit_step tick lastpid h few b (omega (arith, one)) (omega (arith, one)) in
    let ends : (m.needbits == 1) ≡ true = ground (arith, one) in
    let c = completes lastpid still in
    let d = push m.bits b in
    let whole : follow_line (moved m b) tick lastpid
        ≡ (c.after, c.event, pid_after_byte m.state lastpid d) =
      runs ∙ rw ends c.runs in
    (
      c.after,
      subst
          (λ (l : Events).
            Hears tick m lastpid (b ∷ []) l c.after (pid_after_byte m.state lastpid d))
          (events_end (events_of c.event) ∙ c.reports) (hear whole over),
      c.listens,
      c.state_at,
      c.need_at,
      c.bits_at,
    )

pub last_bit :
    {m : Monitor} {n : ℕ} (tick lastpid : ℕ)
    → Listens m n
    → (b : Bool) → m.needbits ≡ 1
    → let d = push m.bits b in
      Gathers tick m lastpid n
        (b ∷ [])
        (report m.state d)
        ms_get_bytes
        8
        d
        (pid_after_byte m.state lastpid d)
last_bit {m} {n} tick lastpid h b one =
    let (x, due_heard, listens, state_same, need_same, bits_same) = settle tick lastpid h in
    let (e, hears, still, state_at, need_at, bits_at) =
      final_bit tick lastpid listens (settled_not_six n) b (need_same ∙ one) in
    let same : (x.state, push x.bits b) ≡ (m.state, push m.bits b) =
      rw (state_same, bits_same) refl in
    record {
      after = e;
      hears =
          subst
            (λ (k : MonState × ℕ).
              Hears tick m lastpid (due n ++ b ∷ []) (report k.0 k.1) e
                (pid_after_byte k.0 lastpid k.1))
            same (Hears-append due_heard hears);
      listens = still;
      state_at = state_at;
      need_at = need_at;
      bits_at = bits_at ∙ ap (λ (k : ℕ). push k b) bits_same;
    }
