-- ===== src/Monitor/Packet.antt =====
-- usb_monitor.c: the monitor recovers the bytes of a packet.
use ciexpert_usbdev.Base.{
  ℕ, zero, suc, ◌+◌, ◌*◌, ◌/◌, ◌%◌, ◌<◌, ◌≡◌, refl, ◌∙◌, ap, ap₂, subst, Bool, if◌then◌else◌, arith,
  List, [], ◌∷◌, has, bit_and, ◌<<<◌,
}
use ciexpert_usbdev.Base.Bits.{bit_and_step, bit_and-one}
use ciexpert_usbdev.Transmit.Byte.{bits_from, byte_bits}
use ciexpert_usbdev.Transmit.Stuff.{settled, run, stuff}
use ciexpert_usbdev.Transmit.Packet.{packet_bits}
use ciexpert_usbdev.Usb.{pid, byte}
use ciexpert_usbdev.Utils.{bad_pid}
use ciexpert_usbdev.Monitor.{Monitor, MonState, ms_get_pid, ms_get_bytes}
use ciexpert_usbdev.Monitor.Collect.{Listens}
use ciexpert_usbdev.Monitor.Hear.{Events, Hears, over, Hears-append, Gathers, gather_both, settle}
use ciexpert_usbdev.Monitor.Byte.{
  events_end, push, push_all, mid_bits, last_bit, report, pid_after_byte,
}

-- A mask that is moved up tests a number that is moved down.
mask_up : (m d : ℕ) → bit_and d (m <<< 1) ≡ 2 * bit_and (d / 2) m
mask_up m d =
    let half : (m <<< 1) / 2 ≡ m = omega arith in
    let even : (m <<< 1) % 2 ≡ 0 = omega arith in
    let step : bit_and d (m <<< 1) ≡ 0 + 2 * bit_and (d / 2) ((m <<< 1) / 2) =
      omega (arith, bit_and_step d (m <<< 1), even) in
    step ∙ rw half (omega arith)

has_up : (m d : ℕ) → has d (m <<< 1) ≡ has (d / 2) m
has_up m d = ground (arith, mask_up m d)

bits_up : (k m d : ℕ) → bits_from k (m <<< 1) d ≡ bits_from k m (d / 2)
bits_up zero m d = refl
bits_up (suc k) m d = rw (has_up m d, bits_up k (m <<< 1) d) refl

lowest : (d : ℕ) → (if has d 1 then 128 else 0) ≡ d % 2 * 128
lowest d = ground (arith, bit_and-one d)

push_lowest :
    (k acc d : ℕ)
    → push_all acc (bits_from (suc k) 1 d)
      ≡ push_all (acc / 2 + d % 2 * 128) (bits_from k 1 (d / 2))
push_lowest k acc d =
    ap (λ (l : List Bool). push_all (push acc (has d 1)) l) (bits_up k 1 d)
    ∙ ap (λ (x : ℕ). push_all (acc / 2 + x) (bits_from k 1 (d / 2))) (lowest d)

-- Eight bits, the lowest first, fill the register with their byte.
push_byte : (acc d : ℕ) → acc < 256 → d < 256 → push_all acc (byte_bits d) ≡ d
push_byte acc d small below =
    push_lowest 7 acc d
    ∙ push_lowest 6 _ _
    ∙ push_lowest 5 _ _
    ∙ push_lowest 4 _ _
    ∙ push_lowest 3 _ _
    ∙ push_lowest 2 _ _
    ∙ push_lowest 1 _ _
    ∙ push_lowest 0 _ _
    ∙ omega arith

hear_byte :
    {m : Monitor} {n : ℕ} (tick lastpid d : ℕ)
    → Listens m n
    → m.needbits ≡ 8
    → d < 256
    → Gathers tick m lastpid n
        (byte_bits d)
        (report m.state d)
        ms_get_bytes
        8
        d
        (pid_after_byte m.state lastpid d)
hear_byte {m} {n} tick lastpid d h need small =
    let g = mid_bits (bits_from 7 1 d) tick lastpid h (omega (arith, need)) (omega (arith, need)) in
    let k = last_bit tick lastpid g.listens (has d 128) (omega (arith, g.need_at, need)) in
    let whole : push g.after.bits (has d 128) ≡ d =
      ap (λ (x : ℕ). push x (has d 128)) g.bits_at ∙ push_byte m.bits d h.small small in
    let same : (g.after.state, push g.after.bits (has d 128)) ≡ (m.state, d) =
      ap₂ (λ (s : MonState) (x : ℕ). (s, x)) g.state_at whole in
    gather_both g (
      subst
        (λ (q : MonState × ℕ).
          Gathers tick g.after lastpid (run n (bits_from 7 1 d)) (has d 128 ∷ []) (report q.0 q.1)
            ms_get_bytes 8 q.1 (pid_after_byte q.0 lastpid q.1))
        same k)

abbrev pub AllBytes : List ℕ → Type 0
AllBytes [] = Unit
AllBytes (d ∷ ds) = (d < 256) × AllBytes ds

abbrev pub bytes_heard : List ℕ → Events
bytes_heard [] = []
bytes_heard (d ∷ ds) = (byte, d) ∷ bytes_heard ds

hear_bytes :
    (ds : List ℕ) {m : Monitor} {n : ℕ} (tick lastpid : ℕ)
    → Listens m n
    → m.state ≡ ms_get_bytes
    → m.needbits ≡ 8
    → AllBytes ds
    → (acc : ℕ) × Gathers tick m lastpid n
        (packet_bits ds)
        (bytes_heard ds)
        ms_get_bytes
        8
        acc
        lastpid
hear_bytes [] {m} tick lastpid h state need small = (
  m.bits,
  record { after = m; hears = over; listens = h; state_at = state; need_at = need; bits_at = refl },
)
hear_bytes (d ∷ ds) {m} {n} tick lastpid h state need small =
    let g : Gathers tick m lastpid n (byte_bits d) ((byte, d) ∷ []) ms_get_bytes 8 d lastpid =
      subst
        (λ (s : MonState).
          Gathers tick m lastpid n (byte_bits d) (report s d) ms_get_bytes 8 d
            (pid_after_byte s lastpid d))
        state (hear_byte tick lastpid d h need small.0) in
    let (acc, k) = hear_bytes ds tick lastpid g.listens g.state_at g.need_at small.1 in
    (acc, gather_both g k)

-- At the start of a packet, whose PID and bytes go over the line stuffed, the monitor reports the PID
-- and then the bytes, each once and in order, and the caller's last PID is this one if its check
-- nibble is right. The monitor has to count the ones in front of the packet as the sender does.
pub Hears-stuff :
    (p : ℕ) (ds : List ℕ) (m : Monitor) (n tick lastpid : ℕ)
    → Listens m n
    → m.state ≡ ms_get_pid
    → m.needbits ≡ 8
    → p < 256
    → AllBytes ds
    → (e : Monitor) × Hears tick m lastpid
        (stuff n (packet_bits (p ∷ ds)))
        ((pid, p) ∷ bytes_heard ds)
        e
        (if bad_pid p then lastpid else p)
      × Listens e (settled (run n (packet_bits (p ∷ ds))))
      × (e.state ≡ ms_get_bytes)
      × (e.needbits ≡ 8)
Hears-stuff p ds m n tick lastpid h state need small all =
    let last = if bad_pid p then lastpid else p in
    let g : Gathers tick m lastpid n (byte_bits p) ((pid, p) ∷ []) ms_get_bytes 8 p last =
      subst
        (λ (s : MonState).
          Gathers tick m lastpid n (byte_bits p) (report s p) ms_get_bytes 8 p
            (pid_after_byte s lastpid p))
        state (hear_byte tick lastpid p h need small) in
    let (acc, k) = hear_bytes ds tick last g.listens g.state_at g.need_at all in
    let both = gather_both g k in
    let (e, due_heard, still, state_same, need_same, _) = settle tick last both.listens in
    (
      e,
      subst (λ (l : Events). Hears tick m lastpid (stuff n (packet_bits (p ∷ ds))) l e last)
          (events_end ((pid, p) ∷ bytes_heard ds)) (Hears-append both.hears due_heard),
      still,
      state_same ∙ both.state_at,
      need_same ∙ both.need_at,
    )
