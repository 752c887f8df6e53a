-- ===== src/Host/Echo.antt =====
-- usbdpi.c and usb_monitor.c: the monitor reports every packet that the host sends.
use ciexpert_usbdev.Base.{
  ℕ, zero, suc, ◌+◌, ◌/◌, ◌%◌, ◌≤◌, ◌<◌, ◌≡◌, refl, ◌∙◌, sym, subst, Bool, true, false, ◌&&◌, has,
  if◌then◌else◌, ◌==◌, arith, ◌⊎◌, inl, List, [], ◌∷◌, ◌++◌, some, get_elem?, length, take, drop,
}
use ciexpert_usbdev.Base.Bits.{bit_and_step, bit_and-one}
use ciexpert_usbdev.Usb.{st_sync, st_send, st_idle, sync, pid, eop}
use ciexpert_usbdev.Utils.{bad_pid}
use ciexpert_usbdev.Utils.Laws.{bad_pid_iff}
use ciexpert_usbdev.Transfer.{Transfer}
use ciexpert_usbdev.Context.{Ctx}
use ciexpert_usbdev.Transmit.Stuff.{settled, run, run-le, stuff}
use ciexpert_usbdev.Transmit.Packet.{packet_bits, send_all}
use ciexpert_usbdev.Transmit.Step.{IsSending}
use ciexpert_usbdev.Transmit.Byte.{bits_from, settled_lt, settled_not_six}
use ciexpert_usbdev.Monitor.{Monitor, m_host, ms_get_pid, ms_get_bytes}
use ciexpert_usbdev.Monitor.Collect.{Listens}
use ciexpert_usbdev.Monitor.Hear.{Events, events_of, events_append, Hears}
use ciexpert_usbdev.Monitor.Packet.{AllBytes, bytes_heard, Hears-stuff}
use ciexpert_usbdev.Host.Exchange.{Exchange, ended, interval, Follows, exchanged}
use ciexpert_usbdev.Host.Sync.{IsPlain, sync_heard}
use ciexpert_usbdev.Host.Eop.{Waits, eop_heard}

Exchange-append :
    {d2p tick : ℕ} {c d x : Ctx} {m n y : Monitor} {lastpid p q : ℕ} {es fs : Events}
    → Exchange d2p tick c m lastpid es d n p
    → Exchange d2p tick d n p fs x y q
    → Exchange d2p tick c m lastpid (es ++ fs) x y q
Exchange-append ended k = k
Exchange-append {d2p} {tick} {x = x} {y = y} {q = q} {fs = fs}
      (interval {c = c} {m = m} {lastpid = lastpid} {e = event} {es = es} r l h) k =
    subst (λ (l : Events). Exchange d2p tick c m lastpid l x y q)
      (sym (events_append (events_of event) es fs)) (interval r l (Exchange-append h k))

-- Ones in front of a packet do not count if a zero is among its first five bits.
stuff_early :
    (a b c d e : Bool) (bs : List Bool)
    → (a && b && c && d && e) ≡ false
    → stuff 0 (a ∷ b ∷ c ∷ d ∷ e ∷ bs) ≡ stuff 1 (a ∷ b ∷ c ∷ d ∷ e ∷ bs)
stuff_early false b c d e bs h = refl
stuff_early true false c d e bs h = refl
stuff_early true true false d e bs h = refl
stuff_early true true true false e bs h = refl
stuff_early true true true true false bs h = refl
stuff_early true true true true true bs h = absurd (cc h)

-- Such a zero is in every PID with its check nibble.
pid_zero :
    (p : ℕ)
    → p < 256
    → bad_pid p ≡ false
    → (has p 1 && has p 2 && has p 4 && has p 8 && has p 16) ≡ false
pid_zero p small good =
    let nibbles : p / 16 + p % 16 ≡ 15 = (bad_pid_iff p small).0 good in
    ground (
      arith,
      nibbles,
      bit_and-one p,
      bit_and_step p 2,
      bit_and-one (p / 2),
      bit_and_step p 4,
      bit_and_step (p / 2) 2,
      bit_and-one (p / 2 / 2),
      bit_and_step p 8,
      bit_and_step (p / 2) 4,
      bit_and_step (p / 2 / 2) 2,
      bit_and-one (p / 2 / 2 / 2),
      bit_and_step p 16,
      bit_and_step (p / 2) 8,
      bit_and_step (p / 2 / 2) 4,
      bit_and_step (p / 2 / 2 / 2) 2,
      bit_and-one (p / 2 / 2 / 2 / 2),
    )

stuff_counts :
    (n p : ℕ) (ds : List ℕ)
    → n ≤ 1
    → p < 256
    → bad_pid p ≡ false
    → stuff n (packet_bits (p ∷ ds)) ≡ stuff 1 (packet_bits (p ∷ ds))
stuff_counts zero p ds few small good =
    stuff_early (has p 1) (has p 2) (has p 4) (has p 8) (has p 16)
      (bits_from 3 0x20 p ++ packet_bits ds) (pid_zero p small good)
stuff_counts (suc zero) p ds few small good = refl
stuff_counts (suc (suc n)) p ds few small good = absurd (omega arith)

-- The host is about to send the bytes `bs` of the descriptor `t`, a packet that no other follows.
pub record IsLoaded (c : Ctx) (t : Transfer) (bs : List ℕ) : Type 0 where
  pub state_at : c.state ≡ st_sync
  pub bit_at : c.bit ≡ 1
  pub at : ℕ
  pub pointer : c.sending ≡ some at
  pub holds : get_elem? c.transfer_pool at ≡ some t
  pub within : c.byte ≤ t.num_bytes
  pub fits : t.num_bytes ≤ length t.data_bytes
  pub rest : drop c.byte (take t.num_bytes t.data_bytes) ≡ bs
  pub alone : (t.data_start ≤ c.byte) ⊎ (t.num_bytes < t.data_start)

-- A packet's last byte is not the one in front of a data stage.
rest_some : (k e : ℕ) (xs : List ℕ) (b : ℕ) (bs : List ℕ) → drop k (take e xs) ≡ b ∷ bs → k < e
rest_some zero zero xs b bs h = cc h
rest_some (suc k) zero xs b bs h = cc h
rest_some zero (suc e) xs b bs h = omega arith
rest_some (suc k) (suc e) [] b bs h = cc h
rest_some (suc k) (suc e) (x ∷ xs) b bs h = let lt = rest_some k e xs b bs h in omega (arith, lt)

-- Both behind the SYNC.
abbrev at_packet : Ctx → ℕ → Ctx
at_packet c k = record c { driving = k; bit = 1; linebits = 1; state = st_send }

abbrev at_pid : Monitor → ℕ → ℕ → Monitor
at_pid m l tick = record m {
  driver = m_host;
  line = l;
  sop_at = tick;
  state = ms_get_pid;
  needbits = 8;
}

at_packet-IsSending :
    {c : Ctx} {t : Transfer} {bs : List ℕ} (k : ℕ) → IsLoaded c t bs → IsSending (at_packet c k) t 1
at_packet-IsSending k load = record {
  sends = refl;
  at = load.at;
  pointer = load.pointer;
  holds = load.holds;
  few = omega arith;
  ones = (refl, refl);
}

at_pid-Listens :
    {m : Monitor} (l tick : ℕ) (waits : Waits m) → l % 4 ≡ 1 → Listens (at_pid m l tick) waits.count
at_pid-Listens l tick waits line = record {
  busy = inl refl;
  low = omega (arith, line);
  high = omega (arith, line);
  few = omega (arith, waits.few);
  ones = waits.ones;
  small = waits.small;
}

-- What the monitor hears of a packet, counting fewer ones in front of it than the sender.
Hears-sent :
    (p : ℕ) (ds : List ℕ) (m : Monitor) (n tick lastpid : ℕ)
    → Listens m n
    → m.state ≡ ms_get_pid
    → m.needbits ≡ 8
    → n ≤ 1
    → AllBytes (p ∷ ds)
    → bad_pid p ≡ false
    → (k : Monitor) × Hears tick m lastpid
        (stuff 1 (packet_bits (p ∷ ds)))
        ((pid, p) ∷ bytes_heard ds)
        k
        p
      × Listens k (settled (run n (packet_bits (p ∷ ds))))
      × (k.state ≡ ms_get_bytes)
      × (k.needbits ≡ 8)
Hears-sent p ds m n tick lastpid h state need few small good =
    let (k, heard, still, in_bytes, eight) =
      Hears-stuff p ds m n tick lastpid h state need small.0 small.1 in
    let events = (pid, p) ∷ bytes_heard ds in
    let right : Hears tick m lastpid (stuff n (packet_bits (p ∷ ds))) events k p =
      subst
        (λ (b : Bool).
          Hears tick m lastpid (stuff n (packet_bits (p ∷ ds))) events k (if b then lastpid else p))
        good heard in
    (
      k,
      subst (λ (l : List Bool). Hears tick m lastpid l events k p)
          (stuff_counts n p ds few small.0 good) right,
      still,
      in_bytes,
      eight,
    )

-- However the device is attached, as long as it drives no line and the monitor reads the levels of
-- the host unswapped: a packet that the host sends from its SYNC on, that no data stage follows and
-- whose PID has the right check nibble, is reported by the monitor as its start, its PID, each of its
-- bytes once and in order, and its end, and nothing else. The PID is the caller's last one then. The
-- host is idle behind it, and the monitor waits for the next packet as it did for this one.
pub transmit-usb_monitor :
    (p : ℕ) (ds : List ℕ) (c : Ctx) (t : Transfer) (m : Monitor) (d2p tick lastpid : ℕ)
    → IsPlain d2p
    → IsLoaded c t (p ∷ ds)
    → Waits m
    → AllBytes (p ∷ ds)
    → bad_pid p ≡ false
    → (d : Ctx) × (k : Monitor) × Exchange d2p tick c m lastpid
        ((sync, 0) ∷ (pid, p) ∷ (bytes_heard ds ++ (eop, 0) ∷ []))
        d
        k
        p
      × (d.state ≡ st_idle)
      × Waits k
transmit-usb_monitor p ds c t m d2p tick lastpid plain load waits small good =
    let bits = packet_bits (p ∷ ds) in
    let (x, l, synced, line, level, code) =
      sync_heard c m d2p tick lastpid plain load.state_at load.bit_at waits.state_at
        waits.line_at in
    let a =
      send_all (p ∷ ds) (at_packet c x) t 1 d2p (at_packet-IsSending x load) refl load.within
        load.fits load.rest load.alone in
    let (k, heard, still, in_bytes, need) =
      Hears-sent p ds (at_pid m l tick) waits.count tick lastpid (at_pid-Listens l tick waits line)
        refl refl waits.few small good in
    let follows : Follows d2p (at_packet c x) (at_pid m l tick) = record {
      level_at = level;
      line_at = line ∙ sym code;
      driver_at = refl;
    } in
    let (exchange, _) = exchanged plain.silent a.sent heard follows refl in
    let more = rest_some c.byte t.num_bytes t.data_bytes p ds load.rest in
    let last : (a.after.byte == t.data_start) ≡ false =
      ground (arith, a.byte_at, load.alone, more) in
    let few =
      settled_lt (run waits.count bits) (run-le waits.count bits (omega (arith, waits.few))) in
    let (d, n, ending, idle, waiting) =
      eop_heard a.after k t (settled (run 1 bits)) (settled (run waits.count bits)) d2p tick p plain
        a.still (settled_not_six (run 1 bits)) few (omega (arith, a.byte_at)) last still in_bytes
        need in
    (d, n, Exchange-append synced (Exchange-append exchange ending), idle, waiting)
