-- ===== src/Host/Sync.antt =====
-- usbdpi.c and usb_monitor.c: the monitor finds the start of a packet that the host sends.
use ciexpert_usbdev.Base.{
  ℕ, ◌%◌, ◌≡◌, refl, ◌∙◌, ap, Bool, true, false, not, ◌&&◌, if◌then◌else◌, ◌==◌, arith, [], ◌∷◌,
  has, bit_and, bit_or, ◌<<<◌, u32, some, none,
}
use ciexpert_usbdev.Usb.{p2d_dn, p2d_dp, d2p_rx_enable, d2p_dnpu, DrvState, st_sync, st_send, sync}
use ciexpert_usbdev.Context.{Ctx}
use ciexpert_usbdev.Host.{host_drives}
use ciexpert_usbdev.Bus.{set_driving}
use ciexpert_usbdev.Bus.Drive.{sense-cases}
use ciexpert_usbdev.Transmit.{usb_sync, send_sync, transmit}
use ciexpert_usbdev.Monitor.{
  Monitor, ms_idle, ms_get_pid, m_host, driven_lines, line_code, usb_monitor, follow_line,
}
use ciexpert_usbdev.Monitor.Hear.{Events}
use ciexpert_usbdev.Host.Exchange.{IsSilent, IsLevel, host_level, Exchange, ended, interval}

-- The monitor reads J as J: it does not when the device pulls up D- and has its receiver enabled.
pub record IsPlain (d2p : ℕ) : Type 0 where
  pub silent : IsSilent d2p
  pub straight : (has d2p d2p_dnpu && has d2p d2p_rx_enable) ≡ false

abbrev pub with_code : Monitor → ℕ → Monitor
with_code m code = record m { driver = m_host; line = u32 (bit_or (m.line <<< 2) code) }

-- The levels of the pins while the host drives J, K and SE0, and their codes.
plain_lines :
    (c : Ctx) (d2p : ℕ)
    → IsPlain d2p
    → let swap = has d2p d2p_dnpu in
      (driven_lines true (set_driving c d2p p2d_dp true) d2p ≡ some (m_host, not swap, swap))
      × (driven_lines true (set_driving c d2p p2d_dn true) d2p ≡ some (m_host, swap, not swap))
      × (driven_lines true (set_driving c d2p 0 true) d2p ≡ some (m_host, false, false))
unfolding driven_lines set_driving
plain_lines c d2p p =
    let s = p.silent in
    ground (arith, sense-cases c.driving, p.straight, s.dp_off, s.dn_off, s.d_off)

plain_codes :
    (d2p : ℕ)
    → let swap = has d2p d2p_dnpu in
      (line_code d2p (not swap) swap ≡ 2)
      × (line_code d2p swap (not swap) ≡ 1)
      × (line_code d2p false false ≡ 0)
unfolding line_code
plain_codes d2p = ground arith

module _ (m : Monitor) (c : Ctx) (d2p tick lastpid : ℕ) where
  -- The monitor collects the code of what the host drives.
  abbrev Reads : ℕ → ℕ → Type 0
  Reads level code =
      usb_monitor m tick true (set_driving c d2p level true) d2p lastpid
      ≡ follow_line (with_code m code) tick lastpid

  reads :
      (level : ℕ) (dp dn : Bool) {code : ℕ}
      → driven_lines true (set_driving c d2p level true) d2p ≡ some (m_host, dp, dn)
      → line_code d2p dp dn ≡ code
      → Reads level code
  unfolding usb_monitor
  reads level dp dn lines codes =
      rw (usb_monitor, lines) (ap (λ (x : ℕ). follow_line (with_code m x) tick lastpid) codes)

  pub Reads-level : IsPlain d2p → Reads p2d_dp 2 × Reads p2d_dn 1 × Reads 0 0
  Reads-level p =
      let swap = has d2p d2p_dnpu in
      let (j, k, se0) = plain_lines c d2p p in
      let (j_code, k_code, se0_code) = plain_codes d2p in
      (
        reads p2d_dp (not swap) swap j j_code,
        reads p2d_dn swap (not swap) k k_code,
        reads 0 false false se0 se0_code,
      )

-- The K that a SYNC ends in.
k-IsLevel :
    (c : Ctx) (d2p : ℕ)
    → IsPlain d2p
    → IsLevel (set_driving c d2p p2d_dn true) × (host_level d2p (set_driving c d2p p2d_dn true) ≡ 1)
unfolding set_driving line_code
k-IsLevel c d2p p = ground (arith, sense-cases c.driving, p.straight)

-- A bit of the SYNC.
sync_step :
    (c : Ctx) (d2p bit : ℕ)
    → c.state ≡ st_sync
    → c.bit ≡ bit
    → (bit <<< 1 == 0x100) ≡ false
    → transmit c d2p
      ≡ some (record c {
        driving = set_driving c d2p (if has usb_sync bit then p2d_dp else p2d_dn) true;
        bit = bit <<< 1;
      })
unfolding transmit send_sync
sync_step c d2p bit s b e = rw (s, b, e) refl

sync_end :
    (c : Ctx) (d2p : ℕ)
    → c.state ≡ st_sync
    → c.bit ≡ 0x80
    → transmit c d2p
      ≡ some (record c {
        driving = set_driving c d2p p2d_dn true;
        bit = 1;
        linebits = 1;
        state = st_send;
      })
unfolding transmit send_sync
sync_end c d2p s b = rw (s, b) refl

-- A level that is no start of a packet.
idle_step :
    (m : Monitor) (code tick lastpid : ℕ)
    → m.state ≡ ms_idle
    → (bit_and (with_code m code).line 0xfff == 0x665) ≡ false
    → follow_line (with_code m code) tick lastpid ≡ (with_code m code, none, lastpid)
unfolding follow_line
idle_step m code tick lastpid s e = rw (s, e) refl

idle_end :
    (m : Monitor) (code tick lastpid : ℕ)
    → m.state ≡ ms_idle
    → (bit_and (with_code m code).line 0xfff == 0x665) ≡ true
    → follow_line (with_code m code) tick lastpid ≡ (
      record (with_code m code) { sop_at = tick; state = ms_get_pid; needbits = 8 },
      some (sync, 0),
      lastpid,
    )
unfolding follow_line
idle_end m code tick lastpid s e = rw (s, e) refl

-- The host is the driver and the line has its codes.
abbrev at : Monitor → ℕ → Monitor
at m l = record m { driver = m_host; line = l }

-- One interval of a SYNC before its end, in which nothing is reported.
quiet :
    {c c' d : Ctx} {m n : Monitor} {d2p tick lastpid p : ℕ} {es : Events} (l code l' : ℕ)
    → transmit c d2p ≡ some c'
    → c'.state ≡ st_sync
    → usb_monitor m tick true c'.driving d2p lastpid ≡ follow_line (with_code m code) tick lastpid
    → m.state ≡ ms_idle
    → m.line ≡ l
    → u32 (bit_or (l <<< 2) code) ≡ l'
    → (bit_and l' 0xfff == 0x665) ≡ false
    → Exchange d2p tick c' (at m l') lastpid es d n p
    → Exchange d2p tick c m lastpid es d n p
quiet {c} {c'} {d} {m} {n} {d2p} {tick} {lastpid} {p} {es} l code l' runs drives looks idle line
      next off rest =
    let same : (with_code m code).line ≡ l' =
      ap (λ (x : ℕ). u32 (bit_or (x <<< 2) code)) line ∙ next in
    let here : with_code m code ≡ at m l' = ap (λ (x : ℕ). at m x) same in
    let call : usb_monitor m tick (host_drives c'.state) c'.driving d2p lastpid
        ≡ (at m l', none, lastpid) =
      ap (λ (x : DrvState). usb_monitor m tick (host_drives x) c'.driving d2p lastpid) drives
      ∙ looks
      ∙ idle_step m code tick lastpid idle (ap (λ (x : ℕ). bit_and x 0xfff == 0x665) same ∙ off)
      ∙ ap (λ (x : Monitor). (x, none, lastpid)) here in
    interval {e = none} runs call rest

-- The context after a bit of the SYNC.
abbrev synced : Ctx → ℕ → ℕ → ℕ → Ctx
synced c d2p level bit = record c { driving = set_driving c d2p level true; bit = bit }

-- The host sends a SYNC, and the monitor, which has seen no level yet, reports it at its end.
pub sync_heard :
    (c : Ctx) (m : Monitor) (d2p tick lastpid : ℕ)
    → IsPlain d2p
    → c.state ≡ st_sync
    → c.bit ≡ 1
    → m.state ≡ ms_idle
    → m.line ≡ 0
    → (k : ℕ) × (l : ℕ) × Exchange d2p tick c m lastpid
        ((sync, 0) ∷ [])
        (record c { driving = k; bit = 1; linebits = 1; state = st_send })
        (record m { driver = m_host; line = l; sop_at = tick; state = ms_get_pid; needbits = 8 })
        lastpid
      × (l % 4 ≡ 1)
      × IsLevel k
      × (host_level d2p k ≡ 1)
sync_heard c m d2p tick lastpid plain s b idle line =
    let c1 = synced c d2p p2d_dn 2 in
    let c2 = synced c1 d2p p2d_dp 4 in
    let c3 = synced c2 d2p p2d_dn 8 in
    let c4 = synced c3 d2p p2d_dp 16 in
    let c5 = synced c4 d2p p2d_dn 32 in
    let c6 = synced c5 d2p p2d_dp 64 in
    let c7 = synced c6 d2p p2d_dn 128 in
    let k = set_driving c7 d2p p2d_dn true in
    let m7 = at m 6553 in
    let (level, code) = k-IsLevel c7 d2p plain in
    let last : usb_monitor m7 tick true k d2p lastpid ≡ (
      record m7 { line = 26213; sop_at = tick; state = ms_get_pid; needbits = 8 },
      some (sync, 0),
      lastpid,
    ) =
      (Reads-level m7 c7 d2p tick lastpid plain).1 ∙ idle_end m7 1 tick lastpid idle refl in
    let end = interval (sync_end c7 d2p s refl) last ended in
    let s7 =
      quiet 1638 1 6553 (sync_step c6 d2p 64 s refl refl) s
        (Reads-level (at m 1638) c6 d2p tick lastpid plain).1 idle refl refl refl end in
    let s6 =
      quiet 409 2 1638 (sync_step c5 d2p 32 s refl refl) s
        (Reads-level (at m 409) c5 d2p tick lastpid plain).0 idle refl refl refl s7 in
    let s5 =
      quiet 102 1 409 (sync_step c4 d2p 16 s refl refl) s
        (Reads-level (at m 102) c4 d2p tick lastpid plain).1 idle refl refl refl s6 in
    let s4 =
      quiet 25 2 102 (sync_step c3 d2p 8 s refl refl) s
        (Reads-level (at m 25) c3 d2p tick lastpid plain).0 idle refl refl refl s5 in
    let s3 =
      quiet 6 1 25 (sync_step c2 d2p 4 s refl refl) s
        (Reads-level (at m 6) c2 d2p tick lastpid plain).1 idle refl refl refl s4 in
    let s2 =
      quiet 1 2 6 (sync_step c1 d2p 2 s refl refl) s
        (Reads-level (at m 1) c1 d2p tick lastpid plain).0 idle refl refl refl s3 in
    let s1 =
      quiet 0 1 1 (sync_step c d2p 1 s b refl) s (Reads-level m c d2p tick lastpid plain).1 idle
        line refl refl s2 in
    (k, 26213, s1, refl, level, code)
