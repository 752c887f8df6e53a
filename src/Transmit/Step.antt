-- ===== src/Transmit/Step.antt =====
-- usbdpi.c, ST_SEND: one bit interval.
use ciexpert_usbdev.Base.{
  ℕ, zero, suc, ◌+◌, ◌*◌, ◌/◌, ◌%◌, ◌≤◌, ◌<◌, ◌≡◌, refl, sym, subst, ◌∙◌, bit_and, bit_or, Bool,
  true, false, some, List, [], ◌∷◌, ◌++◌, leb, ◌==◌, if◌then◌else◌, get_elem?, u32, arith, ◌<<<◌,
}
use ciexpert_usbdev.Base.Bits.{bit_and_step, bit_or_fields, bit_and-fifteen}
use ciexpert_usbdev.Transmit.Stuff.{next_run}
use ciexpert_usbdev.Usb.{st_send, st_eop}
use ciexpert_usbdev.Transfer.{Transfer}
use ciexpert_usbdev.Context.{Ctx}
use ciexpert_usbdev.Bus.{set_driving, inv_driving}
use ciexpert_usbdev.Transmit.{being_sent, send_bit, send_data, transmit}

-- The register of sent bits ends in exactly `n` ones.
abbrev pub Ones : ℕ → ℕ → Type 0
Ones zero lb = lb % 2 ≡ 0
Ones (suc n) lb = (lb % 2 ≡ 1) × Ones n (lb / 2)

pub bit_and-mask6 : (a : ℕ) → bit_and a 0x3f ≡ a % 64
bit_and-mask6 a =
    omega (arith, bit_and_step a 63, bit_and_step (a / 2) 31, bit_and-fifteen (a / 2 / 2))

-- Six ones are what the code tests for.
pub six-Ones : (n lb : ℕ) → n ≤ 6 → Ones n lb → (bit_and lb 0x3f == 0x3f) ≡ (n == 6)
six-Ones zero lb h o = ground (arith, bit_and-mask6 lb)
six-Ones (suc zero) lb h o = ground (arith, bit_and-mask6 lb)
six-Ones (suc (suc zero)) lb h o = ground (arith, bit_and-mask6 lb)
six-Ones (suc (suc (suc zero))) lb h o = ground (arith, bit_and-mask6 lb)
six-Ones (suc (suc (suc (suc zero)))) lb h o = ground (arith, bit_and-mask6 lb)
six-Ones (suc (suc (suc (suc (suc zero))))) lb h o = ground (arith, bit_and-mask6 lb)
six-Ones (suc (suc (suc (suc (suc (suc zero)))))) lb h o = ground (arith, bit_and-mask6 lb)
six-Ones (suc (suc (suc (suc (suc (suc (suc n))))))) lb h o = absurd (omega arith)

half_odd : (x : ℕ) → (x * 2 + 1) / 2 ≡ x
half_odd x = omega arith

-- Seven bits decide.
Ones-low : (n x y : ℕ) → n ≤ 6 → x % 128 ≡ y % 128 → Ones n x → Ones n y
Ones-low zero x y h e o = ground (arith, o, e)
Ones-low (suc zero) x y h e o = ground (arith, o, e)
Ones-low (suc (suc zero)) x y h e o = ground (arith, o, e)
Ones-low (suc (suc (suc zero))) x y h e o = ground (arith, o, e)
Ones-low (suc (suc (suc (suc zero)))) x y h e o = ground (arith, o, e)
Ones-low (suc (suc (suc (suc (suc zero))))) x y h e o = ground (arith, o, e)
Ones-low (suc (suc (suc (suc (suc (suc zero)))))) x y h e o = ground (arith, o, e)
Ones-low (suc (suc (suc (suc (suc (suc (suc n))))))) x y h e o = absurd (omega arith)

-- A zero, and a one, enter the register.
pub Ones-zero : (lb : ℕ) → Ones 0 (u32 (lb <<< 1))
Ones-zero lb = omega arith

pub Ones-next :
    (n lb : ℕ) (b : Bool)
    → n < 6
    → Ones n lb
    → Ones (next_run n b) (u32 (bit_or (lb <<< 1) (if b then 1 else 0)))
Ones-next n lb true h o = rw (bit_or_fields 1 lb 1 (omega arith)) (
    Ones-low (suc n) (lb * 2 + 1) (u32 (lb * 2 + 1)) (omega arith) (omega arith)
      (omega arith, subst (Ones n) (sym (half_odd lb)) o))
Ones-next n lb false h o = rw (bit_or_fields 1 lb 0 (omega arith)) (omega arith)

-- Bit intervals: what the line says, a one where its level stays and a zero where it is inverted,
-- and the context behind them.
pub data Sends (d2p : ℕ) : Ctx → List Bool → Ctx → Type 0 where
  done : {c : Ctx} → Sends d2p c [] c
  step :
      {c c' e : Ctx} (b : Bool) {bs : List Bool}
      → transmit c d2p ≡ some c'
      → c'.driving ≡ (if b then c.driving else inv_driving c d2p)
      → c'.state ≡ c.state
      → Sends d2p c' bs e
      → Sends d2p c (b ∷ bs) e

pub Sends-append :
    {d2p : ℕ} {c d e : Ctx} {xs ys : List Bool}
    → Sends d2p c xs d
    → Sends d2p d ys e
    → Sends d2p c (xs ++ ys) e
Sends-append done q = q
Sends-append (step b r l s p) q = step b r l s (Sends-append p q)

-- The context is sending the descriptor `t` and has sent `n` ones last.
pub record IsSending (c : Ctx) (t : Transfer) (n : ℕ) : Type 0 where
  pub sends : c.state ≡ st_send
  pub at : ℕ
  pub pointer : c.sending ≡ some at
  pub holds : get_elem? c.transfer_pool at ≡ some t
  pub few : n ≤ 6
  pub ones : Ones n c.linebits

abbrev pub stuffed : Ctx → ℕ → Ctx
stuffed c d2p = record c { driving = inv_driving c d2p; linebits = u32 (c.linebits <<< 1) }

-- The same descriptor in a context that differs only in how far it is sent.
pub still-IsSending :
    {c : Ctx} {t : Transfer} {n : ℕ} (s : IsSending c t n) (driving linebits bit byte m : ℕ)
    → m ≤ 6
    → Ones m linebits
    → IsSending (record c { driving = driving; linebits = linebits; bit = bit; byte = byte }) t m
still-IsSending s driving linebits bit byte m few ones = record {
  sends = s.sends;
  at = s.at;
  pointer = s.pointer;
  holds = s.holds;
  few = few;
  ones = ones;
}

-- After six ones a zero goes out, and the place in the packet stays.
pub stuff_step :
    {c : Ctx} {t : Transfer} {n : ℕ} (d2p : ℕ)
    → IsSending c t n
    → (n == 6) ≡ true
    → (transmit c d2p ≡ some (stuffed c d2p)) × IsSending (stuffed c d2p) t 0
unfolding transmit send_data being_sent
stuff_step {c} {t} {n} d2p s e = (
  rw (s.sends, s.pointer, s.holds, six-Ones n c.linebits s.few s.ones ∙ e) refl,
  still-IsSending s (inv_driving c d2p) (u32 (c.linebits <<< 1)) c.bit c.byte 0 (omega arith)
      (Ones-zero c.linebits),
)

-- A bit of the packet goes out.
pub bit_step :
    {c : Ctx} {t : Transfer} {n : ℕ} (d2p d : ℕ)
    → IsSending c t n
    → (n == 6) ≡ false
    → c.byte < t.num_bytes
    → get_elem? t.data_bytes c.byte ≡ some d
    → transmit c d2p ≡ some (send_bit c d2p t d)
unfolding transmit send_data being_sent
bit_step {c} {t} {n} d2p d s e lt f =
    let more : leb t.num_bytes c.byte ≡ false = ground arith in
    rw (s.sends, s.pointer, s.holds, six-Ones n c.linebits s.few s.ones ∙ e, more, f) refl

-- The end of the packet.
pub end_step :
    {c : Ctx} {t : Transfer} {n : ℕ} (d2p : ℕ)
    → IsSending c t n
    → (n == 6) ≡ false
    → t.num_bytes ≤ c.byte
    → transmit c d2p
      ≡ some (record c { state = st_eop; driving = set_driving c d2p 0 true; bit = 1 })
unfolding transmit send_data being_sent
end_step {c} {t} {n} d2p s e le =
    let last : leb t.num_bytes c.byte ≡ true = ground arith in
    rw (s.sends, s.pointer, s.holds, six-Ones n c.linebits s.few s.ones ∙ e, last) refl
