-- ===== src/Transmit/Byte.antt =====
-- usbdpi.c, ST_SEND: the bits of one byte.
use ciexpert_usbdev.Base.{
  ℕ, zero, suc, ◌+◌, ◌≤◌, ◌<◌, ◌≡◌, refl, sym, subst, ap, ◌∙◌, bit_or, Bool, true, false,
  Bool-cases, inl, inr, some, List, [], ◌∷◌, ◌++◌, has, ◌==◌, if◌then◌else◌, get_elem?, u32, arith,
  ◌<<<◌,
}
use ciexpert_usbdev.Transfer.{Transfer}
use ciexpert_usbdev.Context.{Ctx}
use ciexpert_usbdev.Bus.{inv_driving}
use ciexpert_usbdev.Transmit.{send_bit, transmit}
use ciexpert_usbdev.Transmit.Stuff.{
  next_run, settled, settled_next_le, due, body, run, body-append, run-append,
}
use ciexpert_usbdev.Transmit.Step.{
  Ones-next, Sends, done, step, Sends-append, IsSending, stuffed, stuff_step, bit_step,
  still-IsSending,
}

-- The stuffed bit that is due is sent first.
pub settle :
    {c : Ctx} {t : Transfer} {n : ℕ} (d2p : ℕ)
    → IsSending c t n
    → (c' : Ctx) × Sends d2p c (due n) c'
      × IsSending c' t (settled n)
      × (c'.bit ≡ c.bit)
      × (c'.byte ≡ c.byte)
settle {c} {t} {n} d2p s = elim (Bool-cases (n == 6)) [
  | inl e ↦
      let (runs, still) = stuff_step d2p s e in
      (stuffed c d2p, rw e (step false runs refl refl done), rw e still, refl, refl)
  | inr e ↦ (c, rw e done, rw e s, refl, refl)
]

pub settled_not_six : (n : ℕ) → (settled n == 6) ≡ false
settled_not_six n = ground arith

pub settled_lt : (n : ℕ) → n ≤ 6 → settled n < 6
settled_lt n h = ground arith

-- What a bit of the packet does to the line and to the register.
abbrev put : Ctx → ℕ → Bool → ℕ → ℕ → Ctx
put c d2p b bit byte = record c {
  driving = if b then c.driving else inv_driving c d2p;
  linebits = u32 (bit_or (c.linebits <<< 1) (if b then 1 else 0));
  bit = bit;
  byte = byte;
}

send_bit_mid :
    (c : Ctx) (d2p : ℕ) (t : Transfer) (d m k : ℕ)
    → c.bit ≡ m
    → c.byte ≡ k
    → (m <<< 1 == 0x100) ≡ false
    → send_bit c d2p t d ≡ put c d2p (has d m) (m <<< 1) k
unfolding send_bit
send_bit_mid c d2p t d m k eb ek e = rw (eb, ek, e) refl

send_bit_last :
    (c : Ctx) (d2p : ℕ) (t : Transfer) (d m k : ℕ)
    → c.bit ≡ m
    → c.byte ≡ k
    → (m <<< 1 == 0x100) ≡ true
    → (k + 1 == t.data_start) ≡ false
    → send_bit c d2p t d ≡ put c d2p (has d m) 1 (k + 1)
unfolding send_bit
send_bit_last c d2p t d m k eb ek e f = rw (eb, ek, e, f) refl

-- The bits of a byte from a mask on, `k` of them, and the masks.
abbrev pub bits_from : ℕ → ℕ → ℕ → List Bool
bits_from zero m d = []
bits_from (suc k) m d = has d m ∷ bits_from k (m <<< 1) d

abbrev pub byte_bits : ℕ → List Bool
byte_bits d = bits_from 8 1 d

abbrev shifts : ℕ → ℕ → ℕ
shifts zero m = m
shifts (suc k) m = shifts k (m <<< 1)

shifts-le : (k m : ℕ) → m ≤ shifts k m
shifts-le zero m = omega arith
shifts-le (suc k) m = omega (arith, shifts-le k (m <<< 1))

-- A stretch of bits has gone out, stuffed, and the transmitter stands at `bit` of `byte`.
pub record Reaches (d2p : ℕ) (c : Ctx) (t : Transfer) (n : ℕ) (bits : List Bool) (bit byte : ℕ)
    : Type 0 where
  pub after : Ctx
  pub sent : Sends d2p c (body n bits) after
  pub still : IsSending after t (run n bits)
  pub bit_at : after.bit ≡ bit
  pub byte_at : after.byte ≡ byte

-- One bit, with what is due in front of it, given what it does to the place.
one_bit :
    {c : Ctx} {t : Transfer} {n : ℕ} (d2p d bit byte : ℕ)
    → IsSending c t n
    → c.byte < t.num_bytes
    → get_elem? t.data_bytes c.byte ≡ some d
    → ((x : Ctx)
        → x.bit ≡ c.bit
        → x.byte ≡ c.byte
        → send_bit x d2p t d ≡ put x d2p (has d c.bit) bit byte)
    → Reaches d2p c t n (has d c.bit ∷ []) bit byte
one_bit {c} {t} {n} d2p d bit byte s lt f place =
    let (x, due_sent, settles, bit_same, byte_same) = settle d2p s in
    let b = has d c.bit in
    let runs : transmit x d2p ≡ some (put x d2p b bit byte) =
      bit_step d2p d settles (settled_not_six n) (omega (arith, byte_same)) (rw byte_same f)
      ∙ ap some (place x bit_same byte_same) in
    record {
      after = put x d2p b bit byte;
      sent = Sends-append due_sent (step b runs refl refl done);
      still =
          still-IsSending settles (put x d2p b bit byte).driving (put x d2p b bit byte).linebits bit
            byte (next_run (settled n) b) (settled_next_le n b s.few)
            (Ones-next (settled n) x.linebits b (settled_lt n s.few) settles.ones);
      bit_at = refl;
      byte_at = refl;
    }

pub reach_both :
    {d2p : ℕ} {c : Ctx} {t : Transfer} {n : ℕ} {xs ys : List Bool} {b k b' k' : ℕ}
    (r : Reaches d2p c t n xs b k)
    → Reaches d2p r.after t (run n xs) ys b' k'
    → Reaches d2p c t n (xs ++ ys) b' k'
reach_both {d2p} {c} {t} {n} {xs} {ys} r q = record {
  after = q.after;
  sent =
      subst (λ (l : List Bool). Sends d2p c l q.after) (sym (body-append n xs ys))
        (Sends-append r.sent q.sent);
  still = subst (λ (m : ℕ). IsSending q.after t m) (sym (run-append n xs ys)) q.still;
  bit_at = q.bit_at;
  byte_at = q.byte_at;
}

-- The rest of a byte, from a mask on.
pub send_byte :
    (k : ℕ) {c : Ctx} {t : Transfer} {n : ℕ} (d2p d : ℕ)
    → shifts (suc k) c.bit ≡ 0x100
    → 0 < c.bit
    → IsSending c t n
    → c.byte < t.num_bytes
    → get_elem? t.data_bytes c.byte ≡ some d
    → (c.byte + 1 == t.data_start) ≡ false
    → Reaches d2p c t n (bits_from (suc k) c.bit d) 1 (c.byte + 1)
send_byte zero {c} {t} {n} d2p d e pos s lt f go =
    one_bit d2p d 1 (c.byte + 1) s lt f
      λ x eb ek. send_bit_last x d2p t d c.bit c.byte eb ek (ground (arith, e)) go
send_byte (suc k) {c} {t} {n} d2p d e pos s lt f go =
    let part : (c.bit <<< 1 == 0x100) ≡ false =
      ground (arith, e, pos, shifts-le k (c.bit <<< 1 <<< 1)) in
    let r : Reaches d2p c t n (has d c.bit ∷ []) (c.bit <<< 1) c.byte =
      one_bit d2p d (c.bit <<< 1) c.byte s lt f
        λ x eb ek. send_bit_mid x d2p t d c.bit c.byte eb ek part in
    let rest =
      send_byte k d2p d (rw r.bit_at e) (omega (arith, r.bit_at)) r.still (rw r.byte_at lt)
        (rw r.byte_at f) (rw r.byte_at go) in
    let m = run n (has d c.bit ∷ []) in
    reach_both r (
      subst (λ (b : ℕ). Reaches d2p r.after t m (bits_from (suc k) b d) 1 (c.byte + 1)) r.bit_at
        (subst (λ (y : ℕ). Reaches d2p r.after t m (bits_from (suc k) r.after.bit d) 1 (y + 1))
          r.byte_at rest))
