-- ===== src/Streams/Lfsr.antt =====
-- The generators of usbdpi_stream.c, and the turns of the streams.
use ciexpert_usbdev.Base.{
  ℕ, zero, suc, ◌+◌, ◌%◌, ◌≤◌, ◌<◌, ◌≡◌, ◌≢◌, refl, ◌∙◌, arith, Bool, true, not, ◌&&◌, ◌||◌, ◌==◌,
  ==_iff, ltb, leb, Bool-cases, inl, inr,
}
use ciexpert_usbdev.Base.Bits.{holds_below, holds_below_lem}
use native.Mathlib.Nat.{mod_self, mod-eq_of_lt, mod-add-mod}
use ciexpert_usbdev.Context.{Ctx}
use ciexpert_usbdev.Streams.{
  lfsr_advance, usbtst_lfsr_seed, usbdpi_lfsr_seed, retry_lfsr_seed, in_stream_next,
  out_stream_next, next_id,
}

abbrev pub advance_times : ℕ → ℕ → ℕ
advance_times zero x = x
advance_times (suc n) x = advance_times n (lfsr_advance x)

-- After `n` rounds from `x` for the first time in `x` again, counted from round `k`.
returns_first : ℕ → ℕ → ℕ → Bool
returns_first zero x y = y == x
returns_first (suc n) x y = not (y == x) && returns_first n x (lfsr_advance y)

byte_table :
    holds_below 256 (λ x. ltb (lfsr_advance x) 256 && (x == 0 || not (lfsr_advance x == 0))) ≡ true
unfolding holds_below lfsr_advance
byte_table = refl

orbit_table : holds_below 256 (λ x. x == 0 || returns_first 254 x (lfsr_advance x)) ≡ true
unfolding holds_below lfsr_advance returns_first
orbit_table = refl

returns_first_sound :
    (n x y : ℕ)
    → returns_first n x y ≡ true
    → (advance_times n y ≡ x) × ((k : ℕ) → k < n → advance_times k y ≢ x)
unfolding returns_first
returns_first_sound zero x y h = ((==_iff y x).0 h, λ k l. elim l [ ])
returns_first_sound (suc n) x y h =
    let rest : returns_first n x (lfsr_advance y) ≡ true = ground arith in
    let differs : y ≢ x = ground arith in
    let (last, before) = returns_first_sound n x (lfsr_advance y) rest in
    (last, λ k l. steps n x y k l differs before)
  where
    steps :
        (n x y k : ℕ)
        → k < suc n
        → y ≢ x
        → ((j : ℕ) → j < n → advance_times j (lfsr_advance y) ≢ x)
        → advance_times k y ≢ x
    steps n x y zero l d b = d
    steps n x y (suc k) l d b = b k (omega arith)

-- The generator keeps a nonzero byte a nonzero byte.
pub lfsr_advance_nonzero : (x : ℕ) → x < 256 → x ≢ 0 → (lfsr_advance x < 256) × (lfsr_advance x ≢ 0)
lfsr_advance_nonzero x h ne = ground (
  arith,
  holds_below_lem 256 (λ y. ltb (lfsr_advance y) 256 && (y == 0 || not (lfsr_advance y == 0))) x
      byte_table h,
)

-- The generator is one of full period: from every nonzero byte it comes back after 255 rounds, and
-- after no smaller number of rounds but none.
pub lfsr_advance_period :
    (x : ℕ)
    → x < 256
    → x ≢ 0
    → (advance_times 255 x ≡ x) × ((k : ℕ) → 0 < k → k < 255 → advance_times k x ≢ x)
lfsr_advance_period x h ne =
    let turn : returns_first 254 x (lfsr_advance x) ≡ true = ground (
      arith,
      holds_below_lem 256 (λ y. y == 0 || returns_first 254 y (lfsr_advance y)) x orbit_table h,
    ) in
    let (last, before) = returns_first_sound 254 x (lfsr_advance x) turn in
    (last, λ k p l. later x k p l before)
  where
    later :
        (x k : ℕ)
        → 0 < k
        → k < 255
        → ((j : ℕ) → j < 254 → advance_times j (lfsr_advance x) ≢ x)
        → advance_times k x ≢ x
    later x zero p l b = absurd (omega arith)
    later x (suc k) p l b = b k (omega arith)

-- The three seeds of every one of the 15 streams are nonzero bytes.
pub seeds_nonzero :
    (id : ℕ)
    → id < 15
    → ((usbtst_lfsr_seed id < 256) × (usbtst_lfsr_seed id ≢ 0))
      × ((usbdpi_lfsr_seed id < 256) × (usbdpi_lfsr_seed id ≢ 0))
      × ((retry_lfsr_seed id < 256) × (retry_lfsr_seed id ≢ 0))
seeds_nonzero id h = omega arith

next_id_mod : (id n : ℕ) → id < n → n ≤ 15 → next_id id n ≡ (id + 1) % n
next_id_mod id n h g = elim (Bool-cases (leb n (id + 1))) [
  | inl last ↦ ground (arith, mod_self n)
  | inr more ↦ ground (arith, mod-eq_of_lt {n = id + 1} {m = n})
]

-- `k` turns of IN, and of OUT.
abbrev pub in_turns : ℕ → Ctx → Ctx
in_turns zero c = c
in_turns (suc k) c = in_turns k (in_stream_next c).1

abbrev pub out_turns : ℕ → Ctx → Ctx
out_turns zero c = c
out_turns (suc k) c = out_turns k (out_stream_next c).1

turn_mod : (id n k : ℕ) → id < n → n ≤ 15 → (next_id id n + k) % n ≡ (id + suc k) % n
turn_mod id n k h g =
    let regroup : id + 1 + k ≡ id + suc k = omega arith in
    rw (next_id_mod id n h g, mod-add-mod (id + 1) n k, regroup)

next_id-lt : (id n : ℕ) → id < n → n ≤ 15 → next_id id n < n
next_id-lt id n h g = ground arith

in_turns_mod :
    (k : ℕ) (c : Ctx)
    → c.stream_in < c.nstreams
    → c.nstreams ≤ 15
    → (in_turns k c).stream_in ≡ (c.stream_in + k) % c.nstreams
unfolding in_stream_next
in_turns_mod zero c i n = ground (arith, mod-eq_of_lt {n = c.stream_in + 0} {m = c.nstreams})
in_turns_mod (suc k) c i n =
    in_turns_mod k (in_stream_next c).1 (next_id-lt c.stream_in c.nstreams i n) n
    ∙ turn_mod c.stream_in c.nstreams k i n

out_turns_mod :
    (k : ℕ) (c : Ctx)
    → c.stream_out < c.nstreams
    → c.nstreams ≤ 15
    → (out_turns k c).stream_out ≡ (c.stream_out + k) % c.nstreams
unfolding out_stream_next
out_turns_mod zero c i n = ground (arith, mod-eq_of_lt {n = c.stream_out + 0} {m = c.nstreams})
out_turns_mod (suc k) c i n =
    out_turns_mod k (out_stream_next c).1 (next_id-lt c.stream_out c.nstreams i n) n
    ∙ turn_mod c.stream_out c.nstreams k i n

-- The streams take turns: after `k` turns it is the turn of stream `(start + k) % nstreams`, for IN
-- and for OUT, so each of the streams is served once in every `nstreams` turns.
turns_mod :
    (k : ℕ) (c : Ctx)
    → c.stream_in < c.nstreams
    → c.stream_out < c.nstreams
    → c.nstreams ≤ 15
    → ((in_turns k c).stream_in ≡ (c.stream_in + k) % c.nstreams)
      × ((out_turns k c).stream_out ≡ (c.stream_out + k) % c.nstreams)
turns_mod k c i o n = (in_turns_mod k c i n, out_turns_mod k c o n)
