-- ===== src/Crc/Detect.antt =====
-- What the checksums of usb_crc.c notice: a change of the input that is confined to a window as
-- wide as the register.
use ciexpert_usbdev.Base.{
  ℕ, suc, ◌+◌, ◌*◌, ◌^◌, ◌≤◌, ◌<◌, ◌≡◌, ◌≢◌, ◌⊎◌, inl, inr, refl, sym, ◌∙◌, bit_xor, arith, List,
  [], ◌∷◌, ◌++◌,
}
use ciexpert_usbdev.Base.Bits.{bit_xor_cancel_right, bit_xor_cancel_left, bit_xor-lt}
use ciexpert_usbdev.Crc.{crc_loop, crc5, crc16, crc16_bytes}
use ciexpert_usbdev.Crc.Loop.{crc_loop-lt, crc_loop_injective, crc_loop_split, crc_loop_absorb}

-- Two inputs as wide as the register, from one register value, end in different values.
module _ (k poly : ℕ) (low : 2 ^ k ≤ poly) (high : poly < 2 ^ suc k) where
  crc_loop_window :
      (crc u v : ℕ)
      → crc < 2 ^ suc k
      → u < 2 ^ suc k
      → v < 2 ^ suc k
      → crc_loop poly (suc k) crc u ≡ crc_loop poly (suc k) crc v
      → u ≡ v
  crc_loop_window crc u v c p q e = bit_xor_cancel_left u v crc (
      crc_loop_injective k poly low high (suc k) (bit_xor crc u) (bit_xor crc v) 0
        (bit_xor-lt (suc k) crc u c p) (bit_xor-lt (suc k) crc v c q)
        (sym (crc_loop_absorb (suc k) poly crc u p) ∙ e ∙ crc_loop_absorb (suc k) poly crc v q))

-- Both widths, with their polynomials.
crc5_window :
    (crc u v : ℕ)
    → crc < 32
    → u < 32
    → v < 32
    → crc_loop 0x14 5 crc u ≡ crc_loop 0x14 5 crc v
    → u ≡ v
crc5_window = crc_loop_window 4 0x14 (omega arith) (omega arith)

crc16_window :
    (crc u v : ℕ)
    → crc < 65536
    → u < 65536
    → v < 65536
    → crc_loop 0xA001 16 crc u ≡ crc_loop 0xA001 16 crc v
    → u ≡ v
crc16_window = crc_loop_window 15 0xA001 (omega arith) (omega arith)

-- `crc5` of a field of legal length is its loop, complemented.
crc5_legal : (dw n : ℕ) → 1 ≤ n → n ≤ 32 → crc5 dw n ≡ bit_xor (crc_loop 0x14 n 0x1f dw) 0x1f
unfolding crc5
crc5_legal dw n h g = ground arith

crc5_window_at :
    (k m lo u v hi : ℕ)
    → lo < 2 ^ k
    → u < 32
    → v < 32
    → k + (5 + m) ≤ 32
    → crc5 (lo + 2 ^ k * (u + 2 ^ 5 * hi)) (k + (5 + m))
      ≡ crc5 (lo + 2 ^ k * (v + 2 ^ 5 * hi)) (k + (5 + m))
    → u ≡ v
crc5_window_at k m lo u v hi l p q n e = crc5_window start u v start-lt p q (
    crc_loop_injective 4 0x14 (omega arith) (omega arith) m (crc_loop 0x14 5 start u)
      (crc_loop 0x14 5 start v) hi (wide 5 start u start-lt) (wide 5 start v start-lt)
      (sym (parts u p) ∙ whole ∙ parts v q))
  where
    wide : (n c x : ℕ) → c < 32 → crc_loop 0x14 n c x < 32
    wide n c x = crc_loop-lt 4 0x14 (omega arith) (omega arith) n c x

    start : ℕ
    start = crc_loop 0x14 k 0x1f lo

    start-lt : start < 32
    start-lt = wide k 0x1f lo (omega arith)

    parts :
        (x : ℕ)
        → x < 32
        → crc_loop 0x14 (k + (5 + m)) 0x1f (lo + 2 ^ k * (x + 2 ^ 5 * hi))
          ≡ crc_loop 0x14 m (crc_loop 0x14 5 start x) hi
    parts x h =
        crc_loop_split k (5 + m) 0x14 0x1f lo (x + 2 ^ 5 * hi) l
        ∙ crc_loop_split 5 m 0x14 start x hi h

    whole :
        crc_loop 0x14 (k + (5 + m)) 0x1f (lo + 2 ^ k * (u + 2 ^ 5 * hi))
        ≡ crc_loop 0x14 (k + (5 + m)) 0x1f (lo + 2 ^ k * (v + 2 ^ 5 * hi))
    whole = bit_xor_cancel_right _ _ 0x1f (
        sym (crc5_legal _ (k + (5 + m)) (omega arith) n)
        ∙ e
        ∙ crc5_legal _ (k + (5 + m)) (omega arith) n)

-- Two token fields of one length of at most 32 bits that differ only within five adjacent bits,
-- at any place, have different CRC5s.
pub crc5_burst :
    (k m lo u v hi : ℕ)
    → lo < 2 ^ k
    → u < 32
    → v < 32
    → k + (5 + m) ≤ 32
    → u ≢ v
    → crc5 (lo + 2 ^ k * (u + 2 ^ 5 * hi)) (k + (5 + m))
      ≢ crc5 (lo + 2 ^ k * (v + 2 ^ 5 * hi)) (k + (5 + m))
crc5_burst k m lo u v hi l p q n differ e = differ (crc5_window_at k m lo u v hi l p q n e)

pub crc16_bytes-lt : (crc : ℕ) (ds : List ℕ) → crc < 65536 → crc16_bytes crc ds < 65536
unfolding crc16_bytes
crc16_bytes-lt crc [] h = h
crc16_bytes-lt crc (d ∷ ds) h =
    crc16_bytes-lt (crc_loop 0xA001 8 crc d) ds
      (crc_loop-lt 15 0xA001 (omega arith) (omega arith) 8 crc d h)

-- A CRC16 fits two bytes.
pub crc16-lt : (ds : List ℕ) → crc16 ds < 65536
unfolding crc16
crc16-lt ds =
    bit_xor-lt 16 (crc16_bytes 0xffff ds) 0xffff (crc16_bytes-lt 0xffff ds (omega arith))
      (omega arith)

crc16_bytes-append :
    (crc : ℕ) (xs ys : List ℕ) → crc16_bytes crc (xs ++ ys) ≡ crc16_bytes (crc16_bytes crc xs) ys
unfolding crc16_bytes
crc16_bytes-append crc [] ys = refl
crc16_bytes-append crc (x ∷ xs) ys = crc16_bytes-append (crc_loop 0xA001 8 crc x) xs ys

crc16_bytes_injective :
    (c d : ℕ) (ds : List ℕ) → c < 65536 → d < 65536 → crc16_bytes c ds ≡ crc16_bytes d ds → c ≡ d
unfolding crc16_bytes
crc16_bytes_injective c d [] p q e = e
crc16_bytes_injective c d (x ∷ xs) p q e =
    crc_loop_injective 15 0xA001 (omega arith) (omega arith) 8 c d x p q (
      crc16_bytes_injective (crc_loop 0xA001 8 c x) (crc_loop 0xA001 8 d x) xs
        (crc_loop-lt 15 0xA001 (omega arith) (omega arith) 8 c x p)
        (crc_loop-lt 15 0xA001 (omega arith) (omega arith) 8 d x q) e)

crc16_window_at :
    (pre post : List ℕ) (a b c d : ℕ)
    → a < 256
    → b < 256
    → c < 256
    → d < 256
    → crc16 (pre ++ a ∷ b ∷ post) ≡ crc16 (pre ++ c ∷ d ∷ post)
    → (a ≡ c) × (b ≡ d)
unfolding crc16 crc16_bytes
crc16_window_at pre post a b c d ha hb hc hd e = omega (
  arith,
  crc16_window start (a + 2 ^ 8 * b) (c + 2 ^ 8 * d) start-lt (omega arith) (omega arith)
      (parts a b ha ∙ middle ∙ sym (parts c d hc)),
)
  where
    start : ℕ
    start = crc16_bytes 0xffff pre

    start-lt : start < 65536
    start-lt = crc16_bytes-lt 0xffff pre (omega arith)

    wide : (n r x : ℕ) → r < 65536 → crc_loop 0xA001 n r x < 65536
    wide n r x = crc_loop-lt 15 0xA001 (omega arith) (omega arith) n r x

    parts :
        (x y : ℕ)
        → x < 256
        → crc_loop 0xA001 16 start (x + 2 ^ 8 * y) ≡ crc_loop 0xA001 8 (crc_loop 0xA001 8 start x) y
    parts x y h = crc_loop_split 8 8 0xA001 start x y h

    middle :
        crc_loop 0xA001 8 (crc_loop 0xA001 8 start a) b
        ≡ crc_loop 0xA001 8 (crc_loop 0xA001 8 start c) d
    middle =
        crc16_bytes_injective _ _ post (wide 8 _ b (wide 8 start a start-lt))
          (wide 8 _ d (wide 8 start c start-lt))
          (sym (crc16_bytes-append 0xffff pre (a ∷ b ∷ post))
            ∙ bit_xor_cancel_right _ _ 0xffff e
            ∙ crc16_bytes-append 0xffff pre (c ∷ d ∷ post))

-- Two data fields that differ only within two adjacent bytes have different CRC16s.
pub crc16_burst :
    (pre post : List ℕ) (a b c d : ℕ)
    → a < 256
    → b < 256
    → c < 256
    → d < 256
    → (a ≢ c) ⊎ (b ≢ d)
    → crc16 (pre ++ a ∷ b ∷ post) ≢ crc16 (pre ++ c ∷ d ∷ post)
crc16_burst pre post a b c d ha hb hc hd (inl differ) e =
    differ (crc16_window_at pre post a b c d ha hb hc hd e).0
crc16_burst pre post a b c d ha hb hc hd (inr differ) e =
    differ (crc16_window_at pre post a b c d ha hb hc hd e).1

-- A CRC5 of a legal length fits five bits.
pub crc5-lt : (dw n : ℕ) → 1 ≤ n → n ≤ 32 → crc5 dw n < 32
crc5-lt dw n h g = rw (crc5_legal dw n h g) (
    bit_xor-lt 5 (crc_loop 0x14 n 0x1f dw) 0x1f
      (crc_loop-lt 4 0x14 (omega arith) (omega arith) n 0x1f dw (omega arith)) (omega arith))
