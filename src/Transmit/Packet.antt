-- ===== src/Transmit/Packet.antt =====
-- usbdpi.c, ST_SEND: the host sends exactly the bits of a packet, stuffed.
use ciexpert_usbdev.Base.{
  ◌∙◌, ℕ, zero, suc, ◌+◌, ◌≤◌, ◌<◌, ◌≡◌, refl, subst, ap, Bool, true, false, ◌⊎◌, some, List, [],
  ◌∷◌, ◌++◌, ◌==◌, get_elem?, arith, length, take, drop, length-drop, length-take,
}
use ciexpert_usbdev.Usb.{st_eop}
use ciexpert_usbdev.Transfer.{Transfer}
use ciexpert_usbdev.Context.{Ctx}
use ciexpert_usbdev.Bus.{set_driving}
use ciexpert_usbdev.Transmit.{transmit}
use ciexpert_usbdev.Transmit.Stuff.{settled, run, stuff, unstuff, unstuff-stuff}
use ciexpert_usbdev.Transmit.Step.{Sends, done, Sends-append, IsSending, end_step}
use ciexpert_usbdev.Transmit.Byte.{
  bits_from, byte_bits, Reaches, settle, settled_not_six, reach_both, send_byte,
}

abbrev pub packet_bits : List ℕ → List Bool
packet_bits [] = []
packet_bits (d ∷ ds) = byte_bits d ++ packet_bits ds

-- What stands first in the rest of a packet of `e` bytes.
rest_first :
    (k e : ℕ) (xs : List ℕ) (b : ℕ) (bs : List ℕ)
    → drop k (take e xs) ≡ b ∷ bs
    → (k < e) × (get_elem? xs k ≡ some b) × (drop (k + 1) (take e xs) ≡ bs)
rest_first zero zero xs b bs h = cc
rest_first (suc k) zero xs b bs h = cc
rest_first zero (suc e) [] b bs h = cc
rest_first (suc k) (suc e) [] b bs h = cc
rest_first zero (suc e) (x ∷ xs) b bs h =
    let y : some x ≡ some b = cc in let ys : take e xs ≡ bs = cc in (omega arith, y, ys)
rest_first (suc k) (suc e) (x ∷ xs) b bs h =
    let (lt, found, rest) = rest_first k e xs b bs h in
    let shift : suc k + 1 ≡ suc (k + 1) = omega arith in (omega arith, found, rw shift rest)

send_bytes :
    (bs : List ℕ) {c : Ctx} {t : Transfer} {n : ℕ} (d2p : ℕ)
    → IsSending c t n
    → c.bit ≡ 1
    → c.byte ≤ t.num_bytes
    → t.num_bytes ≤ length t.data_bytes
    → drop c.byte (take t.num_bytes t.data_bytes) ≡ bs
    → (t.data_start ≤ c.byte) ⊎ (t.num_bytes < t.data_start)
    → Reaches d2p c t n (packet_bits bs) 1 t.num_bytes
send_bytes [] {c} {t} {n} d2p s b le fits rest stop = record {
  after = c;
  sent = done;
  still = s;
  bit_at = b;
  byte_at = omega (
    arith,
    ap length rest,
    length-drop c.byte (take t.num_bytes t.data_bytes),
    length-take t.num_bytes t.data_bytes,
  );
}
send_bytes (d ∷ ds) {c} {t} {n} d2p s b le fits rest stop =
    let (lt, found, next) = rest_first c.byte t.num_bytes t.data_bytes d ds rest in
    let go : (c.byte + 1 == t.data_start) ≡ false = ground arith in
    let r : Reaches d2p c t n (byte_bits d) 1 (c.byte + 1) =
      subst (λ (m : ℕ). Reaches d2p c t n (bits_from 8 m d) 1 (c.byte + 1)) b
        (send_byte 7 d2p d (rw b refl) (omega (arith, b)) s lt found go) in
    reach_both r (
      send_bytes ds d2p r.still r.bit_at (omega (arith, r.byte_at)) fits (rw r.byte_at next)
        (ground (arith, r.byte_at)))

-- The rest of a packet has been sent, and the packet is about to end.
pub record SentAll (d2p : ℕ) (bs : List ℕ) (c : Ctx) (t : Transfer) (n : ℕ) : Type 0 where
  pub after : Ctx
  pub sent : Sends d2p c (stuff n (packet_bits bs)) after
  pub still : IsSending after t (settled (run n (packet_bits bs)))
  pub byte_at : after.byte ≡ t.num_bytes

pub send_all :
    (bs : List ℕ) (c : Ctx) (t : Transfer) (n d2p : ℕ)
    → IsSending c t n
    → c.bit ≡ 1
    → c.byte ≤ t.num_bytes
    → t.num_bytes ≤ length t.data_bytes
    → drop c.byte (take t.num_bytes t.data_bytes) ≡ bs
    → (t.data_start ≤ c.byte) ⊎ (t.num_bytes < t.data_start)
    → SentAll d2p bs c t n
send_all bs c t n d2p s b le fits rest stop =
    let r = send_bytes bs d2p s b le fits rest stop in
    let (e, flushed, settles, _, byte_same) = settle d2p r.still in
    record {
      after = e;
      sent = Sends-append r.sent flushed;
      still = settles;
      byte_at = byte_same ∙ r.byte_at;
    }

-- While it sends a packet that no other follows, the host puts on the line exactly the bits of the
-- bytes that are left, with a zero after every six ones, counting the `n` ones in front of them. A
-- receiver that drops the stuffed bits gets the bytes' bits back. Then comes the end of the packet.
pub transmit-stuff :
    (bs : List ℕ) (c : Ctx) (t : Transfer) (n d2p : ℕ)
    → IsSending c t n
    → c.bit ≡ 1
    → c.byte ≤ t.num_bytes
    → t.num_bytes ≤ length t.data_bytes
    → drop c.byte (take t.num_bytes t.data_bytes) ≡ bs
    → (t.data_start ≤ c.byte) ⊎ (t.num_bytes < t.data_start)
    → (e : Ctx) × Sends d2p c (stuff n (packet_bits bs)) e
      × (unstuff n (stuff n (packet_bits bs)) ≡ packet_bits bs)
      × (transmit e d2p
          ≡ some (record e { state = st_eop; driving = set_driving e d2p 0 true; bit = 1 }))
transmit-stuff bs c t n d2p s b le fits rest stop =
    let a = send_all bs c t n d2p s b le fits rest stop in
    (
      a.after,
      a.sent,
      unstuff-stuff n (packet_bits bs),
      end_step d2p a.still (settled_not_six (run n (packet_bits bs))) (omega (arith, a.byte_at)),
    )
