-- ===== src/Streams/Packets/Reply.antt =====
-- usbdpi_stream.c: what `stream_data_check` compares with, and the reply that
-- `stream_data_process` builds.
use ciexpert_usbdev.Base.{
  ℕ, zero, suc, ◌+◌, ◌≤◌, ◌<◌, ◌≡◌, ◌↔◌, refl, sym, subst, ap, ap₂, Bool, true, false, Bool-cases,
  ◌&&◌, inl, inr, some, List, [], ◌∷◌, ◌==◌, ==_iff, get_elem?, length, arith,
}
use ciexpert_usbdev.Base.Bits.{bit_xor_undo}
use ciexpert_usbdev.Usb.{type_isochronous, max_data}
use ciexpert_usbdev.Transfer.{Transfer, transfer_init, slice}
use ciexpert_usbdev.Transfer.DataStage.{IsDataPid}
use ciexpert_usbdev.Context.{Ctx, Stream}
use ciexpert_usbdev.Context.Send.{stored}
use ciexpert_usbdev.Streams.{lfsr_advance}
use ciexpert_usbdev.Streams.Packets.{check_bytes, generate, scramble}

same_byte : (x : ℕ) → (x == x) ≡ true
same_byte x = ground arith

-- Bytes that are generated pass the check, and both leave the generator in one state.
pub check_bytes-generate :
    (n lfsr : ℕ) → check_bytes lfsr (generate n lfsr).0 ≡ (true, (generate n lfsr).1)
unfolding check_bytes generate
check_bytes-generate zero lfsr = refl
check_bytes-generate (suc n) lfsr = rw (same_byte lfsr) (check_bytes-generate n (lfsr_advance lfsr))

-- Only they do.
pub generate-check_bytes :
    (lfsr : ℕ) (ds : List ℕ) → (check_bytes lfsr ds).0 ≡ true → ds ≡ (generate (length ds) lfsr).0
unfolding check_bytes generate
generate-check_bytes lfsr [] h = refl
generate-check_bytes lfsr (d ∷ ds) h = elim (Bool-cases (d == lfsr)) [
  | inl e ↦
      ap₂ (λ (b : ℕ) (l : List ℕ). b ∷ l) ((==_iff d lfsr).0 e)
        (generate-check_bytes (lfsr_advance lfsr) ds (both_right (d == lfsr) _ h))
  | inr e ↦ absurd (not_left (d == lfsr) _ e h)
]
  where
    both_right : (a b : Bool) → (a && b) ≡ true → b ≡ true
    both_right true b q = q
    both_right false b q = cc

    not_left : (a b : Bool) → a ≡ false → (a && b) ≡ true → ⊥
    not_left true b q r = cc
    not_left false b q r = cc

-- The test of received data passes exactly the bytes that the stream's generator gives.
pub check_bytes_iff :
    (lfsr : ℕ) (ds : List ℕ)
    → ((check_bytes lfsr ds).0 ≡ true) ↔ (ds ≡ (generate (length ds) lfsr).0)
check_bytes_iff lfsr ds = (
  generate-check_bytes lfsr ds,
  λ e.
      subst (λ (l : List ℕ). (check_bytes lfsr l).0 ≡ true) (sym e)
        (ap (λ (r : Bool × ℕ). r.0) (check_bytes-generate (length ds) lfsr)),
)

pub length-scramble : (lfsr : ℕ) (ds : List ℕ) → length (scramble lfsr ds).0 ≡ length ds
unfolding scramble
length-scramble lfsr [] = refl
length-scramble lfsr (d ∷ ds) = ap suc (length-scramble (lfsr_advance lfsr) ds)

-- The device, which has the same generator, gets back what it sent.
pub scramble_twice :
    (lfsr : ℕ) (ds : List ℕ) → scramble lfsr (scramble lfsr ds).0 ≡ (ds, (scramble lfsr ds).1)
unfolding scramble
scramble_twice lfsr [] = refl
scramble_twice lfsr (d ∷ ds) =
    rw (bit_xor_undo d lfsr)
      (ap (λ (r : List ℕ × ℕ). (d ∷ r.0, r.1)) (scramble_twice (lfsr_advance lfsr) ds))

-- A received packet of one data field.
pub record IsDataPacket (field : List ℕ) (rx : Transfer) : Type 0 where
  pub start : rx.data_start ≡ 0
  pub ends : rx.num_bytes ≡ length field + 3
  pub size : length rx.data_bytes ≡ max_data
  pub content : slice rx.data_bytes 1 (length field) ≡ field

-- The stream `k` is not isochronous, the packet at `rx_at` is whole, and another descriptor is free.
pub record CanReply (c : Ctx) (k rx_at p : ℕ) (s : Stream) (rx t : Transfer) (pid : ℕ)
    (field : List ℕ) : Type 0 where
  pub stream : get_elem? c.stream k ≡ some s
  pub bulk : (s.xfr_type == type_isochronous) ≡ false
  pub received : get_elem? c.transfer_pool rx_at ≡ some rx
  pub packet : IsDataPacket field rx
  pub short : length field ≤ 64
  pub first_free : c.free ≡ some p
  pub apart : (p == rx_at) ≡ false
  pub free_one : get_elem? c.transfer_pool p ≡ some t
  pub size : length t.data_bytes ≡ max_data
  pub address : c.dev_address < 128
  pub endpoint : s.ep_out < 16
  pub toggle : get_elem? c.ep_out s.ep_out ≡ some pid
  pub data_pid : IsDataPid pid

-- The context once the descriptor for the reply is allocated.
abbrev allocated : Ctx → ℕ → Transfer → Ctx
allocated c p t = record (stored c p (transfer_init t)) { free = t.next }
