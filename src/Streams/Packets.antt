-- ===== src/Streams/Packets.antt =====
-- usbdpi_stream.c: the packets of a stream. `stream_data_check`, `stream_data_gen`,
-- `stream_data_process` and `stream_sig_check`. A stream is its place in `ctx->stream`, a received
-- packet its place in the pool. The text that these functions print is left out.
pub mod Reply
use ciexpert_usbdev.Base.{
  ℕ, zero, suc, ◌+◌, ◌-◌, ◌*◌, ◌/◌, ◌%◌, ◌^◌, bit_xor, Bool, true, false, not, ◌&&◌, ◌||◌, Option,
  none, some, List, [], ◌∷◌, ◌++◌, ltb, leb, ◌==◌, if◌then◌else◌, get_elem?, set, assert, ◌>>=◌,
  ◌>>◌, u16, sub32, drop, take,
}
use ciexpert_usbdev.Usb.{type_isochronous, max_data, pid_out, pid_data0, data_toggle_advance}
use ciexpert_usbdev.Crc.{crc16}
use ciexpert_usbdev.Utils.{get_le16, get_le32}
use ciexpert_usbdev.Transfer.{
  Transfer, read, slice, data_stage, token_and_data, transfer_data_field, transfer_data_pid,
  transfer_length,
}
use ciexpert_usbdev.Context.{Ctx, Stream, on_transfer, transfer_alloc}
use ciexpert_usbdev.Streams.{lfsr_advance}

abbrev pub stream_signature_head : ℕ
stream_signature_head = 0x579EA01A

abbrev pub stream_signature_tail : ℕ
stream_signature_tail = 0x160AE975

abbrev pub sizeof_stream_signature : ℕ
sizeof_stream_signature = 0x10

-- Changes a stream in its place.
abbrev pub set_stream : Ctx → ℕ → Stream → Ctx
set_stream ctx k s = record ctx { stream = set ctx.stream k s }

-- Compares bytes with the generator: whether all agree, and the generator behind them.
unfoldable pub check_bytes : ℕ → List ℕ → Bool × ℕ
check_bytes lfsr [] = (true, lfsr)
check_bytes lfsr (recvd ∷ ds) =
    let (ok, last) = check_bytes (lfsr_advance lfsr) ds in (recvd == lfsr && ok, last)

-- The content of a packet with a good checksum, `num_bytes` of data from place `idx` on.
unfoldable pub check_content : Ctx → ℕ → Stream → Transfer → ℕ → ℕ → ℕ → Bool → Option (Bool × Ctx)
check_content ctx k s rx idx num_bytes offset accept = do
  pid ← get_elem? ctx.ep_in s.ep_in
  first ← get_elem? rx.data_bytes 0
  let in_step = first == pid
  let c =
      if in_step && accept
      then record ctx { ep_in = set ctx.ep_in s.ep_in (data_toggle_advance pid) }
      else ctx
  if s.checking
      then (do
        field ← read rx.data_bytes (idx + offset) (sub32 num_bytes offset)
        let (same, last) = check_bytes s.tst_lfsr field
        let ok = in_step && accept && same
        some (ok, if ok then set_stream c k (record s { tst_lfsr = last }) else c))
      else some (in_step && accept, c)

-- `num_bytes - 3` is computed in 32 bits.
unfoldable pub stream_data_check : Ctx → ℕ → ℕ → ℕ → Bool → Option (Bool × Ctx)
stream_data_check ctx k rx_at offset accept = do
  s ← get_elem? ctx.stream k
  rx ← get_elem? ctx.transfer_pool rx_at
  let idx = rx.data_start + 1
  if leb max_data rx.num_bytes || ltb rx.num_bytes (idx + 1 + offset)
      then some (false, ctx)
      else (do
        let num_bytes = sub32 rx.num_bytes 3
        check ← read rx.data_bytes (idx + num_bytes) 2
        rx_crc ← get_le16 check
        if rx_crc == u16 (crc16 (slice rx.data_bytes idx num_bytes))
            then check_content ctx k s rx idx num_bytes offset accept
            else some (false, ctx))

-- The next `len` bytes of the generator, and the generator behind them.
unfoldable pub generate : ℕ → ℕ → List ℕ × ℕ
generate zero lfsr = ([], lfsr)
generate (suc len) lfsr = let (ds, last) = generate len (lfsr_advance lfsr) in (lfsr ∷ ds, last)

unfoldable pub stream_data_gen : Ctx → ℕ → ℕ → Option (Option ℕ × Ctx)
stream_data_gen ctx k len = do
  s ← get_elem? ctx.stream k
  (tr, c) ← transfer_alloc ctx
  elim tr [
    | none ↦ some (none, c)
    | some p ↦ do
      pid ← get_elem? c.ep_in s.ep_in
      let (field, last) = generate len s.tst_lfsr
      d ← on_transfer c (some p) λ t. data_stage t pid len field
      some (
        some p,
        set_stream (record d { ep_in = set d.ep_in s.ep_in (data_toggle_advance pid) }) k
            (record s { tst_lfsr = last }),
      )
  ]

-- The bytes XORed with the generator, and the generator behind them.
unfoldable pub scramble : ℕ → List ℕ → List ℕ × ℕ
scramble lfsr [] = ([], lfsr)
scramble lfsr (recvd ∷ ds) =
    let (rest, last) = scramble (lfsr_advance lfsr) ds in (bit_xor recvd lfsr ∷ rest, last)

-- The data field of the reply: for an isochronous stream the signature stays in front, with the
-- generator's value in its fifth byte.
unfoldable pub reply_field : Stream → Transfer → ℕ → ℕ → Option (List ℕ × ℕ)
reply_field s rx sp num_bytes =
    if s.xfr_type == type_isochronous
    then (do
      assert (leb sizeof_stream_signature num_bytes)
      signature ← read rx.data_bytes sp sizeof_stream_signature
      field ←
          read rx.data_bytes (sp + sizeof_stream_signature) (num_bytes - sizeof_stream_signature)
      let (scrambled, last) = scramble s.dpi_lfsr field
      some (set signature 4 s.dpi_lfsr ++ scrambled, last))
    else (do field ← read rx.data_bytes sp num_bytes; some (scramble s.dpi_lfsr field))

-- The reply must not be built in the received packet itself, whose bytes it is made from: to process a
-- packet that is on the free list is a fault.
unfoldable pub stream_data_process : Ctx → ℕ → ℕ → Option (Option ℕ × Ctx)
stream_data_process ctx k rx_at = do
  s ← get_elem? ctx.stream k
  rx ← get_elem? ctx.transfer_pool rx_at
  let num_bytes = sub32 (transfer_length rx) 3
  elim (transfer_data_field rx) [
    | none ↦ some (none, ctx)
    | some sp ↦ do
      (reply, c) ← transfer_alloc ctx
      p ← reply
      assert (not (p == rx_at))
      pid ← get_elem? c.ep_out s.ep_out
      (field, last) ← reply_field s rx sp num_bytes
      d ← on_transfer c (some p) (token_and_data pid_out c.dev_address s.ep_out pid num_bytes field)
      some (some p, set_stream d k (record s { dpi_rewind_lfsr = s.dpi_lfsr; dpi_lfsr = last }))
  ]

-- The length that a packet with a signature has.
abbrev pub signed_length : Stream → ℕ → Bool
signed_length s len =
    if s.xfr_type == type_isochronous
    then leb (3 + sizeof_stream_signature) len
    else len == 3 + sizeof_stream_signature

-- A signature that is in order sets the stream's sequence number and generator, and the toggle.
unfoldable pub accept_signature : Ctx → ℕ → Stream → Transfer → ℕ → ℕ → Option (Bool × Ctx)
accept_signature ctx k s rx seq lfsr =
    if s.xfr_type == type_isochronous
    then (if ltb seq s.tst_seq
        then some (false, ctx)
        else some (
          true,
          set_stream (record ctx { ep_in = set ctx.ep_in s.ep_in pid_data0 }) k
              (record s { tst_seq = u16 (seq + 1); tst_lfsr = lfsr }),
        ))
    else if seq == s.tst_seq
    then (do
      pid ← transfer_data_pid rx
      some (
        true,
        set_stream (record ctx { ep_in = set ctx.ep_in s.ep_in (data_toggle_advance pid) }) k
            (record s { tst_seq = u16 (s.tst_seq + 1); tst_lfsr = lfsr }),
      ))
    else some (false, ctx)

unfoldable pub stream_sig_check : Ctx → ℕ → ℕ → Option (Bool × Ctx)
stream_sig_check ctx k rx_at = do
  s ← get_elem? ctx.stream k
  rx ← get_elem? ctx.transfer_pool rx_at
  if signed_length s (transfer_length rx)
      then elim (transfer_data_field rx) [
        | none ↦ some (false, ctx)
        | some at ↦ do
          sig ← read rx.data_bytes at sizeof_stream_signature
          num_bytes ← get_le32 (drop 8 sig)
          head ← get_le32 sig
          tail ← get_le32 (drop 12 sig)
          if head == stream_signature_head
                && tail == stream_signature_tail
                && ltb 0 num_bytes
                && ltb num_bytes 0x10000000
              then (do
                seq ← get_le16 (drop 6 sig)
                lfsr ← get_elem? sig 4
                accept_signature ctx k s rx seq lfsr)
              else some (false, ctx)
      ]
      else some (false, ctx)
