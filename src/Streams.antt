-- ===== src/Streams.antt =====
-- usbdpi_stream.c: the byte streams of the streaming test. The generators of expected and of
-- scrambling bytes, the round robin over the streams, and their initial state.
pub mod Lfsr
pub mod Init
pub mod Packets
use ciexpert_usbdev.Base.{
  ℕ, zero, suc, ◌+◌, ◌-◌, ◌*◌, ◌/◌, ◌%◌, ◌^◌, bit_and, bit_xor, Bool, true, false, ◌||◌, Option,
  none, some, List, [], ◌∷◌, ltb, leb, ◌==◌, if◌then◌else◌, get_elem?, set, ◌>>=◌, u8, ◌<<<◌, ◌>>>◌,
}
use ciexpert_usbdev.Usb.{max_streams}
use ciexpert_usbdev.Context.{Ctx, Stream}

-- USBTST_LFSR_SEED, USBDPI_LFSR_SEED and RETRY_LFSR_SEED. The difference is one of unsigned words.
abbrev pub usbtst_lfsr_seed : ℕ → ℕ
usbtst_lfsr_seed s = u8 (0x10 + s * 7)

abbrev pub usbdpi_lfsr_seed : ℕ → ℕ
usbdpi_lfsr_seed s = u8 (0x9B + 2 ^ 32 - s * 7)

abbrev pub retry_lfsr_seed : ℕ → ℕ
retry_lfsr_seed s = u8 (0x24 + s * 7)

-- LFSR_ADVANCE
unfoldable pub lfsr_advance : ℕ → ℕ
lfsr_advance lfsr = u8 (
    bit_xor (u8 (lfsr <<< 1))
      (bit_and (bit_xor (bit_xor (bit_xor (lfsr >>> 1) (lfsr >>> 2)) (lfsr >>> 3)) (lfsr >>> 7)) 1))

-- The next stream in turn; `++id` is computed in a `uint8_t`.
abbrev pub next_id : ℕ → ℕ → ℕ
next_id id nstreams = if leb nstreams (u8 (id + 1)) then 0 else u8 (id + 1)

unfoldable pub in_stream_next : Ctx → ℕ × Ctx
in_stream_next ctx =
    let id = next_id ctx.stream_in ctx.nstreams in (id, record ctx { stream_in = id })

unfoldable pub out_stream_next : Ctx → ℕ × Ctx
out_stream_next ctx =
    let id = next_id ctx.stream_out ctx.nstreams in (id, record ctx { stream_out = id })

-- Sets up one stream; the pointer to received packets becomes NULL.
unfoldable pub stream_init : ℕ → ℕ → Bool → Bool → Bool → Bool → Stream
stream_init id xfr_type retrieve checking retrying send = record {
  id = u8 id;
  retrieve = retrieve;
  send = send;
  retrying = retrying;
  checking = checking;
  sig_expected = true;
  xfr_type = xfr_type;
  ep_in = u8 (1 + id);
  ep_out = u8 (1 + id);
  tst_seq = 0;
  tst_lfsr = usbtst_lfsr_seed id;
  dpi_lfsr = usbdpi_lfsr_seed id;
  retry_lfsr = retry_lfsr_seed id;
  nretries = 0;
  dpi_rewind_lfsr = usbdpi_lfsr_seed id;
  received = none;
}

-- The loop over the streams, `left` of them to go from `id` on.
unfoldable pub streams_loop :
    ℕ → ℕ → List ℕ → Bool → Bool → Bool → Bool → List Stream → Option (List Stream)
unfolding stream_init
streams_loop zero id xfr_types retrieve checking retrying send streams = some streams
streams_loop (suc left) id xfr_types retrieve checking retrying send streams = do
  xfr_type ← get_elem? xfr_types id
  old ← get_elem? streams id
  streams_loop left (id + 1) xfr_types retrieve checking retrying send
      (set streams id (stream_init id xfr_type retrieve checking retrying send))

unfoldable pub streams_init : Ctx → ℕ → List ℕ → Bool → Bool → Bool → Bool → Option (Bool × Ctx)
unfolding streams_loop
streams_init ctx nstreams xfr_types retrieve checking retrying send =
    if nstreams == 0 || ltb max_streams nstreams then some (false, ctx) else do
      streams ← streams_loop nstreams 0 xfr_types retrieve checking retrying send ctx.stream
      some (
        true,
        record ctx {
          nstreams = u8 nstreams;
          stream_in = 0;
          stream_out = u8 (nstreams - 1);
          stream = streams;
        },
      )
