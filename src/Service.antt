-- ===== src/Service.antt =====
-- usbdpi_stream.c: `streams_service`, which moves packets between the device and the streams while
-- the streaming test runs. A function stands for the code of one host state. A stream's received
-- packets are the descriptors that lead from `received` along their `next` fields.
pub mod Chains
pub mod Owned
pub mod Queue
pub mod Discard
pub mod Effects
pub mod Calls
pub mod Flow
pub mod Retries
pub mod Out
pub mod In
pub mod Reply
use ciexpert_usbdev.Base.{
  ℕ, zero, suc, ◌+◌, ◌*◌, ◌%◌, ◌^◌, Bool, true, false, Option, none, some, ltb, ◌==◌, if◌then◌else◌,
  get_elem?, set, assert, ◌>>=◌, ◌>>◌, u32, sub32,
}
use ciexpert_usbdev.Transfer.{Transfer}
use ciexpert_usbdev.Context.{Ctx, Stream, transfer_release}
use ciexpert_usbdev.Streams.Packets.{set_stream}
use ciexpert_usbdev.Frame.{frame_interval}

abbrev pub min_time_left : ℕ
min_time_left = 800

-- `next_frame - ctx->tick_bits > min_time_left`
abbrev pub time_left : Ctx → Bool
time_left ctx = ltb min_time_left (sub32 (u32 (ctx.frame_start + frame_interval)) ctx.tick_bits)

-- Releases the buffer that was sent, if there is one.
unfoldable pub release_sending : Ctx → Option Ctx
release_sending ctx = elim ctx.sending [
  | none ↦ some ctx
  | some p ↦ do c ← transfer_release ctx p; some (record c { sending = none })
]

-- Takes the oldest received packet of stream `k`, the descriptor `p`, off its list.
unfoldable pub retire_received : Ctx → ℕ → Stream → ℕ → Option Ctx
retire_received ctx k s p = do
  tr ← get_elem? ctx.transfer_pool p
  transfer_release (set_stream ctx k (record s { received = tr.next })) p

-- `while (s->received)`, for at most `left - 1` packets; `none` is out of fuel or a fault.
unfoldable pub discard_received : ℕ → Ctx → ℕ → Option Ctx
discard_received zero ctx k = none
discard_received (suc left) ctx k = do
  s ← get_elem? ctx.stream k
  elim s.received [
    | none ↦ some ctx
    | some p ↦ do c ← retire_received ctx k s p; discard_received left c k
  ]

-- The walk to the end of a list of packets, where `rx` is linked.
unfoldable pub append_received : ℕ → Ctx → ℕ → ℕ → Option Ctx
append_received zero ctx tr rx = none
append_received (suc left) ctx tr rx = do
  t ← get_elem? ctx.transfer_pool tr
  elim t.next [
    | none ↦
        some (record ctx { transfer_pool = set ctx.transfer_pool tr (record t { next = some rx }) })
    | some q ↦ append_received left ctx q rx
  ]

-- Collects the packet `rx` for stream `k`. The pool has 32 descriptors, which bounds the walk.
unfoldable pub collect_received : Ctx → ℕ → ℕ → Option Ctx
collect_received ctx k rx = do
  s ← get_elem? ctx.stream k
  elim s.received [
    | none ↦ some (set_stream ctx k (record s { received = some rx }))
    | some tr ↦ append_received 32 ctx tr rx
  ]
