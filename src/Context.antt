-- ===== src/Context.antt =====
-- The context of the host model: `struct usbdpi_ctx` (usbdpi.h), `usbdpi_stream_t`
-- (usbdpi_stream.h), and the operations of usb_transfer.c that involve it. A pointer to a transfer
-- descriptor is its place in `transfer_pool`; NULL is `none`. Text for logging is left out.
pub mod Send
pub mod FrameStart
pub mod Pool
pub mod Reach
use ciexpert_usbdev.Base.{
  ℕ, zero, suc, ◌+◌, ◌*◌, ◌/◌, ◌%◌, ◌^◌, bit_and, Bool, true, false, Option, none, some, List, [],
  ◌∷◌, ◌&&◌, ltb, leb, ◌==◌, if◌then◌else◌, get_elem?, set, length, assert, ◌>>=◌, ◌>>◌, u8, u32,
  ◌>>>◌,
}
use ciexpert_usbdev.Usb.{
  DrvState, st_sync, HostState, hs_waitack, BusState, usb_control_setup, max_data, no_data_stage,
  max_transfers, interval_setup_stage, pid_sof, pid_setup, pid_data0,
}
use ciexpert_usbdev.Transfer.{Transfer, transfer_init, transfer_token, write, token_and_data}

pub record Stream : Type 0 where
  pub id : ℕ
  pub retrieve : Bool
  pub send : Bool
  pub retrying : Bool
  pub checking : Bool
  pub sig_expected : Bool
  pub xfr_type : ℕ
  pub ep_in : ℕ
  pub ep_out : ℕ
  pub tst_seq : ℕ
  pub tst_lfsr : ℕ
  pub dpi_lfsr : ℕ
  pub retry_lfsr : ℕ
  pub nretries : ℕ
  pub dpi_rewind_lfsr : ℕ
  pub received : Option ℕ

-- `ep_in` and `ep_out` hold the `next_data` of each endpoint.
pub record Ctx : Type 0 where
  pub bus_state : BusState
  pub driving : ℕ
  pub linebits : ℕ
  pub bit : ℕ
  pub byte : ℕ
  pub test_number : ℕ
  pub test_arg : List ℕ
  pub ep_in : List ℕ
  pub ep_out : List ℕ
  pub nstreams : ℕ
  pub stream_in : ℕ
  pub stream_out : ℕ
  pub stream : List Stream
  pub loglevel : ℕ
  pub host_st : HostState
  pub recving : Option ℕ
  pub sending : Option ℕ
  pub last_pu : ℕ
  pub lastrxpid : ℕ
  pub tick : ℕ
  pub tick_bits : ℕ
  pub recovery_time : ℕ
  pub step : ℕ
  pub num_tries : ℕ
  pub frame : ℕ
  pub framepend : Bool
  pub frame_start : ℕ
  pub wait : ℕ
  pub state : DrvState
  pub baudrate_set_successfully : Bool
  pub dev_address : ℕ
  pub cfg_desc_len : ℕ
  pub free : Option ℕ
  pub transfer_pool : List Transfer

-- Applies a function to the descriptor that a pointer names, and stores the result there.
unfoldable pub on_transfer : Ctx → Option ℕ → (Transfer → Option Transfer) → Option Ctx
on_transfer ctx pointer f = do
  p ← pointer
  t ← get_elem? ctx.transfer_pool p
  t' ← f t
  some (record ctx { transfer_pool = set ctx.transfer_pool p t' })

-- The loop of `usb_transfer_setup`, with `idx` descriptors left to link.
unfoldable pub link_pool : ℕ → Option ℕ → List Transfer → Option (Option ℕ × List Transfer)
link_pool zero next pool = some (next, pool)
link_pool (suc idx) next pool = do
  t ← get_elem? pool idx
  link_pool idx (some idx) (set pool idx (record t { next = next }))

unfoldable pub usb_transfer_setup : Ctx → Option Ctx
unfolding link_pool
usb_transfer_setup ctx = do
  (next, pool) ← link_pool max_transfers none ctx.transfer_pool
  some (record ctx { transfer_pool = pool; free = next })

-- Returns NULL when no descriptor is free.
unfoldable pub transfer_alloc : Ctx → Option (Option ℕ × Ctx)
unfolding transfer_init
transfer_alloc ctx = elim ctx.free [
  | none ↦ some (none, ctx)
  | some p ↦ do
    t ← get_elem? ctx.transfer_pool p
    some (
      some p,
      record ctx { free = t.next; transfer_pool = set ctx.transfer_pool p (transfer_init t) },
    )
]

unfoldable pub transfer_release : Ctx → ℕ → Option Ctx
transfer_release ctx p = do
  t ← get_elem? ctx.transfer_pool p
  some (record ctx {
    transfer_pool = set ctx.transfer_pool p (record t { next = ctx.free });
    free = some p;
  })

-- `!ctx->sending || ctx->sending == transfer`
abbrev pub may_send : Option ℕ → ℕ → Bool
may_send none p = true
may_send (some q) p = q == p

-- `ctx->sending = transfer`, ready for the first bit behind the SYNC.
abbrev pub start_sending : Ctx → ℕ → Ctx
start_sending ctx p = record ctx { sending = some p; state = st_sync; byte = 0; bit = 1 }

unfoldable pub transfer_send : Ctx → Option ℕ → Option Ctx
transfer_send ctx transfer = do
  p ← transfer
  t ← get_elem? ctx.transfer_pool p
  assert (ltb 0 t.num_bytes && leb t.num_bytes max_data)
  assert (may_send ctx.sending p)
  some (start_sending ctx p)

unfoldable pub transfer_status : Ctx → Option ℕ → ℕ → Option Ctx
unfolding write on_transfer
transfer_status ctx transfer pid = do
  p ← transfer
  c ← on_transfer ctx transfer λ t. do
    bytes ← write t.data_bytes 0 (pid ∷ [])
    some (record t { num_bytes = 1; data_bytes = bytes; data_start = no_data_stage })
  assert (may_send c.sending p)
  some (start_sending c p)

unfoldable pub transfer_frame_start : Ctx → Option ℕ → ℕ → Option Ctx
unfolding on_transfer transfer_token transfer_send
transfer_frame_start ctx transfer frame = do
  c ←
      on_transfer ctx transfer
        λ t. transfer_token t pid_sof (bit_and frame 0x7F) (bit_and (frame >>> 7) 15)
  transfer_send c transfer

-- The eight bytes of a SETUP data field.
unfoldable pub setup_field : ℕ → ℕ → ℕ → ℕ → ℕ → List ℕ
setup_field bm_request_type b_request w_value w_index w_length =
    bm_request_type
    ∷ b_request
    ∷ u8 w_value
    ∷ u8 (w_value >>> 8)
    ∷ u8 w_index
    ∷ u8 (w_index >>> 8)
    ∷ u8 w_length
    ∷ u8 (w_length >>> 8)
    ∷ []

unfoldable pub transfer_setup : Ctx → Option ℕ → ℕ → ℕ → ℕ → ℕ → ℕ → Option Ctx
unfolding on_transfer token_and_data setup_field transfer_send
transfer_setup ctx transfer bm_request_type b_request w_value w_index w_length = do
  c ← on_transfer ctx transfer (
      token_and_data pid_setup ctx.dev_address 0 pid_data0 8
        (setup_field bm_request_type b_request w_value w_index w_length))
  d ← transfer_send c transfer
  some (record d {
    bus_state = usb_control_setup;
    wait = u32 (d.tick_bits + interval_setup_stage);
    host_st = hs_waitack;
  })
