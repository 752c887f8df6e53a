-- ===== src/Frame.antt =====
-- usbdpi.c: the part of `usbdpi_host_to_device` that begins a bus frame. With it come the Start Of
-- Frame packet, the next test step, and the count of tries of a transfer that has not ended.
pub mod Begin
use ciexpert_usbdev.Base.{
  ℕ, suc, ◌+◌, ◌*◌, ◌%◌, ◌^◌, Bool, true, false, ◌&&◌, Option, none, some, leb, ltb, if◌then◌else◌,
  ◌>>=◌, u16, u8, sub32, assert, ◌>>◌,
}
use ciexpert_usbdev.Usb.{
  DrvState, st_idle, st_sync, HostState, hs_startframe, hs_nextframe, step_idle_start,
  step_idle_end,
}
use ciexpert_usbdev.Context.{Ctx, transfer_alloc, transfer_frame_start}
use ciexpert_usbdev.TestSequence.{usbdpi_test_seq_next}

-- FRAME_INTERVAL of a full frame, and USBDPI_MAX_TRIES.
abbrev pub frame_interval : ℕ
frame_interval = 12000

abbrev pub max_tries : ℕ
max_tries = 3

-- `ctx->state == ST_IDLE` and `ctx->hostSt == HS_NEXTFRAME`
abbrev pub is_idle : DrvState → Bool
is_idle st_idle = true
is_idle _ = false

abbrev pub at_next_frame : HostState → Bool
at_next_frame hs_nextframe = true
at_next_frame _ = false

-- `if (!ctx->sending) ctx->sending = transfer_alloc(ctx)`; NULL is a failed assertion.
unfoldable pub ensure_sending : Ctx → Option Ctx
ensure_sending ctx = elim ctx.sending [
  | some p ↦ some ctx
  | none ↦ do (tr, c) ← transfer_alloc ctx; p ← tr; some (record c { sending = some p })
]

-- The Start Of Frame, which is left out while the bus is to look suspended.
unfoldable pub start_of_frame : Ctx → Option Ctx
start_of_frame ctx =
    if leb step_idle_start ctx.step && ltb ctx.step step_idle_end
    then some (record ctx { state = st_idle })
    else do
      c ← ensure_sending ctx
      d ← transfer_frame_start c c.sending c.frame
      some (record d { state = st_sync })

-- The next step, or the same one again; the third try in vain is a failed assertion.
unfoldable pub next_step : Ctx → Option Ctx
next_step ctx =
    if at_next_frame ctx.host_st
    then (let (step, c) = usbdpi_test_seq_next ctx ctx.step in
        some (record c { step = step; num_tries = 0; host_st = hs_startframe }))
    else if leb max_tries (u8 (ctx.num_tries + 1))
    then none
    else some (record ctx { num_tries = u8 (ctx.num_tries + 1); host_st = hs_startframe })

unfoldable pub begin_frame : Ctx → Option Ctx
begin_frame ctx =
    if leb frame_interval (sub32 ctx.tick_bits ctx.frame_start)
    then (if is_idle ctx.state
        then (do
          c ← start_of_frame (record ctx {
            framepend = false;
            frame = u16 (ctx.frame + 1);
            frame_start = ctx.tick_bits;
          })
          next_step c)
        else some (record ctx { framepend = true }))
    else some ctx
