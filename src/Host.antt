-- ===== src/Host.antt =====
-- usbdpi.c: the host as a whole. `usbdpi_create`, the call that the simulator makes for each tick of
-- the 48 MHz clock, `usbdpi_host_to_device`, and `usbdpi_diags`. The host is its context together
-- with the monitor of the bus, NULL if its log file could not be opened. The text that is logged and the name of the log file are left out.
pub mod Account
pub mod Transfers
pub mod Endpoints
pub mod Config
pub mod Steps
pub mod Incoming
pub mod Reach
pub mod Tick
pub mod Frames
pub mod Exchange
pub mod Sync
pub mod Eop
pub mod Echo
pub mod Diags
use ciexpert_usbdev.Base.{
  ℕ, zero, suc, ◌+◌, ◌*◌, ◌/◌, ◌%◌, ◌^◌, bit_and, bit_or, Bool, true, false, not, ◌&&◌, ◌||◌,
  Option, none, some, List, [], ◌∷◌, if◌then◌else◌, ◌==◌, ltb, leb, has, replicate, assert, u32,
  ◌<<<◌, ◌>>>◌, ◌>>=◌, ◌>>◌,
}
use ciexpert_usbdev.Usb.{
  DrvState, st_idle, st_send, st_get, st_sync, st_eop, st_eop0, HostState, hs_startframe,
  hs_waitack, hs_set_datastage, hs_ds_rxdata, hs_ds_sendack, hs_donedadr, hs_reqdata, hs_waitdata,
  hs_sendack, hs_wait_pkt, hs_ackifdata, hs_sendhi, hs_emptydata, hs_waitack2, hs_streamout,
  hs_streamin, hs_nextframe, hs_error, usb_idle, bus_code, d2p_pu, p2d_sense, p2d_dp, pid_setup,
  pid_out, pid_in, max_endpoints, max_streams, max_data, max_transfers, max_packet_size,
  step_bus_reset, step_set_device_address, step_get_device_descriptor, step_get_config_descriptor,
  step_get_full_config_descriptor, step_set_device_config, step_get_test_config,
  step_set_test_status, step_first_read, step_read_baud, step_second_read, step_set_baud,
  step_third_read, step_test_iso1, step_test_iso2, step_endpt_unimpl_setup, step_endpt_unimpl_out,
  step_endpt_unimpl_in, step_device_uk_setup, step_idle_start, step_idle_end, step_stream_service,
}
use ciexpert_usbdev.Transfer.{Transfer}
use ciexpert_usbdev.Context.{Ctx, Stream, usb_transfer_setup}
use ciexpert_usbdev.Control.{waited, set_device_address, set_device_configuration}
use ciexpert_usbdev.Control.Read.{get_descriptor, get_test_config}
use ciexpert_usbdev.Control.Serial.{read_baud, set_baud, try_tx, poll_rx, test_unimpl_ep}
use ciexpert_usbdev.Bus.{bus_reset, set_driving}
use ciexpert_usbdev.Frame.{ensure_sending, begin_frame}
use ciexpert_usbdev.Transmit.{transmit}
use ciexpert_usbdev.Receive.{usbdpi_data_callback}
use ciexpert_usbdev.Monitor.{Monitor, Event, usb_monitor, usb_monitor_init, usb_monitor_diags}
use ciexpert_usbdev.Service.Reply.{streams_service}
use ciexpert_usbdev.Dispatch.{run_step}

pub record Host : Type 0 where
  pub ctx : Ctx
  pub mon : Option Monitor

-- Memory that `calloc` has cleared.
abbrev pub zero_transfer : Transfer
zero_transfer = record {
  next = none;
  num_bytes = 0;
  data_start = 0;
  data_bytes = replicate max_data 0;
}

abbrev pub zero_stream : Stream
zero_stream = record {
  id = 0;
  retrieve = false;
  send = false;
  retrying = false;
  checking = false;
  sig_expected = false;
  xfr_type = 0;
  ep_in = 0;
  ep_out = 0;
  tst_seq = 0;
  tst_lfsr = 0;
  dpi_lfsr = 0;
  retry_lfsr = 0;
  nretries = 0;
  dpi_rewind_lfsr = 0;
  received = none;
}

abbrev pub zero_ctx : Ctx
zero_ctx = record {
  bus_state = usb_idle;
  driving = 0;
  linebits = 0;
  bit = 0;
  byte = 0;
  test_number = 0;
  test_arg = replicate 4 0;
  ep_in = replicate max_endpoints 0;
  ep_out = replicate max_endpoints 0;
  nstreams = 0;
  stream_in = 0;
  stream_out = 0;
  stream = replicate max_streams zero_stream;
  loglevel = 0;
  host_st = hs_startframe;
  recving = none;
  sending = none;
  last_pu = 0;
  lastrxpid = 0;
  tick = 0;
  tick_bits = 0;
  recovery_time = 0;
  step = 0;
  num_tries = 0;
  frame = 0;
  framepend = false;
  frame_start = 0;
  wait = 0;
  state = st_idle;
  baudrate_set_successfully = false;
  dev_address = 0;
  cfg_desc_len = 0;
  free = none;
  transfer_pool = replicate max_transfers zero_transfer;
}

-- What the C library answers: whether `calloc` gives memory for the context and for the monitor,
-- whether `getcwd` finds the directory, what `snprintf` returns for the path of the log file (`none`
-- is negative), FILENAME_MAX, and whether `fopen` opens the file.
pub record Startup : Type 0 where
  pub ctx_allocated : Bool
  pub cwd_found : Bool
  pub path_length : Option ℕ
  pub filename_max : ℕ
  pub mon_allocated : Bool
  pub mon_opened : Bool

unfoldable pub usbdpi_create : Startup → ℕ → Option Host
usbdpi_create startup loglevel = do
  assert startup.ctx_allocated
  let ctx = record (bus_reset zero_ctx) { loglevel = loglevel }
  assert startup.cwd_found
  rv ← startup.path_length
  assert (leb rv startup.filename_max && ltb 0 rv)
  mon ← usb_monitor_init startup.mon_allocated startup.mon_opened
  c ← usb_transfer_setup ctx
  some (record { ctx = c; mon = mon })

-- SENSE_AT
abbrev pub sense_at : ℕ
sense_at = 160

-- `switch (ctx->state)`
unfoldable pub drive_at : DrvState → Ctx → ℕ → Option Ctx
drive_at st_idle ctx d2p = do c ← ensure_sending ctx; run_step c d2p
drive_at _ ctx d2p = transmit ctx d2p

-- What happens in a bit interval once the monitor has looked at the bus.
unfoldable pub host_interval : Ctx → ℕ → Option Ctx
unfolding drive_at
host_interval ctx d2p =
    if not (has d2p d2p_pu)
    then some (record (bus_reset ctx) { recovery_time = u32 (ctx.tick + 192) })
    else if ltb ctx.tick ctx.recovery_time
    then some (record ctx {
      driving = set_driving ctx d2p p2d_dp false;
      state = st_idle;
      frame_start = ctx.tick_bits;
    })
    else (do c ← begin_frame ctx; drive_at c.state c d2p)

-- `(ctx->state != ST_IDLE) && (ctx->state != ST_GET)`
abbrev pub host_drives : DrvState → Bool
host_drives st_idle = false
host_drives st_get = false
host_drives _ = true

-- The callback for what the monitor has found.
unfoldable pub deliver : Ctx → Event → Option Ctx
deliver ctx none = some ctx
deliver ctx (some (type, d)) = usbdpi_data_callback ctx type d

-- `usb_monitor(...)`, which reads through the pointer to the monitor.
unfoldable pub monitor_bus : Host → ℕ → Option Host
unfolding deliver
monitor_bus host d2p = do
  let ctx = host.ctx
  m ← host.mon
  let (mon, event, lastpid) =
      usb_monitor m ctx.tick_bits (host_drives ctx.state) ctx.driving d2p ctx.lastrxpid
  c ← deliver (record ctx { lastrxpid = lastpid }) event
  some (record { ctx = c; mon = some mon })

-- VBUS is applied at a set time.
abbrev pub apply_vbus : Ctx → Ctx
apply_vbus ctx =
    if ctx.tick_bits == sense_at then record ctx { driving = bit_or ctx.driving p2d_sense } else ctx

-- `ctx->tick++; ctx->tick_bits = ctx->tick >> 2;`
abbrev pub next_tick : Ctx → Ctx
next_tick ctx = let tick = u32 (ctx.tick + 1) in record ctx { tick = tick; tick_bits = tick >>> 2 }

-- The value that is returned is `driving` of the new context.
unfoldable pub usbdpi_host_to_device : Host → ℕ → Option Host
unfolding host_interval monitor_bus
usbdpi_host_to_device host d2p =
    let h : Host = record host { ctx = next_tick host.ctx } in
    if has h.ctx.tick 3 then some h else (do
      m ← monitor_bus h d2p
      c ← host_interval (apply_vbus m.ctx) d2p
      some (record m { ctx = c }))

-- The values of the enumerations.
abbrev pub drv_state_code : DrvState → ℕ
drv_state_code st_idle = 0
drv_state_code st_send = 1
drv_state_code st_get = 2
drv_state_code st_sync = 3
drv_state_code st_eop = 4
drv_state_code st_eop0 = 5

abbrev pub host_state_code : HostState → ℕ
host_state_code hs_startframe = 0
host_state_code hs_waitack = 1
host_state_code hs_set_datastage = 2
host_state_code hs_ds_rxdata = 3
host_state_code hs_ds_sendack = 4
host_state_code hs_donedadr = 5
host_state_code hs_reqdata = 6
host_state_code hs_waitdata = 7
host_state_code hs_sendack = 8
host_state_code hs_wait_pkt = 9
host_state_code hs_ackifdata = 10
host_state_code hs_sendhi = 11
host_state_code hs_emptydata = 12
host_state_code hs_waitack2 = 13
host_state_code hs_streamout = 14
host_state_code hs_streamin = 15
host_state_code hs_nextframe = 16
host_state_code hs_error = 17

-- The three words of diagnostics, the first one first. A step that does not fit in its field is a
-- failed assertion; the other fields hold every value of their enumerations.
unfoldable pub usbdpi_diags : Host → Option (ℕ × ℕ × ℕ)
usbdpi_diags host = do
  let ctx = host.ctx
  assert (leb ctx.step 0x7f)
  mon ← host.mon
  some (
    u32 (
        bit_or (ctx.tick_bits <<< 20) (
          bit_or (bit_and ctx.frame 0x7ff <<< 9) (
            bit_or (bit_and (host_state_code ctx.host_st) 0x1f <<< 4)
              (bit_and (drv_state_code ctx.state) 0xf)))),
    u32 (bit_or (ctx.step <<< 25) (bit_or (bus_code ctx.bus_state <<< 20) (ctx.tick_bits >>> 12))),
    usb_monitor_diags mon,
  )
