-- ===== src/Dispatch.antt =====
-- usbdpi.c: the dispatch on the step of the test in `usbdpi_host_to_device`.
use ciexpert_usbdev.Base.{
  ℕ, ◌+◌, true, false, ◌||◌, Option, none, some, if◌then◌else◌, ◌==◌, ltb, leb, u32,
}
use ciexpert_usbdev.Usb.{
  HostState, hs_startframe, hs_nextframe, p2d_dp, pid_setup, pid_out, pid_in, max_packet_size,
  step_bus_reset, step_set_device_address, step_get_device_descriptor, step_get_config_descriptor,
  step_get_full_config_descriptor, step_set_device_config, step_get_test_config,
  step_set_test_status, step_first_read, step_read_baud, step_second_read, step_set_baud,
  step_third_read, step_test_iso1, step_test_iso2, step_endpt_unimpl_setup, step_endpt_unimpl_out,
  step_endpt_unimpl_in, step_device_uk_setup, step_idle_start, step_idle_end, step_stream_service,
}
use ciexpert_usbdev.Context.{Ctx}
use ciexpert_usbdev.Control.{waited, set_device_address, set_device_configuration}
use ciexpert_usbdev.Control.Read.{get_descriptor, get_test_config}
use ciexpert_usbdev.Control.Serial.{read_baud, set_baud, try_tx, poll_rx, test_unimpl_ep}
use ciexpert_usbdev.Bus.{bus_reset, set_driving}
use ciexpert_usbdev.Service.Reply.{streams_service}

-- USBDEV_ADDRESS, UKDEV_ADDRESS, and the endpoints of the basic tests.
abbrev pub usbdev_address : ℕ
usbdev_address = 2

abbrev pub ukdev_address : ℕ
ukdev_address = 6

abbrev pub endpoint_serial0 : ℕ
endpoint_serial0 = 1

abbrev pub endpoint_isochronous : ℕ
endpoint_isochronous = 3

abbrev pub endpoint_unimplemented : ℕ
endpoint_unimplemented = 15

-- STEP_BUS_RESET: SE0 for a time, and then the bus floats.
unfoldable pub reset_step : HostState → Ctx → ℕ → Ctx
reset_step hs_startframe ctx d2p =
    let c = bus_reset ctx in
    record c {
      wait = u32 (c.tick_bits + 532);
      driving = set_driving c d2p 0 true;
      host_st = hs_nextframe;
    }
reset_step _ ctx d2p = record ctx {
  driving = if waited ctx then set_driving ctx d2p p2d_dp false else ctx.driving;
  host_st = hs_nextframe;
}

-- The steps that set up the device. `none` in front stands for a step of another kind.
unfoldable pub setup_step : Ctx → ℕ → Option (Option Ctx)
setup_step ctx d2p =
    if ctx.step == step_bus_reset
    then some (some (reset_step ctx.host_st ctx d2p))
    else if ctx.step == step_set_device_address
    then some (set_device_address ctx usbdev_address)
    else if ctx.step == step_get_device_descriptor
    then some (get_descriptor (record ctx { cfg_desc_len = 0x12 }) 1 0 0x12)
    else if ctx.step == step_get_config_descriptor
    then some (get_descriptor ctx 2 0 9)
    else if ctx.step == step_get_full_config_descriptor
    then some (
        get_descriptor ctx 2 0
          (if leb max_packet_size ctx.cfg_desc_len then max_packet_size else ctx.cfg_desc_len))
    else if ctx.step == step_set_device_config
    then some (set_device_configuration ctx 1)
    else none

-- The basic tests of the endpoints, likewise. `setTestStatus` is empty; `testIso` is `tryTX`.
unfoldable pub test_step : Ctx → Option (Option Ctx)
test_step ctx =
    if ctx.step == step_set_test_status
    then some (some ctx)
    else if ctx.step == step_first_read
    then some (poll_rx ctx endpoint_serial0 true true)
    else if ctx.step == step_read_baud
    then some (read_baud ctx 0)
    else if ctx.step == step_second_read
    then some (poll_rx ctx endpoint_serial0 true false)
    else if ctx.step == step_set_baud
    then some (set_baud ctx 0)
    else if ctx.step == step_third_read
    then some (poll_rx ctx endpoint_serial0 false true)
    else if ctx.step == step_test_iso1 || ctx.step == step_test_iso2
    then some (try_tx ctx endpoint_isochronous false)
    else if ctx.step == step_endpt_unimpl_setup
    then some (test_unimpl_ep ctx pid_setup ctx.dev_address endpoint_unimplemented)
    else if ctx.step == step_endpt_unimpl_out
    then some (test_unimpl_ep ctx pid_out ctx.dev_address endpoint_unimplemented)
    else if ctx.step == step_endpt_unimpl_in
    then some (test_unimpl_ep ctx pid_in ctx.dev_address endpoint_unimplemented)
    else if ctx.step == step_device_uk_setup
    then some (test_unimpl_ep ctx pid_setup ukdev_address 1)
    else none

-- The step that a transfer's state machine belongs to.
unfoldable pub run_step : Ctx → ℕ → Option Ctx
run_step ctx d2p = elim (setup_step ctx d2p) [
  | some r ↦ r
  | none ↦ elim (test_step ctx) [
    | some r ↦ r
    | none ↦
        if ctx.step == step_get_test_config
        then get_test_config ctx 0x10
        else if ctx.step == step_stream_service
        then streams_service ctx
        else if ltb ctx.step step_idle_start || leb step_idle_end ctx.step
        then poll_rx ctx endpoint_serial0 false false
        else some ctx
  ]
]
