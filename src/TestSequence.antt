-- ===== src/TestSequence.antt =====
-- usbdpi_test.c: what a test configuration sets up, and the order of the test steps.
pub mod Order
use ciexpert_usbdev.Base.{
  ℕ, zero, suc, ◌+◌, ◌-◌, ◌*◌, ◌/◌, ◌%◌, ◌^◌, bit_and, bit_or, Bool, true, false, not, ◌||◌, Option,
  none, some, List, [], ◌∷◌, leb, ltb, ◌==◌, if◌then◌else◌, get_elem?, replicate, assert, ◌>>=◌,
  ◌>>◌, has, u32, ◌<<<◌, ◌>>>◌,
}
use ciexpert_usbdev.Usb.{
  max_streams, type_control, type_isochronous, type_bulk, test_smoke, test_streams, test_iso,
  test_mixed, test_pin_cfg, step_bus_reset, step_set_device_address, step_get_device_descriptor,
  step_get_config_descriptor, step_get_full_config_descriptor, step_set_device_config,
  step_get_test_config, step_set_test_status, step_first_read, step_read_baud, step_second_read,
  step_set_baud, step_third_read, step_test_iso1, step_test_iso2, step_endpt_unimpl_setup,
  step_endpt_unimpl_out, step_endpt_unimpl_in, step_device_uk_setup, step_idle_start, step_idle_end,
  step_stream_service, step_bus_disconnect,
}
use ciexpert_usbdev.Context.{Ctx}
use ciexpert_usbdev.Streams.{streams_init}

-- The types of the streams of a mixed test, two bits each, the lowest first.
unfoldable pub mixed_xfr_types : ℕ → ℕ → Option (List ℕ)
mixed_xfr_types zero mixed_types = some []
mixed_xfr_types (suc left) mixed_types = do
  assert (not (bit_and mixed_types 3 == type_control))
  rest ← mixed_xfr_types left (mixed_types >>> 2)
  some (bit_and mixed_types 3 ∷ rest)

unfoldable pub stream_xfr_types : Ctx → ℕ → Option (List ℕ)
unfolding mixed_xfr_types
stream_xfr_types ctx nstreams =
    if ctx.test_number == test_mixed
    then (do
      a₁ ← get_elem? ctx.test_arg 1
      a₂ ← get_elem? ctx.test_arg 2
      a₃ ← get_elem? ctx.test_arg 3
      mixed_xfr_types nstreams (bit_or (bit_or (a₃ <<< 16) (a₂ <<< 8)) a₁))
    else some
        (replicate nstreams (if ctx.test_number == test_iso then type_isochronous else type_bulk))

-- The branch of the three streaming tests.
unfoldable pub streaming_test_init : Ctx → Option (Bool × Ctx)
unfolding stream_xfr_types streams_init
streaming_test_init ctx = do
  a₀ ← get_elem? ctx.test_arg 0
  let nstreams = bit_and a₀ 0xf
  if leb nstreams max_streams
      then (do
        xfr_types ← stream_xfr_types ctx nstreams
        streams_init ctx nstreams xfr_types (has a₀ 0x10) (has a₀ 0x20) (has a₀ 0x40) (has a₀ 0x80))
      else some (false, ctx)

abbrev pub is_streaming : ℕ → Bool
is_streaming test_number =
    test_number == test_mixed || test_number == test_iso || test_number == test_streams

-- An unknown test and a configuration that is refused are failed assertions.
unfoldable pub usbdpi_test_init : Ctx → Option Ctx
unfolding streaming_test_init
usbdpi_test_init ctx =
    if ctx.test_number == test_smoke || ctx.test_number == test_pin_cfg
    then some ctx
    else if is_streaming ctx.test_number
    then (do (ok, c) ← streaming_test_init ctx; assert ok; some c)
    else none

-- The steps of the default test, `usbdev_test`.
unfoldable pub default_next : ℕ → ℕ
default_next step =
    if step == step_get_test_config
    then step_first_read
    else if step == step_first_read
    then step_read_baud
    else if step == step_second_read
    then step_set_baud
    else if step == step_set_baud
    then step_third_read
    else if step == step_third_read
    then step_test_iso1
    else if step == step_test_iso1
    then step_test_iso2
    else if step == step_endpt_unimpl_setup
    then step_endpt_unimpl_setup
    else if step == step_endpt_unimpl_out
    then step_endpt_unimpl_in
    else if step == step_endpt_unimpl_in
    then step_device_uk_setup
    else if step == step_device_uk_setup
    then step_idle_start
    else if step == step_idle_end
    then step_idle_end
    else u32 (step + 1)

-- Both inner cases of the streaming tests continue with the streams.
unfoldable pub test_next : ℕ → ℕ → ℕ
test_next test_number step =
    if is_streaming test_number
    then step_stream_service
    else if test_number == test_pin_cfg
    then step_bus_reset
    else default_next step

-- The next step; in the last step VBUS is deasserted (`driving &= ~P2D_SENSE`).
unfoldable pub usbdpi_test_seq_next : Ctx → ℕ → ℕ × Ctx
usbdpi_test_seq_next ctx step =
    if step == step_bus_reset
    then (step_get_device_descriptor, ctx)
    else if step == step_get_device_descriptor
    then (step_set_device_address, ctx)
    else if step == step_set_device_address
    then (step_get_config_descriptor, ctx)
    else if step == step_get_config_descriptor
    then (step_get_full_config_descriptor, ctx)
    else if step == step_get_full_config_descriptor
    then (step_set_device_config, ctx)
    else if step == step_set_device_config
    then (step_get_test_config, ctx)
    else if step == step_set_test_status
    then (step_bus_disconnect, ctx)
    else if step == step_bus_disconnect
    then (step_bus_disconnect, record ctx { driving = bit_and ctx.driving 0xfffffffe })
    else (test_next ctx.test_number step, ctx)
