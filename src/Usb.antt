-- ===== src/Usb.antt =====
-- usbdpi.h, usb_transfer.h, usbdpi_test.h: the constants of the protocol and of the model, and the
-- states that the host model passes through.
use ciexpert_usbdev.Base.{ℕ, Bool, ◌==◌, if◌then◌else◌}

-- Packet identifiers.
module _ where
  abbrev pub pid_out : ℕ
  pid_out = 0xE1

  abbrev pub pid_in : ℕ
  pid_in = 0x69

  abbrev pub pid_sof : ℕ
  pid_sof = 0xA5

  abbrev pub pid_setup : ℕ
  pid_setup = 0x2D

  abbrev pub pid_data0 : ℕ
  pid_data0 = 0xC3

  abbrev pub pid_data1 : ℕ
  pid_data1 = 0x4B

  abbrev pub pid_ack : ℕ
  pid_ack = 0xD2

  abbrev pub pid_nak : ℕ
  pid_nak = 0x5A

  abbrev pub pid_stall : ℕ
  pid_stall = 0x1E

-- Sizes: 3 + 3 + 1 + 64 + 2 bytes in a transfer descriptor, 16 endpoints, 15 streams, 32 transfers.
module _ where
  abbrev pub max_packet_size : ℕ
  max_packet_size = 64

  abbrev pub max_data : ℕ
  max_data = 73

  -- USBDPI_NO_DATA_STAGE, `(uint8_t)~0U`.
  abbrev pub no_data_stage : ℕ
  no_data_stage = 255

  abbrev pub max_endpoints : ℕ
  max_endpoints = 16

  abbrev pub max_streams : ℕ
  max_streams = 15

  abbrev pub max_transfers : ℕ
  max_transfers = 0x20

  abbrev pub interval_setup_stage : ℕ
  interval_setup_stage = 200

-- USB transfer types.
module _ where
  abbrev pub type_control : ℕ
  type_control = 0

  abbrev pub type_isochronous : ℕ
  type_isochronous = 1

  abbrev pub type_bulk : ℕ
  type_bulk = 2

  abbrev pub type_interrupt : ℕ
  type_interrupt = 3

-- Signals from the device (d2p) and to the device (p2d), as masks.
module _ where
  abbrev pub d2p_dp : ℕ
  d2p_dp = 1024

  abbrev pub d2p_dp_en : ℕ
  d2p_dp_en = 512

  abbrev pub d2p_dn : ℕ
  d2p_dn = 256

  abbrev pub d2p_dn_en : ℕ
  d2p_dn_en = 128

  abbrev pub d2p_d : ℕ
  d2p_d = 64

  abbrev pub d2p_d_en : ℕ
  d2p_d_en = 32

  abbrev pub d2p_se0 : ℕ
  d2p_se0 = 16

  abbrev pub d2p_tx_use_d_se0 : ℕ
  d2p_tx_use_d_se0 = 8

  abbrev pub d2p_dppu : ℕ
  d2p_dppu = 4

  abbrev pub d2p_dnpu : ℕ
  d2p_dnpu = 2

  abbrev pub d2p_rx_enable : ℕ
  d2p_rx_enable = 1

  abbrev pub d2p_pu : ℕ
  d2p_pu = 6

  abbrev pub p2d_sense : ℕ
  p2d_sense = 1

  abbrev pub p2d_dn : ℕ
  p2d_dn = 2

  abbrev pub p2d_dp : ℕ
  p2d_dp = 4

  abbrev pub p2d_d : ℕ
  p2d_d = 8

  abbrev pub p2d_oe : ℕ
  p2d_oe = 0x10

-- Test numbers and test steps. A step is a number since the sequence also passes through values
-- that the enumeration leaves unnamed.
module _ where
  abbrev pub test_smoke : ℕ
  test_smoke = 0

  abbrev pub test_streams : ℕ
  test_streams = 1

  abbrev pub test_iso : ℕ
  test_iso = 2

  abbrev pub test_mixed : ℕ
  test_mixed = 3

  abbrev pub test_suspend : ℕ
  test_suspend = 4

  abbrev pub test_exc : ℕ
  test_exc = 5

  abbrev pub test_pin_cfg : ℕ
  test_pin_cfg = 6

  abbrev pub step_bus_reset : ℕ
  step_bus_reset = 0

  abbrev pub step_set_device_address : ℕ
  step_set_device_address = 1

  abbrev pub step_get_device_descriptor : ℕ
  step_get_device_descriptor = 2

  abbrev pub step_get_config_descriptor : ℕ
  step_get_config_descriptor = 3

  abbrev pub step_get_full_config_descriptor : ℕ
  step_get_full_config_descriptor = 4

  abbrev pub step_set_device_config : ℕ
  step_set_device_config = 5

  abbrev pub step_get_test_config : ℕ
  step_get_test_config = 6

  abbrev pub step_set_test_status : ℕ
  step_set_test_status = 7

  abbrev pub step_first_read : ℕ
  step_first_read = 8

  abbrev pub step_read_baud : ℕ
  step_read_baud = 9

  abbrev pub step_second_read : ℕ
  step_second_read = 10

  abbrev pub step_set_baud : ℕ
  step_set_baud = 11

  abbrev pub step_third_read : ℕ
  step_third_read = 12

  abbrev pub step_test_iso1 : ℕ
  step_test_iso1 = 13

  abbrev pub step_test_iso2 : ℕ
  step_test_iso2 = 14

  abbrev pub step_endpt_unimpl_setup : ℕ
  step_endpt_unimpl_setup = 15

  abbrev pub step_endpt_unimpl_out : ℕ
  step_endpt_unimpl_out = 16

  abbrev pub step_endpt_unimpl_in : ℕ
  step_endpt_unimpl_in = 17

  abbrev pub step_device_uk_setup : ℕ
  step_device_uk_setup = 18

  abbrev pub step_idle_start : ℕ
  step_idle_start = 19

  abbrev pub step_idle_end : ℕ
  step_idle_end = 23

  abbrev pub step_stream_service : ℕ
  step_stream_service = 0x20

  abbrev pub step_bus_disconnect : ℕ
  step_bus_disconnect = 0x7f

-- DATA_TOGGLE_ADVANCE
abbrev pub data_toggle_advance : ℕ → ℕ
data_toggle_advance pid = if pid == pid_data1 then pid_data0 else pid_data1

-- usbdpi_drv_state_t
pub data DrvState : Type 0 where
  st_idle st_send st_get st_sync st_eop st_eop0 : DrvState

-- usbdpi_host_state_t
pub data HostState : Type 0 where
  hs_startframe hs_waitack hs_set_datastage hs_ds_rxdata hs_ds_sendack hs_donedadr : HostState
  hs_reqdata hs_waitdata hs_sendack hs_wait_pkt hs_ackifdata hs_sendhi hs_emptydata : HostState
  hs_waitack2 hs_streamout hs_streamin hs_nextframe hs_error : HostState

-- usbdpi_bus_state_t
pub data BusState : Type 0 where
  usb_idle usb_control_setup usb_control_setup_ack usb_control_data_out : BusState
  usb_control_data_out_ack usb_control_status_in_token usb_control_status_in_data : BusState
  usb_control_status_in_ack usb_control_data_in_token usb_control_data_in_data : BusState
  usb_control_data_in_ack usb_control_status_out usb_control_status_out_ack : BusState
  usb_iso_out usb_iso_in_token usb_iso_in_data : BusState
  usb_bulk_out usb_bulk_out_ack usb_bulk_in_token usb_bulk_in_data : BusState
  usb_interrupt_out usb_interrupt_out_ack usb_interrupt_in_token usb_interrupt_in_data : BusState

-- The values of the enumerations.
abbrev pub bus_code : BusState → ℕ
bus_code usb_idle = 0
bus_code usb_control_setup = 1
bus_code usb_control_setup_ack = 2
bus_code usb_control_data_out = 3
bus_code usb_control_data_out_ack = 4
bus_code usb_control_status_in_token = 5
bus_code usb_control_status_in_data = 6
bus_code usb_control_status_in_ack = 7
bus_code usb_control_data_in_token = 8
bus_code usb_control_data_in_data = 9
bus_code usb_control_data_in_ack = 10
bus_code usb_control_status_out = 11
bus_code usb_control_status_out_ack = 12
bus_code usb_iso_out = 13
bus_code usb_iso_in_token = 14
bus_code usb_iso_in_data = 15
bus_code usb_bulk_out = 16
bus_code usb_bulk_out_ack = 17
bus_code usb_bulk_in_token = 18
bus_code usb_bulk_in_data = 19
bus_code usb_interrupt_out = 20
bus_code usb_interrupt_out_ack = 21
bus_code usb_interrupt_in_token = 22
bus_code usb_interrupt_in_data = 23

-- `ctx->bus_state == b`
abbrev pub is_bus : BusState → BusState → Bool
is_bus a b = bus_code a == bus_code b

-- usbmon_data_type_t
pub data UsbmonDataType : Type 0 where
  sync eop pid byte : UsbmonDataType
