-- ===== src/Control.antt =====
-- usbdpi.c: the control transfers of the host, one function per transfer, each a state machine over
-- `host_st` that is called once in every bit interval in which the bus is idle. The packets go out
-- through the descriptor that `sending` names; without one a handler that needs it faults.
-- The error insertion switches (INSERT_ERR_...) are off, as in usbdpi.h.
pub mod Send
pub mod Toggle
pub mod Progress
pub mod Address
pub mod Read
pub mod Serial
use ciexpert_usbdev.Base.{
  ℕ, zero, suc, ◌+◌, ◌*◌, ◌/◌, ◌%◌, ◌^◌, bit_or, Bool, true, false, ◌&&◌, ◌||◌, Option, none, some,
  List, [], ◌∷◌, leb, ltb, ◌==◌, if◌then◌else◌, get_elem?, set, assert, ◌>>=◌, ◌>>◌, u8, u16, u32,
  ◌<<<◌, ◌>>>◌,
}
use ciexpert_usbdev.Usb.{
  HostState, hs_startframe, hs_waitack, hs_set_datastage, hs_ds_rxdata, hs_ds_sendack, hs_reqdata,
  hs_waitdata, hs_sendack, hs_wait_pkt, hs_emptydata, hs_waitack2, hs_nextframe, hs_ackifdata,
  hs_sendhi, BusState, is_bus, usb_idle, usb_control_setup, usb_control_setup_ack,
  usb_control_status_in_token, usb_control_status_in_data, usb_control_data_in_token,
  usb_control_data_in_data, usb_control_data_in_ack, usb_control_status_out,
  usb_control_status_out_ack, usb_bulk_out, usb_bulk_in_token, usb_bulk_in_data, pid_setup, pid_in,
  pid_out, pid_data0, pid_data1, pid_ack, pid_nak, pid_stall, data_toggle_advance,
  step_get_config_descriptor,
}
use ciexpert_usbdev.Transfer.{transfer_token, token_and_data, transfer_data_field}
use ciexpert_usbdev.Context.{Ctx, on_transfer, transfer_send, transfer_status, transfer_setup}

-- A token packet alone, or a token packet and a data packet, sent through `sending`.
unfoldable pub send_token : Ctx → ℕ → ℕ → ℕ → Option Ctx
send_token ctx pid device endpoint = do
  c ← on_transfer ctx ctx.sending λ t. transfer_token t pid device endpoint
  transfer_send c ctx.sending

unfoldable pub send_transaction : Ctx → ℕ → ℕ → ℕ → ℕ → ℕ → List ℕ → Option Ctx
send_transaction ctx pid device endpoint data_pid est_size field = do
  c ← on_transfer ctx ctx.sending (token_and_data pid device endpoint data_pid est_size field)
  transfer_send c ctx.sending

-- `ctx->wait = ctx->tick_bits + bits`, in 32 bits, and the next host state.
abbrev pub wait_then : ℕ → HostState → Ctx → Ctx
wait_then bits next ctx = record ctx { wait = u32 (ctx.tick_bits + bits); host_st = next }

-- `ctx->tick_bits >= ctx->wait`
abbrev pub waited : Ctx → Bool
waited ctx = leb ctx.wait ctx.tick_bits

-- DATA_TOGGLE_ADVANCE on `ep_out[endpoint].next_data`.
unfoldable pub toggle_out : Ctx → ℕ → Option Ctx
toggle_out ctx endpoint = do
  pid ← get_elem? ctx.ep_out endpoint
  some (record ctx { ep_out = set ctx.ep_out endpoint (data_toggle_advance pid) })

-- The bytes of a SET_ADDRESS request; wIndex is 0x00FF.
abbrev pub set_address_field : ℕ → List ℕ
set_address_field dev_addr = 0 ∷ 5 ∷ dev_addr ∷ 0 ∷ 0xFF ∷ 0 ∷ 0 ∷ 0 ∷ []

-- setDeviceAddress
unfoldable pub set_address_at : HostState → Ctx → ℕ → Option Ctx
set_address_at hs_startframe ctx dev_addr = do
  c ← send_transaction ctx pid_setup ctx.dev_address 0 pid_data0 8 (set_address_field dev_addr)
  some (record c { bus_state = usb_control_setup; host_st = hs_waitack })
set_address_at hs_waitack ctx dev_addr = some (wait_then 532 hs_set_datastage ctx)
set_address_at hs_set_datastage ctx dev_addr =
    if is_bus ctx.bus_state usb_control_setup_ack && waited ctx
    then (do
      c ← send_token ctx pid_in 0 0
      some (record c { bus_state = usb_control_status_in_token; host_st = hs_ds_rxdata }))
    else some ctx
set_address_at hs_ds_rxdata ctx dev_addr = some (wait_then 24 hs_ds_sendack ctx)
set_address_at hs_ds_sendack ctx dev_addr =
    if is_bus ctx.bus_state usb_control_status_in_data || waited ctx
    then (do
      c ← transfer_status ctx ctx.sending pid_ack
      some (record c { bus_state = usb_idle; host_st = hs_nextframe; dev_address = dev_addr }))
    else some ctx
set_address_at _ ctx dev_addr = some ctx

unfoldable pub set_device_address : Ctx → ℕ → Option Ctx
unfolding set_address_at
set_device_address ctx dev_addr = set_address_at ctx.host_st ctx dev_addr

-- setDeviceConfiguration
unfoldable pub set_configuration_at : HostState → Ctx → ℕ → Option Ctx
set_configuration_at hs_startframe ctx config = do
  c ←
      send_transaction ctx pid_setup ctx.dev_address 0 pid_data0 8
        (0 ∷ 9 ∷ config ∷ 0 ∷ 0 ∷ 0 ∷ 0 ∷ 0 ∷ [])
  some (record c { bus_state = usb_control_setup; host_st = hs_waitack })
set_configuration_at hs_waitack ctx config = some (wait_then 532 hs_set_datastage ctx)
set_configuration_at hs_set_datastage ctx config =
    if is_bus ctx.bus_state usb_control_setup_ack && waited ctx
    then (do
      c ← send_token ctx pid_in ctx.dev_address 0
      some (record c { bus_state = usb_control_status_in_token; host_st = hs_ds_rxdata }))
    else some ctx
set_configuration_at hs_ds_rxdata ctx config = some (wait_then 24 hs_ds_sendack ctx)
set_configuration_at hs_ds_sendack ctx config =
    if is_bus ctx.bus_state usb_control_status_in_data || waited ctx
    then (do
      c ← transfer_status ctx ctx.sending pid_ack
      some (record c { bus_state = usb_idle; host_st = hs_nextframe }))
    else some ctx
set_configuration_at _ ctx config = some ctx

unfoldable pub set_device_configuration : Ctx → ℕ → Option Ctx
unfolding set_configuration_at
set_device_configuration ctx config = set_configuration_at ctx.host_st ctx config
