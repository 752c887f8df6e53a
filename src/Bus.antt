-- ===== src/Bus.antt =====
-- usbdpi.c: the lines of the bus. What the device drives (`usbdpi_device_to_host`), what the host
-- drives (`set_driving`, `inv_driving`), and the state after a bus reset. The text that these
-- functions log is left out.
pub mod Drive
use ciexpert_usbdev.Base.{
  ℕ, zero, suc, ◌+◌, ◌*◌, ◌/◌, ◌%◌, ◌^◌, bit_and, bit_or, bit_xor, Bool, true, false, not, ◌&&◌,
  ◌||◌, Option, none, some, List, if◌then◌else◌, ◌==◌, replicate, has, u32,
}
use ciexpert_usbdev.Usb.{
  d2p_dp, d2p_dp_en, d2p_dn, d2p_dn_en, d2p_d, d2p_d_en, d2p_se0, d2p_tx_use_d_se0, d2p_dppu,
  d2p_dnpu, d2p_pu, p2d_sense, p2d_dn, p2d_dp, p2d_d, p2d_oe, max_endpoints, pid_data0,
  step_bus_reset, DrvState, st_idle, st_send, st_get, st_sync, st_eop, st_eop0, hs_nextframe,
  BusState, usb_idle, usb_control_setup, usb_control_setup_ack, usb_control_data_out,
  usb_control_data_out_ack, usb_control_status_in_token, usb_control_status_in_data,
  usb_control_data_in_token, usb_control_data_in_data, usb_control_status_out,
  usb_control_status_out_ack, usb_iso_in_token, usb_iso_in_data, usb_bulk_out, usb_bulk_out_ack,
  usb_bulk_in_token, usb_bulk_in_data, usb_interrupt_out, usb_interrupt_out_ack,
  usb_interrupt_in_token, usb_interrupt_in_data,
}
use ciexpert_usbdev.Context.{Ctx}

unfoldable pub bus_reset : Ctx → Ctx
bus_reset ctx = record ctx {
  ep_in = replicate max_endpoints pid_data0;
  ep_out = replicate max_endpoints pid_data0;
  baudrate_set_successfully = false;
  state = st_idle;
  step = step_bus_reset;
  host_st = hs_nextframe;
  dev_address = 0;
  bus_state = usb_idle;
}

-- The levels of D+ and D- that the device drives or pulls up, with a swap of the pins undone.
unfoldable pub device_lines : ℕ → Bool × Bool
device_lines d2p =
    if has d2p d2p_tx_use_d_se0
    then (if has d2p d2p_d_en
        then (if has d2p d2p_dnpu
            then (
              not (has d2p d2p_se0) && not (has d2p d2p_d),
              not (has d2p d2p_se0) && has d2p d2p_d,
            )
            else (
              not (has d2p d2p_se0) && has d2p d2p_d,
              not (has d2p d2p_se0) && not (has d2p d2p_d),
            ))
        else (has d2p d2p_pu, false))
    else if has d2p d2p_dnpu
    then (
      has d2p d2p_dn_en && has d2p d2p_dn || not (has d2p d2p_dn_en) && has d2p d2p_dnpu,
      has d2p d2p_dp_en && has d2p d2p_dp,
    )
    else (
      has d2p d2p_dp_en && has d2p d2p_dp || not (has d2p d2p_dp_en) && has d2p d2p_dppu,
      has d2p d2p_dn_en && has d2p d2p_dn,
    )

-- `d2p & (D2P_DP_EN | D2P_DN_EN | D2P_D_EN)`
abbrev pub device_drives : ℕ → Bool
device_drives d2p = has d2p (bit_or (bit_or d2p_dp_en d2p_dn_en) d2p_d_en)

-- The driver's state when the device drives the bus, or does not.
unfoldable pub follow_device : Bool → DrvState → DrvState
follow_device true st_idle = st_get
follow_device true s = s
follow_device false st_get = st_idle
follow_device false s = s

-- The stage of a transfer after an end of packet from the device.
unfoldable pub end_of_packet : BusState → BusState
end_of_packet usb_control_setup = usb_control_setup_ack
end_of_packet usb_control_data_out = usb_control_data_out_ack
end_of_packet usb_control_status_in_token = usb_control_status_in_data
end_of_packet usb_control_data_in_token = usb_control_data_in_data
end_of_packet usb_control_status_out = usb_control_status_out_ack
end_of_packet usb_iso_in_token = usb_iso_in_data
end_of_packet usb_bulk_out = usb_bulk_out_ack
end_of_packet usb_bulk_in_token = usb_bulk_in_data
end_of_packet usb_interrupt_out = usb_interrupt_out_ack
end_of_packet usb_interrupt_in_token = usb_interrupt_in_data
end_of_packet b = b

-- `ctx->state == ST_GET`
abbrev pub receiving : DrvState → Bool
receiving st_get = true
receiving _ = false

unfoldable pub usbdpi_device_to_host : Ctx → ℕ → Ctx
unfolding device_lines follow_device end_of_packet
usbdpi_device_to_host ctx d2p =
    let (dp, dn) = device_lines d2p in
    let state = follow_device (device_drives d2p) ctx.state in
    record ctx {
      state = state;
      last_pu = bit_and d2p d2p_pu;
      bus_state =
          if receiving state && not dp && not dn
          then end_of_packet ctx.bus_state
          else ctx.bus_state;
    }

-- The new value of `driving`; VBUS is kept.
unfoldable pub set_driving : Ctx → ℕ → ℕ → Bool → ℕ
set_driving ctx d2p newval p2d_enable =
    let sense = bit_and ctx.driving p2d_sense in
    let lines =
      if has d2p d2p_dnpu
      then (if has newval p2d_dp
          then bit_or sense (bit_or p2d_dn p2d_d)
          else if has newval p2d_dn
          then bit_or sense p2d_dp
          else sense)
      else if has newval p2d_dp
      then bit_or sense (bit_or p2d_dp p2d_d)
      else if has newval p2d_dn
      then bit_or sense p2d_dn
      else sense in
    if p2d_enable then bit_or lines p2d_oe else lines

unfoldable pub inv_driving : Ctx → ℕ → ℕ
inv_driving ctx d2p = bit_xor ctx.driving (bit_or (bit_or p2d_dp p2d_dn) p2d_d)
