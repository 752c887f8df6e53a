-- ===== src/Control/Address.antt =====
-- usbdpi.c: `setDeviceAddress` and `setDeviceConfiguration` run to their end.
use ciexpert_usbdev.Base.{ℕ, ◌<◌, refl, inl, inr, [], ◌∷◌, arith, ◌&&◌, ◌||◌}
use ciexpert_usbdev.Usb.{
  HostState, hs_startframe, hs_waitack, hs_set_datastage, hs_ds_rxdata, hs_ds_sendack, hs_nextframe,
  is_bus, usb_control_setup, usb_control_setup_ack, usb_control_status_in_token,
  usb_control_status_in_data, usb_idle, pid_setup, pid_in, pid_data0, pid_ack,
}
use ciexpert_usbdev.Context.{Ctx}
use ciexpert_usbdev.Control.{
  wait_then, waited, set_address_at, set_device_address, set_address_field, set_configuration_at,
  set_device_configuration,
}
use ciexpert_usbdev.Control.Send.{
  IsReady, send_token-IsReady, send_transaction-IsReady, transfer_status-IsReady, relabel, at_state,
}
use ciexpert_usbdev.Control.Progress.{stage, Goes, waits, either, after_step, moves}

set_address_at-Goes :
    (h : HostState) (c : Ctx) (dev_addr : ℕ)
    → IsReady c
    → dev_addr < 128
    → Goes stage h dev_addr c (set_address_at h c dev_addr)
unfolding set_address_at
set_address_at-Goes hs_startframe c dev_addr r lt =
    let (t, runs, _, ready) =
      send_transaction-IsReady r pid_setup c.dev_address 0 pid_data0 8 (set_address_field dev_addr)
        r.addressed (omega arith) (inl refl) (omega arith) (omega arith) in
    after_step _ runs
      (moves (at_state ready usb_control_setup hs_waitack c.wait) (omega arith) refl)
set_address_at-Goes hs_waitack c dev_addr r lt =
    moves (at_state r c.bus_state hs_set_datastage (wait_then 532 hs_set_datastage c).wait)
      (omega arith) refl
set_address_at-Goes hs_set_datastage c dev_addr r lt =
    let (t, runs, _, ready) = send_token-IsReady r pid_in 0 0 (omega arith) (omega arith) in
    either (is_bus c.bus_state usb_control_setup_ack && waited c)
      (after_step _ runs
        (moves (at_state ready usb_control_status_in_token hs_ds_rxdata c.wait) (omega arith) refl))
      (waits r)
set_address_at-Goes hs_ds_rxdata c dev_addr r lt =
    moves (at_state r c.bus_state hs_ds_sendack (wait_then 24 hs_ds_sendack c).wait) (omega arith)
      refl
set_address_at-Goes hs_ds_sendack c dev_addr r lt =
    let (runs, ready) = transfer_status-IsReady r pid_ack in
    either (is_bus c.bus_state usb_control_status_in_data || waited c)
      (after_step _ runs record {
        after = _;
        runs = refl;
        ready =
            relabel ready usb_idle hs_nextframe c.wait dev_addr c.lastrxpid
              c.baudrate_set_successfully lt;
        later = inr (omega arith);
        address = inr (refl, refl);
      })
      (waits r)
set_address_at-Goes _ c dev_addr r lt = waits r

-- With a descriptor at hand and a new address below 128, no call of `setDeviceAddress` fails an
-- assertion. Each call keeps the context ready; it changes nothing or moves to a later state, and
-- the device address changes only to the new one, together with the move to the end.
pub set_device_address-Goes :
    (c : Ctx) (dev_addr : ℕ)
    → IsReady c
    → dev_addr < 128
    → Goes stage c.host_st dev_addr c (set_device_address c dev_addr)
unfolding set_device_address
set_device_address-Goes c dev_addr = set_address_at-Goes c.host_st c dev_addr

set_configuration_at-Goes :
    (h : HostState) (c : Ctx) (config : ℕ)
    → IsReady c
    → Goes stage h c.dev_address c (set_configuration_at h c config)
unfolding set_configuration_at
set_configuration_at-Goes hs_startframe c config r =
    let (t, runs, _, ready) =
      send_transaction-IsReady r pid_setup c.dev_address 0 pid_data0 8
        (0 ∷ 9 ∷ config ∷ 0 ∷ 0 ∷ 0 ∷ 0 ∷ 0 ∷ []) r.addressed (omega arith) (inl refl) (omega arith)
        (omega arith) in
    after_step _ runs
      (moves (at_state ready usb_control_setup hs_waitack c.wait) (omega arith) refl)
set_configuration_at-Goes hs_waitack c config r =
    moves (at_state r c.bus_state hs_set_datastage (wait_then 532 hs_set_datastage c).wait)
      (omega arith) refl
set_configuration_at-Goes hs_set_datastage c config r =
    let (t, runs, _, ready) =
      send_token-IsReady r pid_in c.dev_address 0 r.addressed (omega arith) in
    either (is_bus c.bus_state usb_control_setup_ack && waited c)
      (after_step _ runs
        (moves (at_state ready usb_control_status_in_token hs_ds_rxdata c.wait) (omega arith) refl))
      (waits r)
set_configuration_at-Goes hs_ds_rxdata c config r =
    moves (at_state r c.bus_state hs_ds_sendack (wait_then 24 hs_ds_sendack c).wait) (omega arith)
      refl
set_configuration_at-Goes hs_ds_sendack c config r =
    let (runs, ready) = transfer_status-IsReady r pid_ack in
    either (is_bus c.bus_state usb_control_status_in_data || waited c)
      (after_step _ runs (moves (at_state ready usb_idle hs_nextframe c.wait) (omega arith) refl))
      (waits r)
set_configuration_at-Goes _ c config r = waits r

-- With a descriptor at hand, no call of `setDeviceConfiguration` fails an assertion, whatever the
-- configuration's number. Each call keeps the context ready and the device address, and changes
-- nothing or moves to a later state.
pub set_device_configuration-Goes :
    (c : Ctx) (config : ℕ)
    → IsReady c
    → Goes stage c.host_st c.dev_address c (set_device_configuration c config)
unfolding set_device_configuration
set_device_configuration-Goes c config = set_configuration_at-Goes c.host_st c config
