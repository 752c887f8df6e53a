-- ===== src/Host/Transfers.antt =====
-- usbdpi.c: the control transfers and the basic tests keep the account of the descriptors.
use ciexpert_usbdev.Base.{
  ℕ, ◌+◌, refl, List, [], ◌∷◌, ◌==◌, ◌||◌, ◌&&◌, get_elem?, Always, always_some, always_if, after,
  after_known, Bool-cases, inl, inr, u16, u8, bit_or, ◌<<<◌,
}
use ciexpert_usbdev.Usb.{
  HostState, hs_startframe, hs_waitack, hs_set_datastage, hs_ds_rxdata, hs_ds_sendack, hs_reqdata,
  hs_waitdata, hs_sendack, hs_wait_pkt, hs_emptydata, hs_waitack2, is_bus, usb_control_setup_ack,
  usb_control_status_in_data, usb_control_status_out_ack, usb_control_data_in_data, pid_ack,
  pid_nak, pid_in, pid_out, pid_setup, pid_data0, pid_data1, step_get_config_descriptor,
}
use ciexpert_usbdev.Utils.{get_le16}
use ciexpert_usbdev.Transfer.{read, transfer_data_field}
use ciexpert_usbdev.Context.{Ctx}
use ciexpert_usbdev.Control.{
  waited, set_address_at, set_address_field, set_device_address, set_configuration_at,
  set_device_configuration,
}
use ciexpert_usbdev.Control.Read.{
  request_data, acknowledge_data, time_out, wait_pkt, empty_data, await_status, collect_length,
  get_descriptor_at, get_descriptor,
}
use ciexpert_usbdev.Service.Flow.{IsOwned}
use ciexpert_usbdev.Host.Account.{
  elsewhere, send_token-IsOwned, send_transaction-IsOwned, transfer_setup-IsOwned,
  transfer_status-IsOwned, transfer_send-IsOwned, toggle_out-IsOwned,
}

module _ {qs : List (List ℕ)} where
  set_address_at-IsOwned :
      (hs : HostState) (c : Ctx) (dev_addr : ℕ)
      → IsOwned c qs
      → Always (set_address_at hs c dev_addr) (λ (d : Ctx). IsOwned d qs)
  unfolding set_address_at
  set_address_at-IsOwned hs_startframe c dev_addr h =
      after_known
        (send_transaction-IsOwned c pid_setup c.dev_address 0 pid_data0 8
          (set_address_field dev_addr) h)
        λ d owned. always_some (elsewhere refl owned)
  set_address_at-IsOwned hs_waitack c dev_addr h = always_some (elsewhere refl h)
  set_address_at-IsOwned hs_set_datastage c dev_addr h =
      always_if (is_bus c.bus_state usb_control_setup_ack && waited c)
        (λ _.
          after_known (send_token-IsOwned c pid_in 0 0 h)
            λ d owned. always_some (elsewhere refl owned))
        (λ _. always_some h)
  set_address_at-IsOwned hs_ds_rxdata c dev_addr h = always_some (elsewhere refl h)
  set_address_at-IsOwned hs_ds_sendack c dev_addr h =
      always_if (is_bus c.bus_state usb_control_status_in_data || waited c)
        (λ _.
          after_known (transfer_status-IsOwned c c.sending pid_ack h refl)
            λ d (owned, _). always_some (elsewhere refl owned))
        (λ _. always_some h)
  set_address_at-IsOwned _ c dev_addr h = always_some h

  set_configuration_at-IsOwned :
      (hs : HostState) (c : Ctx) (config : ℕ)
      → IsOwned c qs
      → Always (set_configuration_at hs c config) (λ (d : Ctx). IsOwned d qs)
  unfolding set_configuration_at
  set_configuration_at-IsOwned hs_startframe c config h =
      after_known
        (send_transaction-IsOwned c pid_setup c.dev_address 0 pid_data0 8
          (0 ∷ 9 ∷ config ∷ 0 ∷ 0 ∷ 0 ∷ 0 ∷ 0 ∷ []) h)
        λ d owned. always_some (elsewhere refl owned)
  set_configuration_at-IsOwned hs_waitack c config h = always_some (elsewhere refl h)
  set_configuration_at-IsOwned hs_set_datastage c config h =
      always_if (is_bus c.bus_state usb_control_setup_ack && waited c)
        (λ _.
          after_known (send_token-IsOwned c pid_in c.dev_address 0 h)
            λ d owned. always_some (elsewhere refl owned))
        (λ _. always_some h)
  set_configuration_at-IsOwned hs_ds_rxdata c config h = always_some (elsewhere refl h)
  set_configuration_at-IsOwned hs_ds_sendack c config h =
      always_if (is_bus c.bus_state usb_control_status_in_data || waited c)
        (λ _.
          after_known (transfer_status-IsOwned c c.sending pid_ack h refl)
            λ d (owned, _). always_some (elsewhere refl owned))
        (λ _. always_some h)
  set_configuration_at-IsOwned _ c config h = always_some h

  pub request_data-IsOwned :
      (c : Ctx) → IsOwned c qs → Always (request_data c) (λ (d : Ctx). IsOwned d qs)
  unfolding request_data
  request_data-IsOwned c h =
      always_if (waited c && is_bus c.bus_state usb_control_setup_ack)
        (λ _.
          after_known (send_token-IsOwned c pid_in c.dev_address 0 h)
            λ d owned. always_some (elsewhere refl owned))
        (λ _. always_some h)

  pub acknowledge_data-IsOwned :
      (c : Ctx) → IsOwned c qs → Always (acknowledge_data c) (λ (d : Ctx). IsOwned d qs)
  unfolding acknowledge_data
  acknowledge_data-IsOwned c h =
      after_known (transfer_status-IsOwned c c.sending pid_ack h refl) λ d (owned, e).
        after_known (transfer_send-IsOwned d c.sending owned e)
          λ b (done, _). always_some (elsewhere refl done)

  pub time_out-IsOwned : (c : Ctx) → IsOwned c qs → IsOwned (time_out c) qs
  unfolding time_out
  time_out-IsOwned c h = elim (Bool-cases (waited c)) [
    | inl e ↦ rw e (elsewhere refl h)
    | inr e ↦ rw e h
  ]

  pub wait_pkt-IsOwned : (c : Ctx) → IsOwned c qs → IsOwned (wait_pkt c) qs
  unfolding wait_pkt
  wait_pkt-IsOwned c h = elim (Bool-cases (waited c)) [
    | inl e ↦ rw e (elsewhere refl h)
    | inr e ↦ rw e h
  ]

  pub empty_data-IsOwned :
      (c : Ctx) → IsOwned c qs → Always (empty_data c) (λ (d : Ctx). IsOwned d qs)
  unfolding empty_data
  empty_data-IsOwned c h =
      after_known (send_transaction-IsOwned c pid_out c.dev_address 0 pid_data1 0 [] h)
        λ d owned. always_some (elsewhere refl owned)

  pub await_status-IsOwned :
      (c : Ctx) → IsOwned c qs → Always (await_status c) (λ (d : Ctx). IsOwned d qs)
  unfolding await_status
  await_status-IsOwned c h =
      always_if (is_bus c.bus_state usb_control_status_out_ack)
        (λ _.
          always_if (c.lastrxpid == pid_ack)
            (λ _.
              after_known (toggle_out-IsOwned c 0 h) λ d owned. always_some (elsewhere refl owned))
            (λ _.
              always_if (c.lastrxpid == pid_nak) (λ _. always_some (elsewhere refl h))
                (λ _. always_some (elsewhere refl h))))
        (λ _. always_if (waited c) (λ _. always_some (elsewhere refl h)) (λ _. always_some h))

  collect_length-IsOwned :
      (c : Ctx) → IsOwned c qs → Always (collect_length c) (λ (d : Ctx). IsOwned d qs)
  unfolding collect_length
  collect_length-IsOwned c h =
      always_if (c.step == step_get_config_descriptor)
        (λ _. after c.recving λ p _. after (get_elem? c.transfer_pool p) λ rx _.
          after (transfer_data_field rx) λ dp _.
            after (read rx.data_bytes (dp + 2) 2)
              λ bytes _. after (get_le16 bytes) λ n _. always_some (elsewhere refl h))
        (λ _. always_some h)

  get_descriptor_at-IsOwned :
      (hs : HostState) (c : Ctx) (desc_type desc_idx desc_len : ℕ)
      → IsOwned c qs
      → Always (get_descriptor_at hs c desc_type desc_idx desc_len) (λ (d : Ctx). IsOwned d qs)
  unfolding get_descriptor_at
  get_descriptor_at-IsOwned hs_startframe c desc_type desc_idx desc_len h =
      transfer_setup-IsOwned c 0x80 6 (u16 (bit_or (desc_type <<< 8) (u8 desc_idx))) 0 desc_len h
  get_descriptor_at-IsOwned hs_waitack c desc_type desc_idx desc_len h =
      always_some (elsewhere refl h)
  get_descriptor_at-IsOwned hs_reqdata c desc_type desc_idx desc_len h = request_data-IsOwned c h
  get_descriptor_at-IsOwned hs_waitdata c desc_type desc_idx desc_len h =
      always_some (elsewhere refl h)
  get_descriptor_at-IsOwned hs_sendack c desc_type desc_idx desc_len h =
      always_if (is_bus c.bus_state usb_control_data_in_data)
        (λ _. after_known (collect_length-IsOwned c h) λ d owned. acknowledge_data-IsOwned d owned)
        (λ _. always_some (time_out-IsOwned c h))
  get_descriptor_at-IsOwned hs_wait_pkt c desc_type desc_idx desc_len h =
      always_some (wait_pkt-IsOwned c h)
  get_descriptor_at-IsOwned hs_emptydata c desc_type desc_idx desc_len h = empty_data-IsOwned c h
  get_descriptor_at-IsOwned hs_waitack2 c desc_type desc_idx desc_len h = await_status-IsOwned c h
  get_descriptor_at-IsOwned _ c desc_type desc_idx desc_len h = always_some h

  pub set_device_address-IsOwned :
      (c : Ctx) (dev_addr : ℕ)
      → IsOwned c qs
      → Always (set_device_address c dev_addr) (λ (d : Ctx). IsOwned d qs)
  unfolding set_device_address
  set_device_address-IsOwned c dev_addr h = set_address_at-IsOwned c.host_st c dev_addr h

  pub set_device_configuration-IsOwned :
      (c : Ctx) (config : ℕ)
      → IsOwned c qs
      → Always (set_device_configuration c config) (λ (d : Ctx). IsOwned d qs)
  unfolding set_device_configuration
  set_device_configuration-IsOwned c config h = set_configuration_at-IsOwned c.host_st c config h

  pub get_descriptor-IsOwned :
      (c : Ctx) (desc_type desc_idx desc_len : ℕ)
      → IsOwned c qs
      → Always (get_descriptor c desc_type desc_idx desc_len) (λ (d : Ctx). IsOwned d qs)
  unfolding get_descriptor
  get_descriptor-IsOwned c desc_type desc_idx desc_len h =
      get_descriptor_at-IsOwned c.host_st c desc_type desc_idx desc_len h
