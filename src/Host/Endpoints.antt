-- ===== src/Host/Endpoints.antt =====
-- usbdpi.c: the basic tests of the endpoints keep the account of the descriptors.
use ciexpert_usbdev.Base.{
  ℕ, refl, Bool, List, [], ◌∷◌, ◌==◌, ◌||◌, get_elem?, if◌then◌else◌, Always, always_some,
  always_if, always_map, after, after_known,
}
use ciexpert_usbdev.Usb.{
  HostState, hs_startframe, hs_waitack, hs_reqdata, hs_waitdata, hs_sendack, hs_wait_pkt,
  hs_ackifdata, hs_sendhi, hs_emptydata, hs_waitack2, is_bus, usb_control_status_out_ack,
  usb_bulk_in_data, pid_ack, pid_nak, pid_in, pid_out, pid_setup, pid_data0,
}
use ciexpert_usbdev.Context.{Ctx}
use ciexpert_usbdev.Control.{waited}
use ciexpert_usbdev.Control.Serial.{
  read_baud_at, read_baud, set_baud_at, set_baud, tx_pattern, try_tx_at, try_tx, poll_rx_at,
  poll_rx, test_unimpl_ep_at, test_unimpl_ep,
}
use ciexpert_usbdev.Service.Flow.{IsOwned}
use ciexpert_usbdev.Host.Account.{
  elsewhere, send_token-IsOwned, send_transaction-IsOwned, transfer_status-IsOwned,
  toggle_if_acked-IsOwned,
}

module _ {qs : List (List ℕ)} where
  read_baud_at-IsOwned :
      (hs : HostState) (c : Ctx) (endpoint : ℕ)
      → IsOwned c qs
      → Always (read_baud_at hs c endpoint) (λ (d : Ctx). IsOwned d qs)
  unfolding read_baud_at
  read_baud_at-IsOwned hs_startframe c endpoint h =
      after_known
        (send_transaction-IsOwned c pid_setup c.dev_address endpoint pid_data0 0
          (0xc2 ∷ 2 ∷ 0 ∷ 0 ∷ 0 ∷ 0 ∷ 0x2 ∷ 0 ∷ []) h)
        λ d owned. always_some (elsewhere refl owned)
  read_baud_at-IsOwned hs_waitack c endpoint h = always_some (elsewhere refl h)
  read_baud_at-IsOwned hs_reqdata c endpoint h =
      always_if (waited c)
        (λ _.
          after_known (send_token-IsOwned c pid_in c.dev_address endpoint h)
            λ d owned. always_some (elsewhere refl owned))
        (λ _. always_some h)
  read_baud_at-IsOwned hs_waitdata c endpoint h = always_some (elsewhere refl h)
  read_baud_at-IsOwned hs_sendack c endpoint h =
      always_if (waited c)
        (λ _.
          after_known (transfer_status-IsOwned c c.sending pid_ack h refl)
            λ d (owned, _). always_some (elsewhere refl owned))
        (λ _. always_some h)
  read_baud_at-IsOwned hs_emptydata c endpoint h = after (get_elem? c.ep_out endpoint) λ pid _.
      after_known (send_transaction-IsOwned c pid_out c.dev_address endpoint pid 0 ([]) h)
        λ d owned. always_some (elsewhere refl owned)
  read_baud_at-IsOwned hs_waitack2 c endpoint h =
      always_if (waited c || is_bus c.bus_state usb_control_status_out_ack)
        (λ _.
          after_known (toggle_if_acked-IsOwned c endpoint h)
            λ d owned. always_some (elsewhere refl owned))
        (λ _. always_some h)
  read_baud_at-IsOwned _ c endpoint h = always_some h

  pub read_baud-IsOwned :
      (c : Ctx) (endpoint : ℕ)
      → IsOwned c qs
      → Always (read_baud c endpoint) (λ (d : Ctx). IsOwned d qs)
  unfolding read_baud
  read_baud-IsOwned c endpoint h = read_baud_at-IsOwned c.host_st c endpoint h

  set_baud_at-IsOwned :
      (hs : HostState) (c : Ctx) (endpoint : ℕ)
      → IsOwned c qs
      → Always (set_baud_at hs c endpoint) (λ (d : Ctx). IsOwned d qs)
  unfolding set_baud_at
  set_baud_at-IsOwned hs_startframe c endpoint h =
      after_known
        (send_transaction-IsOwned c pid_setup c.dev_address endpoint pid_data0 0
          (0x42 ∷ 3 ∷ 96 ∷ 0 ∷ 0 ∷ 0 ∷ 0 ∷ 0 ∷ []) h)
        λ d owned. always_some (elsewhere refl owned)
  set_baud_at-IsOwned hs_waitack c endpoint h = always_some (elsewhere refl h)
  set_baud_at-IsOwned hs_reqdata c endpoint h =
      always_if (waited c)
        (λ _.
          after_known (send_token-IsOwned c pid_in c.dev_address endpoint h)
            λ d owned. always_some (elsewhere refl owned))
        (λ _. always_some h)
  set_baud_at-IsOwned hs_waitdata c endpoint h = always_some (elsewhere refl h)
  set_baud_at-IsOwned hs_sendack c endpoint h =
      always_if (waited c)
        (λ _.
          after_known (transfer_status-IsOwned c c.sending pid_ack h refl)
            λ d (owned, _). always_some (elsewhere refl owned))
        (λ _. always_some h)
  set_baud_at-IsOwned _ c endpoint h = always_some h

  pub set_baud-IsOwned :
      (c : Ctx) (endpoint : ℕ)
      → IsOwned c qs
      → Always (set_baud c endpoint) (λ (d : Ctx). IsOwned d qs)
  unfolding set_baud
  set_baud-IsOwned c endpoint h = set_baud_at-IsOwned c.host_st c endpoint h

  try_tx_at-IsOwned :
      (hs : HostState) (c : Ctx) (endpoint : ℕ) (expect_status : Bool)
      → IsOwned c qs
      → Always (try_tx_at hs c endpoint expect_status) (λ (d : Ctx). IsOwned d qs)
  unfolding try_tx_at
  try_tx_at-IsOwned hs_startframe c endpoint expect_status h =
      after (get_elem? c.ep_out endpoint) λ pid _.
        after_known (send_transaction-IsOwned c pid_out c.dev_address endpoint pid 0 (tx_pattern) h)
          λ d owned. always_some (elsewhere refl owned)
  try_tx_at-IsOwned hs_waitack c endpoint expect_status h = always_some (elsewhere refl h)
  try_tx_at-IsOwned hs_reqdata c endpoint expect_status h =
      always_if (waited c)
        (λ _.
          after_known {P = λ (d : Ctx). IsOwned d qs}
            (always_if expect_status (λ _. toggle_if_acked-IsOwned c endpoint h)
              (λ _. always_some h))
            λ b kept.
              after_known (send_token-IsOwned b pid_in b.dev_address endpoint kept)
                λ d owned. always_some (elsewhere refl owned))
        (λ _. always_some h)
  try_tx_at-IsOwned hs_waitdata c endpoint expect_status h = always_some (elsewhere refl h)
  try_tx_at-IsOwned _ c endpoint expect_status h = always_some h

  pub try_tx-IsOwned :
      (c : Ctx) (endpoint : ℕ) (expect_status : Bool)
      → IsOwned c qs
      → Always (try_tx c endpoint expect_status) (λ (d : Ctx). IsOwned d qs)
  unfolding try_tx
  try_tx-IsOwned c endpoint expect_status h = try_tx_at-IsOwned c.host_st c endpoint expect_status h

  poll_rx_at-IsOwned :
      (hs : HostState) (c : Ctx) (endpoint : ℕ) (send_hi nak_data : Bool)
      → IsOwned c qs
      → Always (poll_rx_at hs c endpoint send_hi nak_data) (λ (d : Ctx). IsOwned d qs)
  unfolding poll_rx_at
  poll_rx_at-IsOwned hs_startframe c endpoint send_hi nak_data h =
      after_known (send_token-IsOwned c pid_in c.dev_address endpoint h)
        λ d owned. always_some (elsewhere refl owned)
  poll_rx_at-IsOwned hs_wait_pkt c endpoint send_hi nak_data h = always_some (elsewhere refl h)
  poll_rx_at-IsOwned hs_ackifdata c endpoint send_hi nak_data h =
      always_if (is_bus c.bus_state usb_bulk_in_data)
        (λ _.
          after_known {P = λ (d : Ctx). IsOwned d qs}
            (always_if (c.lastrxpid == pid_nak) (λ _. always_some h)
              (λ _.
                always_map
                  (transfer_status-IsOwned c c.sending (if nak_data then pid_nak else pid_ack) h
                    refl)
                  λ d (owned, _). owned))
            λ d owned. always_some (elsewhere refl owned))
        (λ _. always_if (waited c) (λ _. always_some (elsewhere refl h)) (λ _. always_some h))
  poll_rx_at-IsOwned hs_sendhi c endpoint send_hi nak_data h =
      always_if send_hi
        (λ _. after (get_elem? c.ep_out endpoint) λ pid _.
          after_known
            (send_transaction-IsOwned c pid_out c.dev_address endpoint pid 0
              (0x48 ∷ 0x69 ∷ 0x21 ∷ []) h)
            λ d owned. always_some (elsewhere refl owned))
        (λ _. always_some (elsewhere refl h))
  poll_rx_at-IsOwned hs_waitack c endpoint send_hi nak_data h =
      always_if (waited c)
        (λ _.
          after_known (toggle_if_acked-IsOwned c endpoint h)
            λ d owned. always_some (elsewhere refl owned))
        (λ _. always_some h)
  poll_rx_at-IsOwned _ c endpoint send_hi nak_data h = always_some h

  pub poll_rx-IsOwned :
      (c : Ctx) (endpoint : ℕ) (send_hi nak_data : Bool)
      → IsOwned c qs
      → Always (poll_rx c endpoint send_hi nak_data) (λ (d : Ctx). IsOwned d qs)
  unfolding poll_rx
  poll_rx-IsOwned c endpoint send_hi nak_data h =
      poll_rx_at-IsOwned c.host_st c endpoint send_hi nak_data h

  test_unimpl_ep_at-IsOwned :
      (hs : HostState) (c : Ctx) (pid device endpoint : ℕ)
      → IsOwned c qs
      → Always (test_unimpl_ep_at hs c pid device endpoint) (λ (d : Ctx). IsOwned d qs)
  unfolding test_unimpl_ep_at
  test_unimpl_ep_at-IsOwned hs_startframe c pid device endpoint h =
      always_if (pid == pid_setup || pid == pid_out)
        (λ _.
          after_known
            (send_transaction-IsOwned c pid device endpoint pid_data0 0
              (0 ∷ 5 ∷ 2 ∷ 0 ∷ 0xFF ∷ 0 ∷ 0 ∷ 0 ∷ []) h)
            λ d owned. always_some (elsewhere refl owned))
        (λ _.
          always_if (pid == pid_in)
            (λ _.
              after_known (send_token-IsOwned c pid device endpoint h)
                λ d owned. always_some (elsewhere refl owned))
            (λ _. always_some (elsewhere refl h)))
  test_unimpl_ep_at-IsOwned hs_waitack c pid device endpoint h = always_some (elsewhere refl h)
  test_unimpl_ep_at-IsOwned _ c pid device endpoint h = always_some h

  pub test_unimpl_ep-IsOwned :
      (c : Ctx) (pid device endpoint : ℕ)
      → IsOwned c qs
      → Always (test_unimpl_ep c pid device endpoint) (λ (d : Ctx). IsOwned d qs)
  unfolding test_unimpl_ep
  test_unimpl_ep-IsOwned c pid device endpoint h =
      test_unimpl_ep_at-IsOwned c.host_st c pid device endpoint h
