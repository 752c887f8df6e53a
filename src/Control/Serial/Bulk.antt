-- ===== src/Control/Serial/Bulk.antt =====
-- usbdpi.c: `tryTX`, `pollRX` and `testUnimplEp` run to their end.
use ciexpert_usbdev.Base.{ℕ, ◌<◌, refl, Bool, inl, some, [], ◌∷◌, arith, ◌||◌, ◌==◌, if◌then◌else◌}
use ciexpert_usbdev.Usb.{
  HostState, hs_startframe, hs_waitack, hs_reqdata, hs_waitdata, hs_wait_pkt, hs_ackifdata,
  hs_sendhi, hs_nextframe, is_bus, usb_bulk_out, usb_bulk_in_token, usb_bulk_in_data, pid_setup,
  pid_in, pid_out, pid_data0, pid_ack, pid_nak,
}
use ciexpert_usbdev.Context.{Ctx, transfer_status}
use ciexpert_usbdev.Control.{wait_then, waited}
use ciexpert_usbdev.Control.Serial.{
  tx_pattern, try_tx_at, try_tx, poll_rx_at, poll_rx, test_unimpl_ep_at, test_unimpl_ep,
}
use ciexpert_usbdev.Control.Send.{
  IsReady, send_token-IsReady, send_transaction-IsReady, transfer_status-IsReady, relabel, at_state,
}
use ciexpert_usbdev.Control.Toggle.{next_pid}
use ciexpert_usbdev.Control.Serial.Toggle.{Keeps, Keeps-either, toggle_if_acked-Keeps}
use ciexpert_usbdev.Control.Progress.{stage, poll_stage, Goes, waits, either, after_step, moves}

try_tx_at-Goes :
    (h : HostState) (c : Ctx) (endpoint : ℕ) (expect_status : Bool)
    → IsReady c
    → endpoint < 16
    → Goes stage h c.dev_address c (try_tx_at h c endpoint expect_status)
unfolding try_tx_at
try_tx_at-Goes hs_startframe c endpoint expect_status r lt =
    let (pid, next, is_data) = next_pid r endpoint lt in
    let (t, runs, _, ready) =
      send_transaction-IsReady r pid_out c.dev_address endpoint pid 0 tx_pattern r.addressed lt
        is_data (omega arith) (omega arith) in
    rw next
      (after_step _ runs (moves (at_state ready usb_bulk_out hs_waitack c.wait) (omega arith) refl))
try_tx_at-Goes hs_waitack c endpoint expect_status r lt =
    moves (at_state r c.bus_state hs_reqdata (wait_then 32 hs_reqdata c).wait) (omega arith) refl
try_tx_at-Goes hs_reqdata c endpoint expect_status r lt =
    let (d, first, kept, same) =
      Keeps-either c expect_status _ _ (toggle_if_acked-Keeps r endpoint lt) (c, refl, r, refl) in
    let (t, runs, _, ready) =
      send_token-IsReady kept pid_in d.dev_address endpoint kept.addressed lt in
    either (waited c)
      (after_step _ first (
        after_step _ runs
          (moves (at_state ready d.bus_state hs_waitdata d.wait) (omega arith) same)))
      (waits r)
try_tx_at-Goes hs_waitdata c endpoint expect_status r lt =
    moves (at_state r c.bus_state hs_nextframe (wait_then 40 hs_nextframe c).wait) (omega arith)
      refl
try_tx_at-Goes _ c endpoint expect_status r lt = waits r

-- With a descriptor at hand and an endpoint below 16, no call of `tryTX` fails an assertion.
-- Each call keeps the context ready and the device address, and changes nothing or moves to a
-- later state.
try_tx-Goes :
    (c : Ctx) (endpoint : ℕ) (expect_status : Bool)
    → IsReady c
    → endpoint < 16
    → Goes stage c.host_st c.dev_address c (try_tx c endpoint expect_status)
unfolding try_tx
try_tx-Goes c endpoint expect_status = try_tx_at-Goes c.host_st c endpoint expect_status

-- The handshake for a packet that came in.
answer-Keeps :
    {c : Ctx} (r : IsReady c) (pid : ℕ)
    → Keeps c (if c.lastrxpid == pid_nak then some c else transfer_status c c.sending pid)
answer-Keeps {c} r pid =
    let (runs, ready) = transfer_status-IsReady r pid in
    Keeps-either c (c.lastrxpid == pid_nak) _ _ (c, refl, r, refl) (_, runs, ready, refl)

poll_rx_at-Goes :
    (h : HostState) (c : Ctx) (endpoint : ℕ) (send_hi nak_data : Bool)
    → IsReady c
    → endpoint < 16
    → Goes poll_stage h c.dev_address c (poll_rx_at h c endpoint send_hi nak_data)
unfolding poll_rx_at
poll_rx_at-Goes hs_startframe c endpoint send_hi nak_data r lt =
    let (t, runs, _, ready) = send_token-IsReady r pid_in c.dev_address endpoint r.addressed lt in
    after_step _ runs (
      moves
        (relabel ready usb_bulk_in_token hs_wait_pkt c.wait c.dev_address 0
          c.baudrate_set_successfully r.addressed)
        (omega arith) refl)
poll_rx_at-Goes hs_wait_pkt c endpoint send_hi nak_data r lt =
    moves (at_state r c.bus_state hs_ackifdata (wait_then 562 hs_ackifdata c).wait) (omega arith)
      refl
poll_rx_at-Goes hs_ackifdata c endpoint send_hi nak_data r lt =
    let (d, runs, ready, same) = answer-Keeps r (if nak_data then pid_nak else pid_ack) in
    either (is_bus c.bus_state usb_bulk_in_data)
      (after_step _ runs (moves (at_state ready d.bus_state hs_sendhi d.wait) (omega arith) same))
      (either (waited c) (moves (at_state r c.bus_state hs_sendhi c.wait) (omega arith) refl)
        (waits r))
poll_rx_at-Goes hs_sendhi c endpoint send_hi nak_data r lt =
    let (pid, next, is_data) = next_pid r endpoint lt in
    let (t, runs, _, ready) =
      send_transaction-IsReady r pid_out c.dev_address endpoint pid 0 (0x48 ∷ 0x69 ∷ 0x21 ∷ [])
        r.addressed lt is_data (omega arith) (omega arith) in
    rw next (
      either send_hi
        (after_step _ runs (
          moves (at_state ready c.bus_state hs_waitack (wait_then 532 hs_waitack c).wait)
            (omega arith) refl))
        (moves (at_state r c.bus_state hs_nextframe c.wait) (omega arith) refl))
poll_rx_at-Goes hs_waitack c endpoint send_hi nak_data r lt =
    let (d, runs, ready, same) = toggle_if_acked-Keeps r endpoint lt in
    either (waited c)
      (after_step _ runs
        (moves (at_state ready d.bus_state hs_nextframe d.wait) (omega arith) same))
      (waits r)
poll_rx_at-Goes _ c endpoint send_hi nak_data r lt = waits r

-- With a descriptor at hand and an endpoint below 16, no call of `pollRX` fails an assertion,
-- whichever of its switches are set. Each call keeps the context ready and the device address, and
-- changes nothing or moves to a later state in the order of `poll_stage`.
pub poll_rx-Goes :
    (c : Ctx) (endpoint : ℕ) (send_hi nak_data : Bool)
    → IsReady c
    → endpoint < 16
    → Goes poll_stage c.host_st c.dev_address c (poll_rx c endpoint send_hi nak_data)
unfolding poll_rx
poll_rx-Goes c endpoint send_hi nak_data = poll_rx_at-Goes c.host_st c endpoint send_hi nak_data

test_unimpl_ep_at-Goes :
    (h : HostState) (c : Ctx) (pid device endpoint : ℕ)
    → IsReady c
    → device < 128
    → endpoint < 16
    → Goes stage h c.dev_address c (test_unimpl_ep_at h c pid device endpoint)
unfolding test_unimpl_ep_at
test_unimpl_ep_at-Goes hs_startframe c pid device endpoint r dev lt =
    let (t, runs, _, ready) =
      send_transaction-IsReady r pid device endpoint pid_data0 0
        (0 ∷ 5 ∷ 2 ∷ 0 ∷ 0xFF ∷ 0 ∷ 0 ∷ 0 ∷ []) dev lt (inl refl) (omega arith) (omega arith) in
    let (u, token_runs, _, token_ready) = send_token-IsReady r pid device endpoint dev lt in
    either (pid == pid_setup || pid == pid_out)
      (after_step _ runs (moves (at_state ready c.bus_state hs_waitack c.wait) (omega arith) refl))
      (either (pid == pid_in)
        (after_step _ token_runs
          (moves (at_state token_ready c.bus_state hs_waitack c.wait) (omega arith) refl))
        (moves (at_state r c.bus_state hs_nextframe c.wait) (omega arith) refl))
test_unimpl_ep_at-Goes hs_waitack c pid device endpoint r dev lt =
    moves (at_state r c.bus_state hs_nextframe (wait_then 32 hs_nextframe c).wait) (omega arith)
      refl
test_unimpl_ep_at-Goes _ c pid device endpoint r dev lt = waits r

-- With a descriptor at hand, an address below 128 and an endpoint below 16, no call of
-- `testUnimplEp` fails an assertion, whatever the PID. Each call keeps the context ready and the
-- device address, and changes nothing or moves to a later state.
test_unimpl_ep-Goes :
    (c : Ctx) (pid device endpoint : ℕ)
    → IsReady c
    → device < 128
    → endpoint < 16
    → Goes stage c.host_st c.dev_address c (test_unimpl_ep c pid device endpoint)
unfolding test_unimpl_ep
test_unimpl_ep-Goes c pid device endpoint = test_unimpl_ep_at-Goes c.host_st c pid device endpoint
