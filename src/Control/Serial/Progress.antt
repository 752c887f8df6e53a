-- ===== src/Control/Serial/Progress.antt =====
-- usbdpi.c: `readBaud` and `setBaud` run to their end.
use ciexpert_usbdev.Base.{ℕ, ◌<◌, refl, true, inl, [], ◌∷◌, arith, ◌||◌}
use ciexpert_usbdev.Usb.{
  HostState, hs_startframe, hs_waitack, hs_reqdata, hs_waitdata, hs_sendack, hs_emptydata,
  hs_waitack2, hs_nextframe, is_bus, usb_control_setup, usb_control_status_out,
  usb_control_status_out_ack, pid_setup, pid_in, pid_out, pid_data0, pid_ack,
}
use ciexpert_usbdev.Context.{Ctx}
use ciexpert_usbdev.Control.{wait_then, waited}
use ciexpert_usbdev.Control.Serial.{read_baud_at, read_baud, set_baud_at, set_baud}
use ciexpert_usbdev.Control.Send.{
  IsReady, send_token-IsReady, send_transaction-IsReady, transfer_status-IsReady, relabel, at_state,
}
use ciexpert_usbdev.Control.Toggle.{next_pid}
use ciexpert_usbdev.Control.Serial.Toggle.{toggle_if_acked-Keeps}
use ciexpert_usbdev.Control.Progress.{stage, Goes, waits, either, after_step, moves}

read_baud_at-Goes :
    (h : HostState) (c : Ctx) (endpoint : ℕ)
    → IsReady c
    → endpoint < 16
    → Goes stage h c.dev_address c (read_baud_at h c endpoint)
unfolding read_baud_at
read_baud_at-Goes hs_startframe c endpoint r lt =
    let (t, runs, _, ready) =
      send_transaction-IsReady r pid_setup c.dev_address endpoint pid_data0 0
        (0xc2 ∷ 2 ∷ 0 ∷ 0 ∷ 0 ∷ 0 ∷ 0x2 ∷ 0 ∷ []) r.addressed lt (inl refl) (omega arith)
        (omega arith) in
    after_step _ runs
      (moves (at_state ready usb_control_setup hs_waitack c.wait) (omega arith) refl)
read_baud_at-Goes hs_waitack c endpoint r lt =
    moves (at_state r c.bus_state hs_reqdata (wait_then 32 hs_reqdata c).wait) (omega arith) refl
read_baud_at-Goes hs_reqdata c endpoint r lt =
    let (t, runs, _, ready) = send_token-IsReady r pid_in c.dev_address endpoint r.addressed lt in
    either (waited c)
      (after_step _ runs (moves (at_state ready c.bus_state hs_waitdata c.wait) (omega arith) refl))
      (waits r)
read_baud_at-Goes hs_waitdata c endpoint r lt =
    moves (at_state r c.bus_state hs_sendack (wait_then 200 hs_sendack c).wait) (omega arith) refl
read_baud_at-Goes hs_sendack c endpoint r lt =
    let (runs, ready) = transfer_status-IsReady r pid_ack in
    either (waited c)
      (after_step _ runs
        (moves (at_state ready c.bus_state hs_emptydata c.wait) (omega arith) refl))
      (waits r)
read_baud_at-Goes hs_emptydata c endpoint r lt =
    let (pid, next, is_data) = next_pid r endpoint lt in
    let (t, runs, _, ready) =
      send_transaction-IsReady r pid_out c.dev_address endpoint pid 0 [] r.addressed lt is_data
        (omega arith) (omega arith) in
    rw next (
      after_step _ runs (
        moves (at_state ready usb_control_status_out hs_waitack2 (wait_then 200 hs_waitack2 c).wait)
          (omega arith) refl))
read_baud_at-Goes hs_waitack2 c endpoint r lt =
    let (d, runs, ready, same) = toggle_if_acked-Keeps r endpoint lt in
    either (waited c || is_bus c.bus_state usb_control_status_out_ack)
      (after_step _ runs
        (moves (at_state ready d.bus_state hs_nextframe d.wait) (omega arith) same))
      (waits r)
read_baud_at-Goes _ c endpoint r lt = waits r

-- With a descriptor at hand and an endpoint below 16, no call of `readBaud` fails an assertion.
-- Each call keeps the context ready and the device address, and changes nothing or moves to a
-- later state.
pub read_baud-Goes :
    (c : Ctx) (endpoint : ℕ)
    → IsReady c
    → endpoint < 16
    → Goes stage c.host_st c.dev_address c (read_baud c endpoint)
unfolding read_baud
read_baud-Goes c endpoint = read_baud_at-Goes c.host_st c endpoint

set_baud_at-Goes :
    (h : HostState) (c : Ctx) (endpoint : ℕ)
    → IsReady c
    → endpoint < 16
    → Goes stage h c.dev_address c (set_baud_at h c endpoint)
unfolding set_baud_at
set_baud_at-Goes hs_startframe c endpoint r lt =
    let (t, runs, _, ready) =
      send_transaction-IsReady r pid_setup c.dev_address endpoint pid_data0 0
        (0x42 ∷ 3 ∷ 96 ∷ 0 ∷ 0 ∷ 0 ∷ 0 ∷ 0 ∷ []) r.addressed lt (inl refl) (omega arith)
        (omega arith) in
    after_step _ runs
      (moves (at_state ready usb_control_setup hs_waitack c.wait) (omega arith) refl)
set_baud_at-Goes hs_waitack c endpoint r lt =
    moves (at_state r c.bus_state hs_reqdata (wait_then 32 hs_reqdata c).wait) (omega arith) refl
set_baud_at-Goes hs_reqdata c endpoint r lt =
    let (t, runs, _, ready) = send_token-IsReady r pid_in c.dev_address endpoint r.addressed lt in
    either (waited c)
      (after_step _ runs (moves (at_state ready c.bus_state hs_waitdata c.wait) (omega arith) refl))
      (waits r)
set_baud_at-Goes hs_waitdata c endpoint r lt =
    moves (at_state r c.bus_state hs_sendack (wait_then 40 hs_sendack c).wait) (omega arith) refl
set_baud_at-Goes hs_sendack c endpoint r lt =
    let (runs, ready) = transfer_status-IsReady r pid_ack in
    either (waited c)
      (after_step _ runs (
        moves
          (relabel ready c.bus_state hs_nextframe c.wait c.dev_address c.lastrxpid true r.addressed)
          (omega arith) refl))
      (waits r)
set_baud_at-Goes _ c endpoint r lt = waits r

-- With a descriptor at hand and an endpoint below 16, no call of `setBaud` fails an assertion.
-- Each call keeps the context ready and the device address, and changes nothing or moves to a
-- later state.
pub set_baud-Goes :
    (c : Ctx) (endpoint : ℕ)
    → IsReady c
    → endpoint < 16
    → Goes stage c.host_st c.dev_address c (set_baud c endpoint)
unfolding set_baud
set_baud-Goes c endpoint = set_baud_at-Goes c.host_st c endpoint
