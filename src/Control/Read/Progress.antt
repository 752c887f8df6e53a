-- ===== src/Control/Read/Progress.antt =====
-- usbdpi.c: the stages that `getDescriptor` and `getTestConfig` share.
use ciexpert_usbdev.Base.{
  ℕ, ◌≡◌, refl, sym, subst, Bool-cases, inl, inr, Option, some, [], arith, ◌&&◌,
}
use ciexpert_usbdev.Usb.{
  hs_startframe, hs_reqdata, hs_waitdata, hs_sendack, hs_wait_pkt, hs_emptydata, hs_waitack2,
  hs_nextframe, is_bus, usb_control_setup_ack, usb_control_data_in_token, usb_control_data_in_ack,
  usb_control_status_out, usb_idle, pid_in, pid_out, pid_data1, pid_ack,
}
use ciexpert_usbdev.Context.{Ctx, transfer_send, transfer_setup}
use ciexpert_usbdev.Context.Send.{
  handshake, stored-lookup, transfer_send_runs, setup_sent, transfer_setup_runs,
}
use ciexpert_usbdev.Control.{wait_then, waited}
use ciexpert_usbdev.Control.Read.{request_data, acknowledge_data, time_out, wait_pkt, empty_data}
use ciexpert_usbdev.Control.Send.{
  IsReady, sending, same_pointer, ready-MaySend, sending-IsReady, send_token-IsReady,
  send_transaction-IsReady, transfer_status-IsReady, at_state,
}
use ciexpert_usbdev.Control.Progress.{stage, Goes, waits, either, after_step, moves}

pub request_data-Goes :
    {c : Ctx} → IsReady c → Goes stage hs_reqdata c.dev_address c (request_data c)
unfolding request_data
request_data-Goes {c} r =
    let (t, runs, _, ready) =
      send_token-IsReady r pid_in c.dev_address 0 r.addressed (omega arith) in
    either (waited c && is_bus c.bus_state usb_control_setup_ack)
      (after_step _ runs
        (moves (at_state ready usb_control_data_in_token hs_waitdata c.wait) (omega arith) refl))
      (waits r)

pub time_out-Goes :
    {c : Ctx} → IsReady c → Goes stage hs_sendack c.dev_address c (some (time_out c))
unfolding time_out
time_out-Goes {c} r = elim (Bool-cases (waited c)) [
  | inl e ↦ rw e (moves (at_state r usb_idle hs_nextframe c.wait) (omega arith) refl)
  | inr e ↦ rw e (waits r)
]

pub wait_pkt-Goes :
    {c : Ctx} → IsReady c → Goes stage hs_wait_pkt c.dev_address c (some (wait_pkt c))
unfolding wait_pkt
wait_pkt-Goes {c} r = elim (Bool-cases (waited c)) [
  | inl e ↦ rw e (moves (at_state r c.bus_state hs_emptydata c.wait) (omega arith) refl)
  | inr e ↦ rw e (waits r)
]

pub empty_data-Goes : {c : Ctx} → IsReady c → Goes stage hs_emptydata c.dev_address c (empty_data c)
unfolding empty_data
empty_data-Goes {c} r =
    let (t, runs, _, ready) =
      send_transaction-IsReady r pid_out c.dev_address 0 pid_data1 0 [] r.addressed (omega arith)
        (inr refl) (omega arith) (omega arith) in
    after_step _ runs (
      moves (at_state ready usb_control_status_out hs_waitack2 (wait_then 200 hs_waitack2 c).wait)
        (omega arith) refl)

pub setup-Goes :
    {c : Ctx} (r : IsReady c) (bm_request_type b_request w_value w_index w_length : ℕ)
    → Goes stage hs_startframe c.dev_address c
        (transfer_setup c c.sending bm_request_type b_request w_value w_index w_length)
setup-Goes {c} r bm_request_type b_request w_value w_index w_length =
    let (t, runs, _, made) =
      transfer_setup_runs c r.at r.holds bm_request_type b_request w_value w_index w_length
        (ready-MaySend r) r.addressed in
    let sent = sending-IsReady r t made.size in
    let x = setup_sent c r.at t in
    subst
      (λ (q : Option ℕ).
        Goes stage hs_startframe c.dev_address c
          (transfer_setup c q bm_request_type b_request w_value w_index w_length))
      (sym r.sends)
      record {
        after = x;
        runs = runs;
        ready = at_state sent x.bus_state x.host_st x.wait;
        later = inr (omega arith);
        address = inl refl;
      }

-- The handshake is given to the transmitter twice.
pub acknowledged :
    {c : Ctx} (r : IsReady c)
    → acknowledge_data c
      ≡ some (
          wait_then 200 hs_wait_pkt (record (sending c r.at (handshake r.holds pid_ack)) {
            bus_state = usb_control_data_in_ack;
          }))
unfolding acknowledge_data
acknowledged {c} r =
    let (runs, ready) = transfer_status-IsReady r pid_ack in
    let x = sending c r.at (handshake r.holds pid_ack) in
    let again : transfer_send x c.sending ≡ some x =
      subst (λ (q : Option ℕ). transfer_send x q ≡ some x) (sym r.sends)
        (transfer_send_runs x r.at (handshake r.holds pid_ack)
          (stored-lookup c r.at r.holds (handshake r.holds pid_ack) r.found) (omega arith)
          (omega arith) (same_pointer r.at)) in
    rw runs (rw again refl)
