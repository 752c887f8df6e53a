-- ===== src/Control/Read/Descriptor.antt =====
-- usbdpi.c: `getDescriptor` runs to its last handshake.
use ciexpert_usbdev.Base.{
  ℕ, ◌+◌, ◌<◌, ◌≤◌, ◌≡◌, ◌≢◌, refl, true, false, Bool-cases, ◌⊎◌, inl, inr, some, List, [], ◌∷◌,
  arith, ◌&&◌, not, ◌==◌, leb, ltb, length, drop, length-take, length-drop, get_elem?, ◌>>=◌,
}
use ciexpert_usbdev.Usb.{
  HostState, hs_startframe, hs_waitack, hs_reqdata, hs_waitdata, hs_sendack, hs_wait_pkt,
  hs_emptydata, hs_waitack2, is_bus, usb_control_data_in_data, usb_control_data_in_ack, pid_ack,
  step_get_config_descriptor, max_data, no_data_stage,
}
use ciexpert_usbdev.Utils.{get_le16}
use ciexpert_usbdev.Transfer.{Transfer, read, slice, transfer_data_field}
use ciexpert_usbdev.Context.{Ctx}
use ciexpert_usbdev.Context.Send.{handshake}
use ciexpert_usbdev.Control.{wait_then}
use ciexpert_usbdev.Control.Read.{
  acknowledge_data, collect_length, get_descriptor_at, get_descriptor,
}
use ciexpert_usbdev.Control.Send.{IsReady, sending, transfer_status-IsReady, at_state}
use ciexpert_usbdev.Control.Progress.{stage, Goes, waits, either, after_step, moves}
use ciexpert_usbdev.Control.Read.Progress.{
  request_data-Goes, time_out-Goes, wait_pkt-Goes, empty_data-Goes, setup-Goes, acknowledged,
}

-- A packet with at least the first four bytes of a configuration descriptor has been received.
pub record HasDescriptor (c : Ctx) : Type 0 where
  pub from : ℕ
  pub packet : Transfer
  pub into : c.recving ≡ some from
  pub found : get_elem? c.transfer_pool from ≡ some packet
  pub sized : length packet.data_bytes ≡ max_data
  pub inside : packet.data_start + 5 ≤ max_data
  pub field : packet.data_start + 1 < packet.num_bytes

two_bytes_read : (xs : List ℕ) → length xs ≡ 2 → (n : ℕ) × (get_le16 xs ≡ some n)
unfolding get_le16
two_bytes_read [] h = absurd (omega arith)
two_bytes_read (a ∷ []) h = absurd (omega arith)
two_bytes_read (a ∷ b ∷ rest) h = (_, refl)

collect_length_runs :
    {c : Ctx}
    → HasDescriptor c ⊎ ((c.step == step_get_config_descriptor) ≡ false)
    → (n : ℕ) × (collect_length c ≡ some (record c { cfg_desc_len = n }))
unfolding collect_length transfer_data_field read
collect_length_runs {c} (inr other) = (c.cfg_desc_len, rw other refl)
collect_length_runs {c} (inl h) =
    let rx = h.packet in
    let dp = rx.data_start + 1 in
    let (n, reads) = two_bytes_read (slice rx.data_bytes (dp + 2) 2) (
      omega (
        arith,
        length-take 2 (drop (dp + 2) rx.data_bytes),
        length-drop (dp + 2) rx.data_bytes,
        h.sized,
        h.inside,
      )) in
    let data_stage : (not (rx.data_start == no_data_stage) && ltb dp rx.num_bytes) ≡ true =
      ground (arith, h.inside, h.field) in
    let fits : leb (dp + 2 + 2) (length rx.data_bytes) ≡ true = ground (arith, h.sized, h.inside) in
    elim (Bool-cases (c.step == step_get_config_descriptor)) [
      | inl e ↦
          (n, rw (e, h.into, ◌>>=◌) (rw (h.found, ◌>>=◌) (rw data_stage (rw fits (rw reads refl)))))
      | inr e ↦ (c.cfg_desc_len, rw e refl)
    ]

with_length : {c : Ctx} (r : IsReady c) (n : ℕ) → IsReady (record c { cfg_desc_len = n })
with_length r n = record {
  at = r.at;
  holds = r.holds;
  sends = r.sends;
  found = r.found;
  sized = r.sized;
  addressed = r.addressed;
  endpoints = r.endpoints;
  toggles = r.toggles;
}

data_stage-Goes :
    {c : Ctx}
    → IsReady c
    → HasDescriptor c ⊎ ((c.step == step_get_config_descriptor) ≡ false)
    → Goes stage hs_sendack c.dev_address c (collect_length c >>= λ (x : Ctx). acknowledge_data x)
data_stage-Goes {c} r h =
    let (n, collects) = collect_length_runs h in
    let q = with_length r n in
    let x = record c { cfg_desc_len = n } in
    let (_, ready) = transfer_status-IsReady q pid_ack in
    after_step _ collects record {
      after = wait_then 200 hs_wait_pkt (record (sending x q.at (handshake q.holds pid_ack)) {
        bus_state = usb_control_data_in_ack;
      });
      runs = acknowledged q;
      ready = at_state ready usb_control_data_in_ack hs_wait_pkt (wait_then 200 hs_wait_pkt x).wait;
      later = inr (omega arith);
      address = inl refl;
    }

get_descriptor_at-Goes :
    (h : HostState) (c : Ctx) (desc_type desc_idx desc_len : ℕ)
    → IsReady c
    → HasDescriptor c ⊎ ((c.step == step_get_config_descriptor) ≡ false)
    → stage h ≢ 7
    → Goes stage h c.dev_address c (get_descriptor_at h c desc_type desc_idx desc_len)
unfolding get_descriptor_at
get_descriptor_at-Goes hs_startframe c desc_type desc_idx desc_len r d w =
    setup-Goes r 0x80 6 _ 0 desc_len
get_descriptor_at-Goes hs_waitack c desc_type desc_idx desc_len r d w =
    moves (at_state r c.bus_state hs_reqdata (wait_then 1164 hs_reqdata c).wait) (omega arith) refl
get_descriptor_at-Goes hs_reqdata c desc_type desc_idx desc_len r d w = request_data-Goes r
get_descriptor_at-Goes hs_waitdata c desc_type desc_idx desc_len r d w =
    moves (at_state r c.bus_state hs_sendack (wait_then 2000 hs_sendack c).wait) (omega arith) refl
get_descriptor_at-Goes hs_sendack c desc_type desc_idx desc_len r d w =
    either (is_bus c.bus_state usb_control_data_in_data) (data_stage-Goes r d) (time_out-Goes r)
get_descriptor_at-Goes hs_wait_pkt c desc_type desc_idx desc_len r d w = wait_pkt-Goes r
get_descriptor_at-Goes hs_emptydata c desc_type desc_idx desc_len r d w = empty_data-Goes r
get_descriptor_at-Goes hs_waitack2 c desc_type desc_idx desc_len r d w = absurd (w refl)
get_descriptor_at-Goes _ c desc_type desc_idx desc_len r d w = waits r

-- With a descriptor at hand, and the start of the configuration descriptor received when its
-- length is to be taken, no call of `getDescriptor` before the last handshake fails an assertion.
-- Each call keeps the context ready and the device address, and changes nothing or moves to a
-- later state.
pub get_descriptor-Goes :
    (c : Ctx) (desc_type desc_idx desc_len : ℕ)
    → IsReady c
    → HasDescriptor c ⊎ ((c.step == step_get_config_descriptor) ≡ false)
    → stage c.host_st ≢ 7
    → Goes stage c.host_st c.dev_address c (get_descriptor c desc_type desc_idx desc_len)
unfolding get_descriptor
get_descriptor-Goes c desc_type desc_idx desc_len =
    get_descriptor_at-Goes c.host_st c desc_type desc_idx desc_len
