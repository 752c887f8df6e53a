-- ===== src/Host/Steps.antt =====
-- usbdpi.c: reading the test configuration does not change the step of the test.
use ciexpert_usbdev.Base.{
  ℕ, ◌≡◌, refl, ◌∙◌, Option, List, ◌==◌, ◌||◌, ◌&&◌, get_elem?, ltb, Bool, Bool-cases, inl, inr,
  bit_and, has, leb, Always, always_some, always_none, always_if, always_map, after, after_known,
  after_assert,
}
use ciexpert_usbdev.Usb.{
  is_bus, max_data, max_streams, pid_ack, pid_nak, pid_in, pid_out, pid_data1, test_smoke,
  test_pin_cfg, HostState, hs_startframe, hs_waitack, hs_reqdata, hs_waitdata, hs_sendack,
  hs_wait_pkt, hs_emptydata, hs_waitack2, usb_control_setup_ack, usb_control_data_in_data,
  usb_control_status_out_ack,
}
use ciexpert_usbdev.Transfer.{Transfer, transfer_data_field, read}
use ciexpert_usbdev.Context.{
  Ctx, on_transfer, may_send, transfer_send, transfer_status, transfer_setup,
}
use ciexpert_usbdev.Streams.{streams_init, streams_loop}
use ciexpert_usbdev.TestSequence.{
  streaming_test_init, stream_xfr_types, is_streaming, usbdpi_test_init,
}
use ciexpert_usbdev.Control.{waited, send_token, send_transaction, toggle_out}
use ciexpert_usbdev.Control.Read.{
  request_data, acknowledge_data, time_out, wait_pkt, empty_data, await_status, parse_test_config,
  receive_test_config, get_test_config_at, get_test_config,
}

-- Whenever there is a result, it has the step of `c`.
abbrev SameStep : Ctx → Option Ctx → Type 0
SameStep c r = Always r (λ (d : Ctx). d.step ≡ c.step)

on_transfer-SameStep :
    (c : Ctx) (p : Option ℕ) (f : Transfer → Option Transfer) → SameStep c (on_transfer c p f)
unfolding on_transfer
on_transfer-SameStep c p f =
    after p λ k _. after (get_elem? c.transfer_pool k) λ t _. after (f t) λ u _. always_some refl

transfer_send-SameStep : (c : Ctx) (p : Option ℕ) → SameStep c (transfer_send c p)
unfolding transfer_send
transfer_send-SameStep c p = after p λ k _. after (get_elem? c.transfer_pool k) λ t _.
    after_assert (ltb 0 t.num_bytes && leb t.num_bytes max_data)
      λ _. after_assert (may_send c.sending k) λ _. always_some refl

send_token-SameStep :
    (c : Ctx) (pid device endpoint : ℕ) → SameStep c (send_token c pid device endpoint)
unfolding send_token
send_token-SameStep c pid device endpoint =
    after_known (on_transfer-SameStep c c.sending _)
      λ d same. always_map (transfer_send-SameStep d c.sending) λ e more. more ∙ same

send_transaction-SameStep :
    (c : Ctx) (pid device endpoint data_pid est_size : ℕ) (field : List ℕ)
    → SameStep c (send_transaction c pid device endpoint data_pid est_size field)
unfolding send_transaction
send_transaction-SameStep c pid device endpoint data_pid est_size field =
    after_known (on_transfer-SameStep c c.sending _)
      λ d same. always_map (transfer_send-SameStep d c.sending) λ e more. more ∙ same

transfer_setup-SameStep :
    (c : Ctx) (p : Option ℕ) (t r v i l : ℕ) → SameStep c (transfer_setup c p t r v i l)
unfolding transfer_setup
transfer_setup-SameStep c p t r v i l =
    after_known (on_transfer-SameStep c p _)
      λ d same. after_known (transfer_send-SameStep d p) λ e more. always_some (more ∙ same)

transfer_status-SameStep : (c : Ctx) (p : Option ℕ) (pid : ℕ) → SameStep c (transfer_status c p pid)
unfolding transfer_status
transfer_status-SameStep c p pid = after p λ k _.
    after_known (on_transfer-SameStep c p _)
      λ d same. after_assert (may_send d.sending k) λ _. always_some same

request_data-SameStep : (c : Ctx) → SameStep c (request_data c)
unfolding request_data
request_data-SameStep c =
    always_if (waited c && is_bus c.bus_state usb_control_setup_ack)
      (λ _. after_known (send_token-SameStep c pid_in c.dev_address 0) λ d same. always_some same)
      (λ _. always_some refl)

acknowledge_data-SameStep : (c : Ctx) → SameStep c (acknowledge_data c)
unfolding acknowledge_data
acknowledge_data-SameStep c =
    after_known (transfer_status-SameStep c c.sending pid_ack)
      λ d same. after_known (transfer_send-SameStep d c.sending) λ e more. always_some (more ∙ same)

empty_data-SameStep : (c : Ctx) → SameStep c (empty_data c)
unfolding empty_data
empty_data-SameStep c =
    after_known (send_transaction-SameStep c pid_out c.dev_address 0 pid_data1 0 _)
      λ d same. always_some same

toggle_out-SameStep : (c : Ctx) (endpoint : ℕ) → SameStep c (toggle_out c endpoint)
unfolding toggle_out
toggle_out-SameStep c endpoint = after (get_elem? c.ep_out endpoint) λ p _. always_some refl

await_status-SameStep : (c : Ctx) → SameStep c (await_status c)
unfolding await_status
await_status-SameStep c =
    always_if (is_bus c.bus_state usb_control_status_out_ack)
      (λ _.
        always_if (c.lastrxpid == pid_ack)
          (λ _. after_known (toggle_out-SameStep c 0) λ d same. always_some same)
          (λ _. always_if (c.lastrxpid == pid_nak) (λ _. always_some refl) (λ _. always_some refl)))
      (λ _. always_if (waited c) (λ _. always_some refl) (λ _. always_some refl))

streams_init-SameStep :
    (c : Ctx) (n : ℕ) (types : List ℕ) (retrieve checking retrying send : Bool)
    → Always
        (streams_init c n types retrieve checking retrying send)
        (λ (r : Bool × Ctx). r.1.step ≡ c.step)
unfolding streams_init
streams_init-SameStep c n types retrieve checking retrying send =
    always_if (n == 0 || ltb max_streams n) (λ _. always_some refl)
      (λ _.
        after (streams_loop n 0 types retrieve checking retrying send c.stream)
          λ streams _. always_some refl)

streaming_test_init-SameStep :
    (c : Ctx) → Always (streaming_test_init c) (λ (r : Bool × Ctx). r.1.step ≡ c.step)
unfolding streaming_test_init
streaming_test_init-SameStep c = after (get_elem? c.test_arg 0) λ a _.
    always_if (leb (bit_and a 0xf) max_streams)
      (λ _. after (stream_xfr_types c (bit_and a 0xf)) λ types _.
        streams_init-SameStep c (bit_and a 0xf) types (has a 0x10) (has a 0x20) (has a 0x40)
          (has a 0x80))
      (λ _. always_some refl)

usbdpi_test_init-SameStep : (c : Ctx) → SameStep c (usbdpi_test_init c)
unfolding usbdpi_test_init
usbdpi_test_init-SameStep c =
    always_if (c.test_number == test_smoke || c.test_number == test_pin_cfg) (λ _. always_some refl)
      (λ _.
        always_if (is_streaming c.test_number)
          (λ _.
            after_known (streaming_test_init-SameStep c)
              λ (ok, d) same. after_assert ok λ _. always_some same)
          (λ _. always_none))

receive_test_config-SameStep : (c : Ctx) → SameStep c (receive_test_config c)
unfolding receive_test_config
receive_test_config-SameStep c = after_assert (c.lastrxpid == pid_data1) λ _. after c.recving λ p _.
    after (get_elem? c.transfer_pool p) λ rx _. after (transfer_data_field rx) λ dp _.
      after (read rx.data_bytes dp 16) λ bytes _.
        after (parse_test_config bytes) λ (number, args) _.
          usbdpi_test_init-SameStep (record c { test_number = number; test_arg = args })

time_out_keeps : (c : Ctx) → ((time_out c).step ≡ c.step) × ((wait_pkt c).step ≡ c.step)
unfolding time_out wait_pkt
time_out_keeps c = elim (Bool-cases (waited c)) [
  | inl e ↦ rw e (refl, refl)
  | inr e ↦ rw e (refl, refl)
]

get_test_config_at-SameStep :
    (hs : HostState) (c : Ctx) (desc_len : ℕ) → SameStep c (get_test_config_at hs c desc_len)
unfolding get_test_config_at
get_test_config_at-SameStep hs_startframe c desc_len =
    transfer_setup-SameStep c c.sending 0xc2 0x7C 0 0 desc_len
get_test_config_at-SameStep hs_waitack c desc_len = always_some refl
get_test_config_at-SameStep hs_reqdata c desc_len = request_data-SameStep c
get_test_config_at-SameStep hs_waitdata c desc_len = always_some refl
get_test_config_at-SameStep hs_sendack c desc_len =
    always_if (is_bus c.bus_state usb_control_data_in_data)
      (λ _.
        after_known (receive_test_config-SameStep c)
          λ d same. always_map (acknowledge_data-SameStep d) λ e more. more ∙ same)
      (λ _. always_some (time_out_keeps c).0)
get_test_config_at-SameStep hs_wait_pkt c desc_len = always_some (time_out_keeps c).1
get_test_config_at-SameStep hs_emptydata c desc_len = empty_data-SameStep c
get_test_config_at-SameStep hs_waitack2 c desc_len = await_status-SameStep c
get_test_config_at-SameStep _ c desc_len = always_some refl

pub get_test_config-SameStep : (c : Ctx) (desc_len : ℕ) → SameStep c (get_test_config c desc_len)
unfolding get_test_config
get_test_config-SameStep c desc_len =
    after c.sending λ tr _. get_test_config_at-SameStep c.host_st c desc_len
