-- ===== src/Control/Read.antt =====
-- usbdpi.c: `getDescriptor` and `getTestConfig`, control transfers with a data stage from the
-- device, and the status stage that both write out.
pub mod Config
pub mod Progress
pub mod Descriptor
use ciexpert_usbdev.Base.{
  ℕ, zero, suc, ◌+◌, ◌*◌, ◌/◌, ◌%◌, ◌^◌, bit_or, Bool, true, false, ◌&&◌, ◌||◌, Option, none, some,
  List, [], ◌∷◌, leb, ltb, ◌==◌, if◌then◌else◌, get_elem?, set, assert, ◌>>=◌, ◌>>◌, u8, u16, u32,
  ◌<<<◌, ◌>>>◌,
}
use ciexpert_usbdev.Usb.{
  HostState, hs_startframe, hs_waitack, hs_reqdata, hs_waitdata, hs_sendack, hs_wait_pkt,
  hs_emptydata, hs_waitack2, hs_nextframe, BusState, is_bus, usb_idle, usb_control_setup_ack,
  usb_control_data_in_token, usb_control_data_in_data, usb_control_data_in_ack,
  usb_control_status_out, usb_control_status_out_ack, pid_in, pid_out, pid_data1, pid_ack, pid_nak,
  step_get_config_descriptor,
}
use ciexpert_usbdev.Utils.{get_le16}
use ciexpert_usbdev.Transfer.{transfer_data_field, read}
use ciexpert_usbdev.Context.{Ctx, transfer_send, transfer_status, transfer_setup}
use ciexpert_usbdev.TestSequence.{usbdpi_test_init}
use ciexpert_usbdev.Control.{send_token, send_transaction, wait_then, waited, toggle_out}

-- HS_REQDATA: ask for the data once the SETUP is acknowledged and the time is up.
unfoldable pub request_data : Ctx → Option Ctx
request_data ctx =
    if waited ctx && is_bus ctx.bus_state usb_control_setup_ack
    then (do
      c ← send_token ctx pid_in ctx.dev_address 0
      some (record c { bus_state = usb_control_data_in_token; host_st = hs_waitdata }))
    else some ctx

-- The acknowledgement of the data stage.
unfoldable pub acknowledge_data : Ctx → Option Ctx
acknowledge_data ctx = do
  c ← transfer_status ctx ctx.sending pid_ack
  d ← transfer_send c ctx.sending
  some (wait_then 200 hs_wait_pkt (record d { bus_state = usb_control_data_in_ack }))

-- A data stage that has not come in time.
unfoldable pub time_out : Ctx → Ctx
time_out ctx =
    if waited ctx then record ctx { host_st = hs_nextframe; bus_state = usb_idle } else ctx

-- HS_WAIT_PKT
unfoldable pub wait_pkt : Ctx → Ctx
wait_pkt ctx = if waited ctx then record ctx { host_st = hs_emptydata } else ctx

-- HS_EMPTYDATA: the status stage, a data packet of length zero.
unfoldable pub empty_data : Ctx → Option Ctx
empty_data ctx = do
  c ← send_transaction ctx pid_out ctx.dev_address 0 pid_data1 0 []
  some (wait_then 200 hs_waitack2 (record c { bus_state = usb_control_status_out }))

-- HS_WAITACK2: the handshake of the status stage.
unfoldable pub await_status : Ctx → Option Ctx
unfolding toggle_out
await_status ctx =
    if is_bus ctx.bus_state usb_control_status_out_ack
    then (if ctx.lastrxpid == pid_ack
        then (do c ← toggle_out ctx 0; some (record c { host_st = hs_nextframe }))
        else if ctx.lastrxpid == pid_nak
        then some (wait_then 200 hs_waitack2 ctx)
        else some (record ctx { host_st = hs_nextframe }))
    else if waited ctx
    then some (record ctx { host_st = hs_nextframe })
    else some ctx

-- The total length in a configuration descriptor, taken from the packet that was received.
unfoldable pub collect_length : Ctx → Option Ctx
unfolding read transfer_data_field
collect_length ctx =
    if ctx.step == step_get_config_descriptor
    then (do
      p ← ctx.recving
      rx ← get_elem? ctx.transfer_pool p
      dp ← transfer_data_field rx
      bytes ← read rx.data_bytes (dp + 2) 2
      length ← get_le16 bytes
      some (record ctx { cfg_desc_len = length }))
    else some ctx

unfoldable pub get_descriptor_at : HostState → Ctx → ℕ → ℕ → ℕ → Option Ctx
get_descriptor_at hs_startframe ctx desc_type desc_idx desc_len =
    transfer_setup ctx ctx.sending 0x80 6 (u16 (bit_or (desc_type <<< 8) (u8 desc_idx))) 0 desc_len
get_descriptor_at hs_waitack ctx desc_type desc_idx desc_len = some (wait_then 1164 hs_reqdata ctx)
get_descriptor_at hs_reqdata ctx desc_type desc_idx desc_len = request_data ctx
get_descriptor_at hs_waitdata ctx desc_type desc_idx desc_len = some (wait_then 2000 hs_sendack ctx)
get_descriptor_at hs_sendack ctx desc_type desc_idx desc_len =
    if is_bus ctx.bus_state usb_control_data_in_data
    then (do c ← collect_length ctx; acknowledge_data c)
    else some (time_out ctx)
get_descriptor_at hs_wait_pkt ctx desc_type desc_idx desc_len = some (wait_pkt ctx)
get_descriptor_at hs_emptydata ctx desc_type desc_idx desc_len = empty_data ctx
get_descriptor_at hs_waitack2 ctx desc_type desc_idx desc_len = await_status ctx
get_descriptor_at _ ctx desc_type desc_idx desc_len = some ctx

unfoldable pub get_descriptor : Ctx → ℕ → ℕ → ℕ → Option Ctx
unfolding get_descriptor_at request_data acknowledge_data time_out wait_pkt empty_data await_status
    collect_length
get_descriptor ctx desc_type desc_idx desc_len =
    get_descriptor_at ctx.host_st ctx desc_type desc_idx desc_len

-- memcmp(...) == 0
abbrev pub same_bytes : List ℕ → List ℕ → Bool
same_bytes [] [] = true
same_bytes (a ∷ xs) (b ∷ ys) = a == b && same_bytes xs ys
same_bytes _ _ = false

-- The sixteen bytes of a test descriptor: signature, length, test number, four arguments, signature.
-- `none` stands for the failed assertion on any other descriptor.
unfoldable pub parse_test_config : List ℕ → Option (ℕ × List ℕ)
parse_test_config
      (h₀ ∷ h₁ ∷ h₂ ∷ h₃ ∷ l₀ ∷ l₁ ∷ n₀ ∷ n₁ ∷ a₀ ∷ a₁ ∷ a₂ ∷ a₃ ∷ t₀ ∷ t₁ ∷ t₂ ∷ t₃ ∷ []) =
    do
      length ← get_le16 (l₀ ∷ l₁ ∷ [])
      number ← get_le16 (n₀ ∷ n₁ ∷ [])
      assert (
          same_bytes (h₀ ∷ h₁ ∷ h₂ ∷ h₃ ∷ []) (0x7e ∷ 0x57 ∷ 0xc0 ∷ 0xf1 ∷ [])
          && 0x10 == length
          && same_bytes (t₀ ∷ t₁ ∷ t₂ ∷ t₃ ∷ []) (0x1f ∷ 0x0c ∷ 0x75 ∷ 0xe7 ∷ []))
      some (number, a₀ ∷ a₁ ∷ a₂ ∷ a₃ ∷ [])
parse_test_config _ = none

-- A DATA1 packet is a test descriptor; any other response is a failed assertion.
unfoldable pub receive_test_config : Ctx → Option Ctx
unfolding read transfer_data_field parse_test_config usbdpi_test_init
receive_test_config ctx = do
  assert (ctx.lastrxpid == pid_data1)
  p ← ctx.recving
  rx ← get_elem? ctx.transfer_pool p
  dp ← transfer_data_field rx
  bytes ← read rx.data_bytes dp 16
  (number, args) ← parse_test_config bytes
  usbdpi_test_init (record ctx { test_number = number; test_arg = args })

unfoldable pub get_test_config_at : HostState → Ctx → ℕ → Option Ctx
get_test_config_at hs_startframe ctx desc_len =
    transfer_setup ctx ctx.sending 0xc2 0x7C 0 0 desc_len
get_test_config_at hs_waitack ctx desc_len = some (wait_then 1164 hs_reqdata ctx)
get_test_config_at hs_reqdata ctx desc_len = request_data ctx
get_test_config_at hs_waitdata ctx desc_len = some (wait_then 2000 hs_sendack ctx)
get_test_config_at hs_sendack ctx desc_len =
    if is_bus ctx.bus_state usb_control_data_in_data
    then (do c ← receive_test_config ctx; acknowledge_data c)
    else some (time_out ctx)
get_test_config_at hs_wait_pkt ctx desc_len = some (wait_pkt ctx)
get_test_config_at hs_emptydata ctx desc_len = empty_data ctx
get_test_config_at hs_waitack2 ctx desc_len = await_status ctx
get_test_config_at _ ctx desc_len = some ctx

-- `assert(tr)` stands in front of the switch.
unfoldable pub get_test_config : Ctx → ℕ → Option Ctx
unfolding get_test_config_at request_data acknowledge_data time_out wait_pkt empty_data await_status
    receive_test_config
get_test_config ctx desc_len = do tr ← ctx.sending; get_test_config_at ctx.host_st ctx desc_len
