-- ===== src/Control/Serial.antt =====
-- usbdpi.c: the transactions of the default test: `readBaud`, `setBaud`, `tryTX`, `pollRX` and
-- `testUnimplEp`.
pub mod Toggle
pub mod Progress
pub mod Bulk
use ciexpert_usbdev.Base.{
  ℕ, zero, suc, ◌+◌, ◌*◌, ◌/◌, ◌%◌, ◌^◌, Bool, true, false, not, ◌&&◌, ◌||◌, Option, none, some,
  List, [], ◌∷◌, ◌++◌, leb, ◌==◌, if◌then◌else◌, get_elem?, ◌>>=◌, u32,
}
use ciexpert_usbdev.Usb.{
  HostState, hs_startframe, hs_waitack, hs_reqdata, hs_waitdata, hs_sendack, hs_wait_pkt,
  hs_ackifdata, hs_sendhi, hs_emptydata, hs_waitack2, hs_nextframe, is_bus, usb_control_setup,
  usb_control_status_out, usb_control_status_out_ack, usb_bulk_out, usb_bulk_in_token,
  usb_bulk_in_data, pid_setup, pid_in, pid_out, pid_data0, pid_ack, pid_nak,
}
use ciexpert_usbdev.Context.{Ctx, transfer_status}
use ciexpert_usbdev.Control.{send_token, send_transaction, wait_then, waited, toggle_out}

-- Toggles the data PID of the endpoint if the device acknowledged.
unfoldable pub toggle_if_acked : Ctx → ℕ → Option Ctx
unfolding toggle_out
toggle_if_acked ctx endpoint =
    if ctx.lastrxpid == pid_ack then toggle_out ctx endpoint else some ctx

unfoldable pub read_baud_at : HostState → Ctx → ℕ → Option Ctx
read_baud_at hs_startframe ctx endpoint = do
  c ←
      send_transaction ctx pid_setup ctx.dev_address endpoint pid_data0 0
        (0xc2 ∷ 2 ∷ 0 ∷ 0 ∷ 0 ∷ 0 ∷ 0x2 ∷ 0 ∷ [])
  some (record c { bus_state = usb_control_setup; host_st = hs_waitack })
read_baud_at hs_waitack ctx endpoint = some (wait_then 32 hs_reqdata ctx)
read_baud_at hs_reqdata ctx endpoint =
    if waited ctx
    then (do
      c ← send_token ctx pid_in ctx.dev_address endpoint
      some (record c { host_st = hs_waitdata }))
    else some ctx
read_baud_at hs_waitdata ctx endpoint = some (wait_then 200 hs_sendack ctx)
read_baud_at hs_sendack ctx endpoint =
    if waited ctx
    then (do
      c ← transfer_status ctx ctx.sending pid_ack
      some (record c { host_st = hs_emptydata }))
    else some ctx
read_baud_at hs_emptydata ctx endpoint = do
  pid ← get_elem? ctx.ep_out endpoint
  c ← send_transaction ctx pid_out ctx.dev_address endpoint pid 0 []
  some (wait_then 200 hs_waitack2 (record c { bus_state = usb_control_status_out }))
read_baud_at hs_waitack2 ctx endpoint =
    if waited ctx || is_bus ctx.bus_state usb_control_status_out_ack
    then (do c ← toggle_if_acked ctx endpoint; some (record c { host_st = hs_nextframe }))
    else some ctx
read_baud_at _ ctx endpoint = some ctx

unfoldable pub read_baud : Ctx → ℕ → Option Ctx
unfolding read_baud_at toggle_if_acked
read_baud ctx endpoint = read_baud_at ctx.host_st ctx endpoint

unfoldable pub set_baud_at : HostState → Ctx → ℕ → Option Ctx
set_baud_at hs_startframe ctx endpoint = do
  c ←
      send_transaction ctx pid_setup ctx.dev_address endpoint pid_data0 0
        (0x42 ∷ 3 ∷ 96 ∷ 0 ∷ 0 ∷ 0 ∷ 0 ∷ 0 ∷ [])
  some (record c { bus_state = usb_control_setup; host_st = hs_waitack })
set_baud_at hs_waitack ctx endpoint = some (wait_then 32 hs_reqdata ctx)
set_baud_at hs_reqdata ctx endpoint =
    if waited ctx
    then (do
      c ← send_token ctx pid_in ctx.dev_address endpoint
      some (record c { host_st = hs_waitdata }))
    else some ctx
set_baud_at hs_waitdata ctx endpoint = some (wait_then 40 hs_sendack ctx)
set_baud_at hs_sendack ctx endpoint =
    if waited ctx
    then (do
      c ← transfer_status ctx ctx.sending pid_ack
      some (record c { host_st = hs_nextframe; baudrate_set_successfully = true }))
    else some ctx
set_baud_at _ ctx endpoint = some ctx

unfoldable pub set_baud : Ctx → ℕ → Option Ctx
unfolding set_baud_at
set_baud ctx endpoint = set_baud_at ctx.host_st ctx endpoint

-- The characters of the array `pattern`: its text, and the NUL that ends a string literal.
abbrev pub pattern_upper : List ℕ
pattern_upper =
    b'A' ∷ b'b' ∷ b'C' ∷ b'd' ∷ b'E' ∷ b'f' ∷ b'G' ∷ b'h' ∷ b'I' ∷ b'j' ∷ b'K' ∷ b'l' ∷ b'M' ∷ b'n'
    ∷ b'O' ∷ b'p' ∷ b'Q' ∷ b'r' ∷ b'S' ∷ b't' ∷ b'U' ∷ b'v' ∷ b'W' ∷ b'x' ∷ b'Y' ∷ b'z' ∷ []

abbrev pub pattern_digits : List ℕ
pattern_digits =
    b'+' ∷ b'0' ∷ b'1' ∷ b'2' ∷ b'3' ∷ b'4' ∷ b'5' ∷ b'6' ∷ b'7' ∷ b'8' ∷ b'9' ∷ b'-' ∷ []

abbrev pub pattern_lower : List ℕ
pattern_lower =
    b'a' ∷ b'B' ∷ b'c' ∷ b'D' ∷ b'e' ∷ b'F' ∷ b'g' ∷ b'H' ∷ b'i' ∷ b'J' ∷ b'k' ∷ b'L' ∷ b'm' ∷ b'N'
    ∷ b'o' ∷ b'P' ∷ b'q' ∷ b'R' ∷ b's' ∷ b'T' ∷ b'u' ∷ b'V' ∷ b'w' ∷ b'X' ∷ b'y' ∷ b'Z' ∷ []

abbrev pub tx_pattern : List ℕ
tx_pattern = pattern_upper ++ pattern_digits ++ pattern_lower ++ 0 ∷ []

unfoldable pub try_tx_at : HostState → Ctx → ℕ → Bool → Option Ctx
try_tx_at hs_startframe ctx endpoint expect_status = do
  pid ← get_elem? ctx.ep_out endpoint
  c ← send_transaction ctx pid_out ctx.dev_address endpoint pid 0 tx_pattern
  some (record c { bus_state = usb_bulk_out; host_st = hs_waitack })
try_tx_at hs_waitack ctx endpoint expect_status = some (wait_then 32 hs_reqdata ctx)
try_tx_at hs_reqdata ctx endpoint expect_status =
    if waited ctx
    then (do
      c ← if expect_status then toggle_if_acked ctx endpoint else some ctx
      d ← send_token c pid_in c.dev_address endpoint
      some (record d { host_st = hs_waitdata }))
    else some ctx
try_tx_at hs_waitdata ctx endpoint expect_status = some (wait_then 40 hs_nextframe ctx)
try_tx_at _ ctx endpoint expect_status = some ctx

unfoldable pub try_tx : Ctx → ℕ → Bool → Option Ctx
unfolding try_tx_at toggle_if_acked
try_tx ctx endpoint expect_status = try_tx_at ctx.host_st ctx endpoint expect_status

-- 18 + 8 + 8 + 64 * 8 + 16 bit intervals for a response and a packet.
unfoldable pub poll_rx_at : HostState → Ctx → ℕ → Bool → Bool → Option Ctx
poll_rx_at hs_startframe ctx endpoint send_hi nak_data = do
  c ← send_token ctx pid_in ctx.dev_address endpoint
  some (record c { bus_state = usb_bulk_in_token; host_st = hs_wait_pkt; lastrxpid = 0 })
poll_rx_at hs_wait_pkt ctx endpoint send_hi nak_data = some (wait_then 562 hs_ackifdata ctx)
poll_rx_at hs_ackifdata ctx endpoint send_hi nak_data =
    if is_bus ctx.bus_state usb_bulk_in_data
    then (do
      c ←
          if ctx.lastrxpid == pid_nak
          then some ctx
          else transfer_status ctx ctx.sending (if nak_data then pid_nak else pid_ack)
      some (record c { host_st = hs_sendhi }))
    else if waited ctx
    then some (record ctx { host_st = hs_sendhi })
    else some ctx
poll_rx_at hs_sendhi ctx endpoint send_hi nak_data =
    if send_hi
    then (do
      pid ← get_elem? ctx.ep_out endpoint
      c ← send_transaction ctx pid_out ctx.dev_address endpoint pid 0 (0x48 ∷ 0x69 ∷ 0x21 ∷ [])
      some (wait_then 532 hs_waitack c))
    else some (record ctx { host_st = hs_nextframe })
poll_rx_at hs_waitack ctx endpoint send_hi nak_data =
    if waited ctx
    then (do c ← toggle_if_acked ctx endpoint; some (record c { host_st = hs_nextframe }))
    else some ctx
poll_rx_at _ ctx endpoint send_hi nak_data = some ctx

unfoldable pub poll_rx : Ctx → ℕ → Bool → Bool → Option Ctx
unfolding poll_rx_at toggle_if_acked
poll_rx ctx endpoint send_hi nak_data = poll_rx_at ctx.host_st ctx endpoint send_hi nak_data

-- Every branch of HS_STARTFRAME ends in a `break`.
unfoldable pub test_unimpl_ep_at : HostState → Ctx → ℕ → ℕ → ℕ → Option Ctx
test_unimpl_ep_at hs_startframe ctx pid device endpoint =
    if pid == pid_setup || pid == pid_out
    then (do
      c ←
          send_transaction ctx pid device endpoint pid_data0 0
            (0 ∷ 5 ∷ 2 ∷ 0 ∷ 0xFF ∷ 0 ∷ 0 ∷ 0 ∷ [])
      some (record c { host_st = hs_waitack }))
    else if pid == pid_in
    then (do c ← send_token ctx pid device endpoint; some (record c { host_st = hs_waitack }))
    else some (record ctx { host_st = hs_nextframe })
test_unimpl_ep_at hs_waitack ctx pid device endpoint = some (wait_then 32 hs_nextframe ctx)
test_unimpl_ep_at _ ctx pid device endpoint = some ctx

unfoldable pub test_unimpl_ep : Ctx → ℕ → ℕ → ℕ → Option Ctx
unfolding test_unimpl_ep_at
test_unimpl_ep ctx pid device endpoint = test_unimpl_ep_at ctx.host_st ctx pid device endpoint
