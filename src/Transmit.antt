-- ===== src/Transmit.antt =====
-- usbdpi.c: the states of `usbdpi_host_to_device` in which the host sends the packets of the
-- descriptor `sending`, one bit interval a call: SYNC, the bits with bit stuffing, and EOP.
pub mod Sync
pub mod Stuff
pub mod Step
pub mod Byte
pub mod Packet
use ciexpert_usbdev.Base.{
  ℕ, zero, suc, ◌+◌, ◌*◌, ◌/◌, ◌%◌, ◌^◌, bit_and, bit_or, Bool, true, false, Option, none, some,
  if◌then◌else◌, ◌==◌, leb, get_elem?, has, u8, u32, ◌<<<◌, ◌>>=◌,
}
use ciexpert_usbdev.Usb.{
  p2d_dn, p2d_dp, d2p_pu, DrvState, st_idle, st_send, st_get, st_sync, st_eop, st_eop0,
}
use ciexpert_usbdev.Transfer.{Transfer}
use ciexpert_usbdev.Context.{Ctx}
use ciexpert_usbdev.Bus.{set_driving, inv_driving}

-- USB_SYNC
abbrev pub usb_sync : ℕ
usb_sync = 0x2A

-- The descriptor that `sending` names; NULL is a failed assertion.
unfoldable pub being_sent : Ctx → Option Transfer
being_sent ctx = do p ← ctx.sending; get_elem? ctx.transfer_pool p

-- ST_SYNC
unfoldable pub send_sync : Ctx → ℕ → Ctx
send_sync ctx d2p =
    let driving = set_driving ctx d2p (if has usb_sync ctx.bit then p2d_dp else p2d_dn) true in
    let bit = ctx.bit <<< 1 in
    if ctx.bit <<< 1 == 0x100
    then record ctx { driving = driving; bit = 1; linebits = 1; state = st_send }
    else record ctx { driving = driving; bit = bit }

-- A bit of the packet, and what the end of a byte changes.
unfoldable pub send_bit : Ctx → ℕ → Transfer → ℕ → Ctx
send_bit ctx d2p sending d =
    let nextbit = has d ctx.bit in
    let c = record ctx {
      driving = if nextbit then ctx.driving else inv_driving ctx d2p;
      linebits = u32 (bit_or (ctx.linebits <<< 1) (if nextbit then 1 else 0));
    } in
    if ctx.bit <<< 1 == 0x100
    then record c {
      bit = 1;
      byte = ctx.byte + 1;
      state = if ctx.byte + 1 == sending.data_start then st_eop0 else ctx.state;
    }
    else record c { bit = ctx.bit <<< 1 }

-- ST_SEND
unfoldable pub send_data : Ctx → ℕ → Option Ctx
unfolding send_bit
send_data ctx d2p = do
  sending ← being_sent ctx
  if bit_and ctx.linebits 0x3f == 0x3f
      then some (record ctx { driving = inv_driving ctx d2p; linebits = u32 (ctx.linebits <<< 1) })
      else if leb sending.num_bytes ctx.byte
      then some (record ctx { state = st_eop; driving = set_driving ctx d2p 0 true; bit = 1 })
      else do d ← get_elem? sending.data_bytes ctx.byte; some (send_bit ctx d2p sending d)

-- ST_EOP0
unfoldable pub send_eop0 : Ctx → ℕ → Ctx
send_eop0 ctx d2p = record ctx { driving = set_driving ctx d2p 0 true; state = st_eop }

-- ST_EOP: the second SE0, J, and then the lines are let go. A data packet may follow its token.
unfoldable pub send_eop : Ctx → ℕ → Option Ctx
send_eop ctx d2p =
    let c =
      if ctx.bit == 2 then record ctx { driving = set_driving ctx d2p p2d_dp true } else ctx in
    if ctx.bit == 4
    then (do
      sending ← being_sent c
      let d = record c { driving = set_driving c d2p (if has d2p d2p_pu then p2d_dp else 0) false }
      some (
          if d.byte == sending.data_start
          then record d { bit = 1; state = st_sync }
          else record d { state = st_idle }))
    else some (record c { bit = ctx.bit <<< 1 })

-- The cases of the switch in which the host sends.
unfoldable pub transmit_in : DrvState → Ctx → ℕ → Option Ctx
transmit_in st_sync ctx d2p = some (send_sync ctx d2p)
transmit_in st_send ctx d2p = send_data ctx d2p
transmit_in st_eop0 ctx d2p = some (send_eop0 ctx d2p)
transmit_in st_eop ctx d2p = send_eop ctx d2p
transmit_in st_idle ctx d2p = some ctx
transmit_in st_get ctx d2p = some ctx

unfoldable pub transmit : Ctx → ℕ → Option Ctx
unfolding transmit_in
transmit ctx d2p = transmit_in ctx.state ctx d2p
