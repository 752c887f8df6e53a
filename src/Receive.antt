-- ===== src/Receive.antt =====
-- usbdpi.c: `usbdpi_data_callback`, which collects the bytes that the monitor decodes.
pub mod Packet
use ciexpert_usbdev.Base.{
  ℕ, Bool, true, false, not, ◌||◌, Option, none, some, List, [], ◌∷◌, if◌then◌else◌, ◌==◌, assert,
  ◌>>=◌, ◌>>◌,
}
use ciexpert_usbdev.Usb.{
  UsbmonDataType, sync, eop, pid, byte, DrvState, st_get, pid_data0, pid_data1,
}
use ciexpert_usbdev.Transfer.{Transfer, transfer_init, transfer_data_start, transfer_append}
use ciexpert_usbdev.Context.{Ctx, on_transfer, transfer_alloc}
use ciexpert_usbdev.Bus.{receiving}

-- Appends one byte; a byte that does not fit is a failed assertion.
unfoldable pub append_byte : ℕ → Transfer → Option Transfer
append_byte d t = do (ok, t') ← transfer_append t (d ∷ []); assert ok; some t'

-- A PID: that of a data packet starts the data stage.
unfoldable pub receive_pid : ℕ → Transfer → Option Transfer
receive_pid d t =
    if d == pid_data0 || d == pid_data1
    then (do (dp, t') ← transfer_data_start t d 0; some t')
    else append_byte d t

unfoldable pub receive : UsbmonDataType → ℕ → Transfer → Option Transfer
receive sync d t = some (transfer_init t)
receive eop d t = some t
receive pid d t = receive_pid d t
receive byte d t = append_byte d t

-- A buffer for the packet that comes in.
unfoldable pub receive_buffer : Ctx → Option Ctx
receive_buffer ctx = elim ctx.recving [
  | some p ↦ some ctx
  | none ↦ do (p, c) ← transfer_alloc ctx; some (record c { recving = p })
]

unfoldable pub usbdpi_data_callback : Ctx → UsbmonDataType → ℕ → Option Ctx
usbdpi_data_callback ctx type d =
    if receiving ctx.state
    then (do c ← receive_buffer ctx; on_transfer c c.recving (receive type d))
    else some ctx
