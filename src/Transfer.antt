-- ===== src/Transfer.antt =====
-- usb_transfer.c and usb_transfer.h: one transfer descriptor, and the operations that build the
-- packets in it. A pointer into `data` is an offset. What involves the context is in Context.
pub mod Token
pub mod DataStage
pub mod Packet
pub mod Append
use ciexpert_usbdev.Base.{
  ℕ, zero, suc, ◌+◌, ◌-◌, ◌*◌, ◌/◌, ◌%◌, ◌^◌, bit_and, bit_or, Bool, true, false, not, ◌&&◌, ◌||◌,
  Option, none, some, List, [], ◌∷◌, ltb, leb, ◌==◌, if◌then◌else◌, length, take, drop, get_elem?,
  ◌≡◌, ◌≤◌, overwrite, assert, ◌>>=◌, ◌>>◌, u8, ◌<<<◌, ◌>>>◌,
}
use ciexpert_usbdev.Usb.{max_data, no_data_stage, pid_data0, pid_data1}
use ciexpert_usbdev.Crc.{crc5, crc16}

-- struct usbdpi_transfer. `next` is the place in the pool that the pointer names.
pub record Transfer : Type 0 where
  pub next : Option ℕ
  pub num_bytes : ℕ
  pub data_start : ℕ
  pub data_bytes : List ℕ

-- Stores through a pointer to place `off`; a store outside of the array is a fault.
unfoldable pub write : List ℕ → ℕ → List ℕ → Option (List ℕ)
write xs off vs = if leb (off + length vs) (length xs) then some (overwrite xs off vs) else none

-- `sizeof(transfer->data) - k - n`, in the 64 bits of `size_t`.
abbrev pub room : ℕ → ℕ → ℕ
room k n = (max_data - k + 2 ^ 64 - n) % 2 ^ 64

unfoldable pub transfer_init : Transfer → Transfer
transfer_init t = record t { next = none; num_bytes = 0; data_start = no_data_stage }

unfoldable pub transfer_token : Transfer → ℕ → ℕ → ℕ → Option Transfer
unfolding transfer_init write
transfer_token transfer pid device endpoint = do
  assert (ltb device 0x80)
  assert (ltb endpoint 0x10)
  let t = transfer_init transfer
  assert (leb t.num_bytes (max_data - 3))
  bytes ← write t.data_bytes t.num_bytes (
      pid
      ∷ u8 (bit_or device (endpoint <<< 7))
      ∷ u8 (bit_or (endpoint >>> 1) (crc5 (bit_or (endpoint <<< 7) device) 11 <<< 3))
      ∷ [])
  some (record t { data_bytes = bytes; num_bytes = u8 (t.num_bytes + 3) })

-- Returns the offset of the data field. The NULL of a field that does not fit stands behind an
-- assertion that fails.
unfoldable pub transfer_data_start : Transfer → ℕ → ℕ → Option (ℕ × Transfer)
unfolding write
transfer_data_start t pid est_size = do
  assert (pid == pid_data0 || pid == pid_data1)
  assert (leb est_size (room 1 t.num_bytes))
  bytes ← write t.data_bytes t.num_bytes (pid ∷ [])
  some (
    t.num_bytes + 1,
    record t { data_start = t.num_bytes; data_bytes = bytes; num_bytes = u8 (t.num_bytes + 1) },
  )

-- The `n` bytes from place `off` on.
abbrev pub slice : List ℕ → ℕ → ℕ → List ℕ
slice xs off n = take n (drop off xs)

-- Reads `n` bytes through a pointer; a read outside of the array is a fault.
unfoldable pub read : List ℕ → ℕ → ℕ → Option (List ℕ)
read xs off n = if leb (off + n) (length xs) then some (slice xs off n) else none

-- `dp` is the offset of the end of the data field.
unfoldable pub transfer_data_end : Transfer → ℕ → Option Transfer
unfolding write
transfer_data_end t dp = do
  assert (not (t.data_start == no_data_stage))
  assert (ltb dp (max_data - 2))
  let crc = crc16 (slice t.data_bytes (t.data_start + 1) (dp - (t.data_start + 1)))
  bytes ← write t.data_bytes dp (u8 crc ∷ u8 (crc >>> 8) ∷ [])
  some (record t { data_bytes = bytes; num_bytes = u8 (dp + 2) })

-- The callers' way to build a data stage: start it, store the field through the pointer that is
-- returned, and end it behind the field.
unfoldable pub data_stage : Transfer → ℕ → ℕ → List ℕ → Option Transfer
unfolding write
data_stage transfer pid est_size field = do
  (dp, t) ← transfer_data_start transfer pid est_size
  bytes ← write t.data_bytes dp field
  transfer_data_end (record t { data_bytes = bytes }) (dp + length field)

-- A token packet and a data packet back to back, as the callers build them.
unfoldable pub token_and_data : ℕ → ℕ → ℕ → ℕ → ℕ → List ℕ → Transfer → Option Transfer
unfolding transfer_token data_stage
token_and_data pid device endpoint data_pid est_size field transfer = do
  t ← transfer_token transfer pid device endpoint
  data_stage t data_pid est_size field

-- Appends the bytes and answers true, or answers false.
unfoldable pub transfer_append : Transfer → List ℕ → Option (Bool × Transfer)
unfolding write
transfer_append t dp = if ltb (room 0 t.num_bytes) (length dp) then some (false, t) else do
  bytes ← write t.data_bytes t.num_bytes dp
  some (true, record t { data_bytes = bytes; num_bytes = u8 (t.num_bytes + length dp) })

-- The offset of the data field, or NULL.
unfoldable pub transfer_data_field : Transfer → Option ℕ
transfer_data_field t =
    if not (t.data_start == no_data_stage) && ltb (t.data_start + 1) t.num_bytes
    then some (t.data_start + 1)
    else none

unfoldable pub transfer_data_pid : Transfer → Option ℕ
transfer_data_pid t = do
  assert (not (t.data_start == no_data_stage) && ltb (t.data_start + 1) t.num_bytes)
  get_elem? t.data_bytes t.data_start

unfoldable pub transfer_length : Transfer → ℕ
transfer_length t = t.num_bytes

-- A descriptor as the code keeps it: the array has its size, and the counts stay inside it.
pub record IsValid (t : Transfer) : Type 0 where
  pub sized : length t.data_bytes ≡ max_data
  pub within : t.num_bytes ≤ max_data
