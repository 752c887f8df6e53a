-- ===== src/Transfer/DataStage.antt =====
-- Data packets: what the three steps of a data stage leave in the descriptor.
use ciexpert_usbdev.Base.{
  ℕ, ◌+◌, ◌-◌, ◌/◌, ◌%◌, ◌≤◌, ◌<◌, ◌≡◌, refl, ap, ◌∙◌, some, List, [], ◌∷◌, ◌++◌, arith, ◌⊎◌,
  length, take, overwrite, length-overwrite, take-drop-overwrite, take-overwrite_end,
}
use ciexpert_usbdev.Crc.{crc16}
use ciexpert_usbdev.Crc.Detect.{crc16-lt}
use ciexpert_usbdev.Usb.{max_data, pid_data0, pid_data1}
use ciexpert_usbdev.Transfer.{
  Transfer, write, transfer_data_start, transfer_data_end, data_stage, slice,
}

abbrev pub IsDataPid : ℕ → Type 0
IsDataPid pid = (pid ≡ pid_data0) ⊎ (pid ≡ pid_data1)

-- The two bytes of a checksum, low byte first.
abbrev pub crc_bytes : List ℕ → List ℕ
crc_bytes field = (crc16 field % 256) ∷ (crc16 field / 256) ∷ []

-- A packet of identifier, field and checksum that follows the `n` bytes of `before`.
pub record IsDataStage (before : Transfer) (pid : ℕ) (field : List ℕ) (t : Transfer) : Type 0 where
  pub ends : t.num_bytes ≡ before.num_bytes + (length field + 3)
  pub start : t.data_start ≡ before.num_bytes
  pub size : length t.data_bytes ≡ max_data
  pub content :
      take t.num_bytes t.data_bytes
      ≡ ((take before.num_bytes before.data_bytes ++ pid ∷ []) ++ field) ++ crc_bytes field

write_fits :
    (xs : List ℕ) (off : ℕ) (vs : List ℕ)
    → off + length vs ≤ length xs
    → write xs off vs ≡ some (overwrite xs off vs)
unfolding write
write_fits xs off vs h = ground arith

module _ (t : Transfer) (pid est : ℕ) (field : List ℕ) (sized : length t.data_bytes ≡ max_data)
    (data_pid : IsDataPid pid) (est_fits : est + t.num_bytes ≤ 72)
    (fits : t.num_bytes + length field < 70) where
  abbrev with_pid : List ℕ
  with_pid = overwrite t.data_bytes t.num_bytes (pid ∷ [])

  abbrev with_field : List ℕ
  with_field = overwrite with_pid (t.num_bytes + 1) field

  abbrev with_crc : List ℕ
  with_crc = overwrite with_field (t.num_bytes + 1 + length field) (crc_bytes field)

  abbrev started : Transfer
  started = record t {
    data_start = t.num_bytes;
    data_bytes = with_pid;
    num_bytes = t.num_bytes + 1;
  }

  abbrev ended : Transfer
  ended = record t {
    data_start = t.num_bytes;
    data_bytes = with_crc;
    num_bytes = t.num_bytes + 1 + length field + 2;
  }

  size_pid : length with_pid ≡ max_data
  size_pid = length-overwrite t.data_bytes t.num_bytes (pid ∷ []) ∙ sized

  size_field : length with_field ≡ max_data
  size_field = length-overwrite with_pid (t.num_bytes + 1) field ∙ size_pid

  starts : transfer_data_start t pid est ≡ some (t.num_bytes + 1, started)
  unfolding transfer_data_start
  starts = ground arith

  field_read :
      slice with_field (t.num_bytes + 1) (t.num_bytes + 1 + length field - (t.num_bytes + 1))
      ≡ field
  field_read =
      let n : t.num_bytes + 1 + length field - (t.num_bytes + 1) ≡ length field = omega arith in
      rw n (take-drop-overwrite with_pid (t.num_bytes + 1) field (omega (arith, size_pid)))

  finishes :
      transfer_data_end
        (record started { data_bytes = with_field })
        (t.num_bytes + 1 + length field)
      ≡ some ended
  unfolding transfer_data_end
  finishes = rw field_read (ground (arith, size_field, crc16-lt field))

  runs : data_stage t pid est field ≡ some ended
  unfolding data_stage
  runs = rw (starts, write_fits with_pid (t.num_bytes + 1) field (omega (arith, size_pid))) finishes

  content_pid : take (t.num_bytes + 1) with_pid ≡ take t.num_bytes t.data_bytes ++ pid ∷ []
  content_pid = take-overwrite_end t.data_bytes t.num_bytes (pid ∷ []) (omega arith)

  content_field :
      take (t.num_bytes + 1 + length field) with_field
      ≡ (take t.num_bytes t.data_bytes ++ pid ∷ []) ++ field
  content_field =
      take-overwrite_end with_pid (t.num_bytes + 1) field (omega (arith, size_pid))
      ∙ ap (λ (l : List ℕ). l ++ field) content_pid

  content_all :
      take (t.num_bytes + 1 + length field + 2) with_crc
      ≡ ((take t.num_bytes t.data_bytes ++ pid ∷ []) ++ field) ++ crc_bytes field
  content_all =
      take-overwrite_end with_field (t.num_bytes + 1 + length field) (crc_bytes field)
        (omega (arith, size_field))
      ∙ ap (λ (l : List ℕ). l ++ crc_bytes field) content_field

  ended-IsDataStage : IsDataStage t pid field ended
  ended-IsDataStage = record {
    ends = omega arith;
    start = refl;
    size =
        length-overwrite with_field (t.num_bytes + 1 + length field) (crc_bytes field) ∙ size_field;
    content = content_all;
  }

-- Behind a packet of `n` bytes, a DATA0 or DATA1 stage whose estimate and whose field leave room
-- (`est + n ≤ 72` and fewer than 70 bytes of packet and field) fails no assertion, and leaves the
-- old bytes, the identifier, the field and the field's CRC16, low byte first, and their count.
pub data_stage-IsDataStage :
    (t : Transfer) (pid est : ℕ) (field : List ℕ)
    → length t.data_bytes ≡ max_data
    → IsDataPid pid
    → est + t.num_bytes ≤ 72
    → t.num_bytes + length field < 70
    → (t' : Transfer) × (data_stage t pid est field ≡ some t') × IsDataStage t pid field t'
data_stage-IsDataStage t pid est field sized data_pid est_fits fits = (
  ended t pid est field sized data_pid est_fits fits,
  runs t pid est field sized data_pid est_fits fits,
  ended-IsDataStage t pid est field sized data_pid est_fits fits,
)
