-- ===== src/Transfer/Packet.antt =====
-- A token packet and a data packet back to back, as SETUP and OUT transactions have them.
use ciexpert_usbdev.Base.{
  ℕ, ◌+◌, ◌*◌, ◌/◌, ◌%◌, ◌≤◌, ◌<◌, ◌≡◌, ap, ◌∙◌, some, List, [], ◌∷◌, ◌++◌, arith, length, take,
}
use ciexpert_usbdev.Usb.{max_data}
use ciexpert_usbdev.Transfer.{Transfer, token_and_data}
use ciexpert_usbdev.Transfer.Token.{token_crc, transfer_token-IsToken}
use ciexpert_usbdev.Transfer.DataStage.{IsDataPid, crc_bytes, data_stage-IsDataStage}

abbrev pub token_bytes : ℕ → ℕ → ℕ → List ℕ
token_bytes pid device endpoint =
    pid ∷ (endpoint % 2 * 128 + device) ∷ (token_crc device endpoint * 8 + endpoint / 2) ∷ []

-- The bytes of both packets.
abbrev pub transaction_bytes : ℕ → ℕ → ℕ → ℕ → List ℕ → List ℕ
transaction_bytes pid device endpoint data_pid field =
    ((token_bytes pid device endpoint ++ data_pid ∷ []) ++ field) ++ crc_bytes field

-- The descriptor holds exactly the two packets, and knows where the second one starts.
pub record IsTransaction (pid device endpoint data_pid : ℕ) (field : List ℕ) (t : Transfer)
    : Type 0 where
  pub ends : t.num_bytes ≡ length field + 6
  pub start : t.data_start ≡ 3
  pub size : length t.data_bytes ≡ max_data
  pub content : take t.num_bytes t.data_bytes ≡ transaction_bytes pid device endpoint data_pid field

pub token_and_data-IsTransaction :
    (pid device endpoint data_pid est : ℕ) (field : List ℕ) (t : Transfer)
    → length t.data_bytes ≡ max_data
    → device < 128
    → endpoint < 16
    → IsDataPid data_pid
    → est ≤ 69
    → length field < 67
    → (t' : Transfer) × (token_and_data pid device endpoint data_pid est field t ≡ some t')
      × IsTransaction pid device endpoint data_pid field t'
unfolding token_and_data
token_and_data-IsTransaction pid device endpoint data_pid est field t sized dev ep dp e f =
    let (a, first, token) = transfer_token-IsToken t pid device endpoint sized dev ep in
    let (b, second, made) =
      data_stage-IsDataStage a data_pid est field token.size dp (omega (arith, token.three))
        (omega (arith, token.three)) in
    let before : take a.num_bytes a.data_bytes ≡ token_bytes pid device endpoint =
      rw token.three token.content in
    (
      b,
      rw first second,
      record {
        ends = omega (arith, made.ends, token.three);
        start = made.start ∙ token.three;
        size = made.size;
        content =
            made.content
            ∙ ap (λ (l : List ℕ). ((l ++ data_pid ∷ []) ++ field) ++ crc_bytes field) before;
      },
    )
