-- ===== src/Examples/Packets.antt =====
-- The theorems on checksums, packets and little endian fields at concrete inputs.
use ciexpert_usbdev.Base.{
  ℕ, ◌≡◌, ◌≢◌, refl, inl, inr, arith, Bool, true, false, some, [], ◌∷◌, ◌++◌, take, ◌<◌, ◌≤◌, ◌+◌,
  ◌*◌, ◌^◌, ◌⊎◌,
}
use ciexpert_usbdev.Usb.{pid_setup, pid_in, max_data}
use ciexpert_usbdev.Crc.{crc5, crc16, crc5_msb_first}
use ciexpert_usbdev.Crc.Detect.{crc5_burst, crc16_burst}
use ciexpert_usbdev.Crc.Order.{reverse_bits, crc5_msb_first-crc5}
use ciexpert_usbdev.Utils.{get_le16, set_le16, decode_pid}
use ciexpert_usbdev.Utils.Laws.{get_le16-set_le16}
use ciexpert_usbdev.Monitor.Report.{pid_2data, token}
use ciexpert_usbdev.Transfer.{Transfer, IsValid, transfer_token, transfer_append}
use ciexpert_usbdev.Transfer.Token.{
  IsToken, token_crc, transfer_token-IsToken, pid_2data-transfer_token,
}
use ciexpert_usbdev.Transfer.Append.{transfer_append_lem}
use ciexpert_usbdev.Control.Read.{parse_test_config}
use ciexpert_usbdev.Control.Read.Config.{test_descriptor, parse_test_config-test_descriptor}
use ciexpert_usbdev.Examples.Data.{blank, three_bytes}

crc16_burst_example :
    crc16 ((1 ∷ 2 ∷ []) ++ 7 ∷ 8 ∷ 3 ∷ []) ≢ crc16 ((1 ∷ 2 ∷ []) ++ 7 ∷ 9 ∷ 3 ∷ [])
crc16_burst_example =
    crc16_burst (1 ∷ 2 ∷ []) (3 ∷ []) 7 8 7 9 (omega arith) (omega arith) (omega arith)
      (omega arith) (inr λ e. absurd (omega arith))

crc5_burst_example :
    crc5 (3 + 2 ^ 2 * (9 + 2 ^ 5 * 5)) (2 + (5 + 4))
    ≢ crc5 (3 + 2 ^ 2 * (10 + 2 ^ 5 * 5)) (2 + (5 + 4))
crc5_burst_example =
    crc5_burst 2 4 3 9 10 5 (omega arith) (omega arith) (omega arith) (omega arith)
      λ e. absurd (omega arith)

crc5_msb_first-crc5_example :
    crc5_msb_first (reverse_bits 11 0x102) 11 ≡ some (reverse_bits 5 (crc5 0x102 11))
crc5_msb_first-crc5_example = crc5_msb_first-crc5 0x102 (omega arith)

get_le16-set_le16_example : get_le16 (set_le16 0x1234 ++ 9 ∷ []) ≡ some 0x1234
get_le16-set_le16_example = get_le16-set_le16 0x1234 (9 ∷ []) (omega arith)

transfer_token-IsToken_example :
    (t' : Transfer) × (transfer_token three_bytes pid_in 2 9 ≡ some t') × IsToken pid_in 2 9 t'
transfer_token-IsToken_example =
    transfer_token-IsToken three_bytes pid_in 2 9 refl (omega arith) (omega arith)

pid_2data-transfer_token_example :
    (t' : Transfer) × (b c : ℕ) × (transfer_token blank pid_setup 2 9 ≡ some t')
    × (take 3 t'.data_bytes ≡ pid_setup ∷ b ∷ c ∷ [])
    × (pid_2data pid_setup b c ≡ token (decode_pid pid_setup) 2 9 (token_crc 2 9) true)
pid_2data-transfer_token_example =
    pid_2data-transfer_token blank pid_setup 2 9 refl (inl refl) (omega arith) (omega arith)

transfer_append_lem_example :
    (ok : Bool) × (t' : Transfer) × (transfer_append three_bytes (4 ∷ 5 ∷ []) ≡ some (ok, t'))
    × IsValid t'
    × (((ok ≡ true)
          × (3 + 2 ≤ max_data)
          × (take t'.num_bytes t'.data_bytes ≡ take 3 three_bytes.data_bytes ++ 4 ∷ 5 ∷ []))
        ⊎ ((ok ≡ false) × (max_data < 3 + 2) × (t' ≡ three_bytes)))
transfer_append_lem_example =
    transfer_append_lem three_bytes (4 ∷ 5 ∷ []) record { sized = refl; within = omega arith }

parse_test_config-test_descriptor_example :
    parse_test_config (test_descriptor 3 0x71 0xFF 0 1) ≡ some (3, 0x71 ∷ 0xFF ∷ 0 ∷ 1 ∷ [])
parse_test_config-test_descriptor_example =
    parse_test_config-test_descriptor 3 0x71 0xFF 0 1 (omega arith)
