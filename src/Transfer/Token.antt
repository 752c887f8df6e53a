-- ===== src/Transfer/Token.antt =====
-- Token packets: what `transfer_token` builds, and what the monitor reads in it.
use ciexpert_usbdev.Base.{
  ℕ, ◌+◌, ◌*◌, ◌/◌, ◌%◌, ◌^◌, ◌<◌, ◌≡◌, refl, ap, ◌∙◌, bit_and, bit_or, true, none, some, List, [],
  ◌∷◌, arith, ◌==◌, ◌⊎◌, length, take, u8, overwrite, length-overwrite, take-drop-overwrite,
}
use ciexpert_usbdev.Base.Bits.{bit_or_fields, bit_or_fields_swap, bit_and-seven, bit_and-mask7}
use ciexpert_usbdev.Crc.{crc5}
use ciexpert_usbdev.Crc.Detect.{crc5-lt}
use ciexpert_usbdev.Usb.{max_data, no_data_stage, pid_sof, pid_setup, pid_out, pid_in}
use ciexpert_usbdev.Utils.{decode_pid}
use ciexpert_usbdev.Monitor.Report.{sof, token, pid_2data}
use ciexpert_usbdev.Transfer.{Transfer, transfer_token, transfer_init}

-- The eleven bits of a token, and its two bytes in arithmetic.
abbrev pub token_field : ℕ → ℕ → ℕ
token_field device endpoint = endpoint * 128 + device

abbrev pub token_crc : ℕ → ℕ → ℕ
token_crc device endpoint = crc5 (token_field device endpoint) 11

module _ (device endpoint : ℕ) (dev : device < 128) (ep : endpoint < 16) where
  low_byte : u8 (bit_or device (endpoint * 2 ^ 7)) ≡ endpoint % 2 * 128 + device
  low_byte = omega (arith, bit_or_fields_swap 7 endpoint device dev)

  field : bit_or (endpoint * 2 ^ 7) device ≡ token_field device endpoint
  field = bit_or_fields 7 endpoint device dev

  crc-lt : token_crc device endpoint < 32
  crc-lt = crc5-lt (token_field device endpoint) 11 (omega arith) (omega arith)

  high_byte :
      u8 (bit_or (endpoint / 2 ^ 1) (crc5 (bit_or (endpoint * 2 ^ 7) device) 11 * 2 ^ 3))
      ≡ token_crc device endpoint * 8 + endpoint / 2
  high_byte = rw field (
      omega (
        arith,
        crc-lt,
        bit_or_fields_swap 3 (token_crc device endpoint) (endpoint / 2) (omega arith),
      ))

-- What a token looks like in the descriptor: three bytes and no data stage.
pub record IsToken (pid device endpoint : ℕ) (t : Transfer) : Type 0 where
  pub three : t.num_bytes ≡ 3
  pub no_data : t.data_start ≡ no_data_stage
  pub unlinked : t.next ≡ none
  pub size : length t.data_bytes ≡ max_data
  pub content :
      take 3 t.data_bytes
      ≡ pid ∷ (endpoint % 2 * 128 + device) ∷ (token_crc device endpoint * 8 + endpoint / 2) ∷ []

-- For a device address below 128 and an endpoint below 16, `transfer_token` fails no assertion,
-- whatever the descriptor held, and leaves exactly the token packet in it.
pub transfer_token-IsToken :
    (t : Transfer) (pid device endpoint : ℕ)
    → length t.data_bytes ≡ max_data
    → device < 128
    → endpoint < 16
    → (t' : Transfer) × (transfer_token t pid device endpoint ≡ some t')
      × IsToken pid device endpoint t'
unfolding transfer_token transfer_init
transfer_token-IsToken t pid device endpoint sized dev ep = (
  record t {
    next = none;
    num_bytes = 3;
    data_start = no_data_stage;
    data_bytes = overwrite t.data_bytes 0 bytes;
  },
  ground (arith, low_byte device endpoint dev ep, high_byte device endpoint dev ep),
  record {
    three = refl;
    no_data = refl;
    unlinked = refl;
    size = length-overwrite t.data_bytes 0 bytes ∙ sized;
    content = take-drop-overwrite t.data_bytes 0 bytes (omega arith);
  },
)
  where
    bytes : List ℕ
    bytes =
        pid ∷ (endpoint % 2 * 128 + device) ∷ (token_crc device endpoint * 8 + endpoint / 2) ∷ []

abbrev pub IsTokenPid : ℕ → Type 0
IsTokenPid pid = (pid ≡ pid_setup) ⊎ (pid ≡ pid_out) ⊎ (pid ≡ pid_in)

-- The fields that `pid_2data` cuts out of the two bytes.
module _ (device endpoint : ℕ) (dev : device < 128) (ep : endpoint < 16) where
  abbrev pub d0 : ℕ
  d0 = endpoint % 2 * 128 + device

  abbrev pub d1 : ℕ
  d1 = token_crc device endpoint * 8 + endpoint / 2

  cut_frame : bit_or (bit_and d1 7 * 2 ^ 8) d0 ≡ token_field device endpoint
  cut_frame = omega (
    arith,
    bit_and-seven d1,
    ap (λ (x : ℕ). bit_or (x * 2 ^ 8) d0) (bit_and-seven d1),
    bit_or_fields 8 (d1 % 8) d0 (omega arith),
  )

  cut_endpoint : bit_or (bit_and d1 7 * 2 ^ 1) (d0 / 2 ^ 7) ≡ endpoint
  cut_endpoint = omega (
    arith,
    bit_and-seven d1,
    ap (λ (x : ℕ). bit_or (x * 2 ^ 1) (d0 / 2 ^ 7)) (bit_and-seven d1),
    bit_or_fields 1 (d1 % 8) (d0 / 2 ^ 7) (omega arith),
  )

  cut_device : bit_and d0 0x7f ≡ device
  cut_device = bit_and-mask7 d0 ∙ omega arith

  cut_crc : d1 / 2 ^ 3 ≡ token_crc device endpoint
  cut_crc = omega arith

  same_token : (crc5 (token_field device endpoint) 11 == token_crc device endpoint) ≡ true
  same_token = ground arith

  read_token :
      (pid : ℕ)
      → IsTokenPid pid
      → pid_2data pid d0 d1
        ≡ token (decode_pid pid) device endpoint (token_crc device endpoint) true
  unfolding pid_2data
  read_token pid h = ground (arith, cut_frame, cut_endpoint, cut_device, cut_crc, same_token)

  pub read_sof :
      pid_2data pid_sof d0 d1 ≡ sof (token_field device endpoint) (token_crc device endpoint) true
  unfolding pid_2data
  read_sof = ground (arith, cut_frame, cut_crc, same_token)

-- The monitor reads back, from the bytes that the host stores for a SETUP, OUT or IN token, the
-- address and the endpoint that went into it, and calls its checksum OK.
pub pid_2data-transfer_token :
    (t : Transfer) (pid device endpoint : ℕ)
    → length t.data_bytes ≡ max_data
    → IsTokenPid pid
    → device < 128
    → endpoint < 16
    → (t' : Transfer) × (b c : ℕ) × (transfer_token t pid device endpoint ≡ some t')
      × (take 3 t'.data_bytes ≡ pid ∷ b ∷ c ∷ [])
      × (pid_2data pid b c
          ≡ token (decode_pid pid) device endpoint (token_crc device endpoint) true)
pid_2data-transfer_token t pid device endpoint sized kind dev ep =
    let (t', runs, made) = transfer_token-IsToken t pid device endpoint sized dev ep in
    (
      t',
      d0 device endpoint dev ep,
      d1 device endpoint dev ep,
      runs,
      made.content,
      read_token device endpoint dev ep pid kind,
    )
