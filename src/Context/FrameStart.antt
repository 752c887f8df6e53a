-- ===== src/Context/FrameStart.antt =====
-- usb_transfer.c: `transfer_frame_start`, the Start Of Frame packet.
use ciexpert_usbdev.Base.{ℕ, ◌/◌, ◌%◌, ◌<◌, ◌≡◌, ap, ◌∙◌, some, [], ◌∷◌, arith, take, bit_and, true}
use ciexpert_usbdev.Base.Bits.{bit_and-mask7, bit_and-fifteen}
use ciexpert_usbdev.Usb.{pid_sof}
use ciexpert_usbdev.Crc.{crc5}
use ciexpert_usbdev.Monitor.Report.{sof, pid_2data}
use ciexpert_usbdev.Transfer.{Transfer, transfer_token}
use ciexpert_usbdev.Transfer.Token.{token_field, transfer_token-IsToken, read_sof, d0, d1}
use ciexpert_usbdev.Context.{Ctx, start_sending, transfer_frame_start}
use ciexpert_usbdev.Context.Send.{MaySend, IsStarted, stored, change_and_send}

-- The context that `transfer_frame_start` leaves, and the packet.
pub transfer_frame_start_runs :
    (c : Ctx) (p : ℕ) (t : Transfer) (frame : ℕ)
    → MaySend c p t
    → (t' : Transfer) × (b d : ℕ) × (transfer_frame_start c (some p) frame
        ≡ some (start_sending (stored c p t') p))
      × IsStarted (start_sending (stored c p t') p) p t'
      × (t'.num_bytes ≡ 3)
      × (take 3 t'.data_bytes ≡ pid_sof ∷ b ∷ d ∷ [])
      × (pid_2data pid_sof b d ≡ sof (frame % 2048) (crc5 (frame % 2048) 11) true)
unfolding transfer_frame_start
transfer_frame_start_runs c p t frame m =
    let dev : bit_and frame 0x7F < 128 = omega (arith, bit_and-mask7 frame) in
    let ep : bit_and (frame / 128) 15 < 16 = omega (arith, bit_and-fifteen (frame / 128)) in
    let whole : token_field (bit_and frame 0x7F) (bit_and (frame / 128) 15) ≡ frame % 2048 =
      omega (arith, bit_and-mask7 frame, bit_and-fifteen (frame / 128)) in
    let (t', builds, made) =
      transfer_token-IsToken t pid_sof (bit_and frame 0x7F) (bit_and (frame / 128) 15) m.sized dev
        ep in
    let (changes, sends, started) =
      change_and_send c p
        (λ (u : Transfer). transfer_token u pid_sof (bit_and frame 0x7F) (bit_and (frame / 128) 15))
        t t' m builds (omega (arith, made.three)) (omega (arith, made.three)) in
    (
      t',
      d0 (bit_and frame 0x7F) (bit_and (frame / 128) 15) dev ep,
      d1 (bit_and frame 0x7F) (bit_and (frame / 128) 15) dev ep,
      rw changes sends,
      started,
      made.three,
      made.content,
      read_sof (bit_and frame 0x7F) (bit_and (frame / 128) 15) dev ep
          ∙ ap (λ (x : ℕ). sof x (crc5 x 11) true) whole,
    )

-- With a descriptor of the pool that has a whole array, and nothing else being sent,
-- `transfer_frame_start` fails no assertion for any frame number, and starts to send a SOF token of
-- three bytes in which the monitor reads the low 11 bits of the number and a correct checksum.
pub transfer_frame_start_lem :
    (c : Ctx) (p : ℕ) (t : Transfer) (frame : ℕ)
    → MaySend c p t
    → (c' : Ctx) × (t' : Transfer) × (b d : ℕ) × (transfer_frame_start c (some p) frame ≡ some c')
      × IsStarted c' p t'
      × (t'.num_bytes ≡ 3)
      × (take 3 t'.data_bytes ≡ pid_sof ∷ b ∷ d ∷ [])
      × (pid_2data pid_sof b d ≡ sof (frame % 2048) (crc5 (frame % 2048) 11) true)
transfer_frame_start_lem c p t frame m =
    let (t', b, d, runs, started, three, content, reads) =
      transfer_frame_start_runs c p t frame m in
    (start_sending (stored c p t') p, t', b, d, runs, started, three, content, reads)
