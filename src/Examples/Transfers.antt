-- ===== src/Examples/Transfers.antt =====
-- The theorems on the host's transfers and on reception at concrete contexts.
use ciexpert_usbdev.Base.{
  inl, replicate, u16, ℕ, ◌+◌, ◌%◌, ◌≡◌, refl, arith, true, false, some, [], ◌∷◌, take, u32,
}
use ciexpert_usbdev.Usb.{
  sync, pid, hs_startframe, hs_sendack, step_get_config_descriptor, usb_control_data_in_data,
  hs_nextframe, hs_waitack, usb_control_setup, interval_setup_stage, pid_setup, pid_data0,
  pid_data1, pid_sof, st_get,
}
use ciexpert_usbdev.Crc.{crc5}
use ciexpert_usbdev.Monitor.Report.{pid_2data, sof}
use ciexpert_usbdev.Transfer.{Transfer}
use ciexpert_usbdev.Transfer.Packet.{IsTransaction}
use ciexpert_usbdev.Context.{Ctx, transfer_setup, transfer_frame_start, setup_field}
use ciexpert_usbdev.Context.Send.{MaySend, IsStarted, transfer_setup_lem}
use ciexpert_usbdev.Context.FrameStart.{transfer_frame_start_lem}
use ciexpert_usbdev.Control.{set_device_address, set_device_configuration}
use ciexpert_usbdev.Control.Progress.{Goes, stage, poll_stage}
use ciexpert_usbdev.Control.Address.{set_device_address-Goes, set_device_configuration-Goes}
use ciexpert_usbdev.TestSequence.{usbdpi_test_seq_next}
use ciexpert_usbdev.Control.Serial.{read_baud, set_baud, poll_rx}
use ciexpert_usbdev.Control.Serial.Progress.{read_baud-Goes, set_baud-Goes}
use ciexpert_usbdev.Control.Serial.Bulk.{poll_rx-Goes}
use ciexpert_usbdev.Receive.Packet.{IsReceived, callbacks, byte_events, packet-IsReceived}
use ciexpert_usbdev.Frame.{begin_frame}
use ciexpert_usbdev.Frame.Begin.{begin_frame-IsStarted}
use ciexpert_usbdev.Control.Send.{IsReady}
use ciexpert_usbdev.Control.Read.{get_descriptor}
use ciexpert_usbdev.Control.Read.Descriptor.{get_descriptor-Goes}
use ciexpert_usbdev.Examples.Data.{blank, ready, ready-IsReady}

MaySend-first : MaySend ready 0 blank
MaySend-first = record { found = refl; sized = refl; free_to_send = refl }

transfer_setup_lem_example :
    (c' : Ctx) × (t' : Transfer) × (transfer_setup ready (some 0) 0x80 6 0x100 0 18 ≡ some c')
    × IsStarted c' 0 t'
    × IsTransaction pid_setup 2 0 pid_data0 (setup_field 0x80 6 0x100 0 18) t'
    × (c'.bus_state ≡ usb_control_setup)
    × (c'.host_st ≡ hs_waitack)
    × (c'.wait ≡ u32 (40 + interval_setup_stage))
transfer_setup_lem_example =
    transfer_setup_lem ready 0 blank 0x80 6 0x100 0 18 MaySend-first (omega arith)

transfer_frame_start_lem_example :
    (c' : Ctx) × (t' : Transfer) × (b d : ℕ) × (transfer_frame_start ready (some 0) 0x1234
      ≡ some c')
    × IsStarted c' 0 t'
    × (t'.num_bytes ≡ 3)
    × (take 3 t'.data_bytes ≡ pid_sof ∷ b ∷ d ∷ [])
    × (pid_2data pid_sof b d ≡ sof (0x1234 % 2048) (crc5 (0x1234 % 2048) 11) true)
transfer_frame_start_lem_example = transfer_frame_start_lem ready 0 blank 0x1234 MaySend-first

set_device_address-Goes_example : Goes stage hs_startframe 5 ready (set_device_address ready 5)
set_device_address-Goes_example = set_device_address-Goes ready 5 ready-IsReady (omega arith)

set_device_configuration-Goes_example :
    Goes stage hs_startframe 2 ready (set_device_configuration ready 1)
set_device_configuration-Goes_example = set_device_configuration-Goes ready 1 ready-IsReady

read_baud-Goes_example : Goes stage hs_startframe 2 ready (read_baud ready 0)
read_baud-Goes_example = read_baud-Goes ready 0 ready-IsReady (omega arith)

set_baud-Goes_example : Goes stage hs_startframe 2 ready (set_baud ready 0)
set_baud-Goes_example = set_baud-Goes ready 0 ready-IsReady (omega arith)

poll_rx-Goes_example : Goes poll_stage hs_startframe 2 ready (poll_rx ready 1 true false)
poll_rx-Goes_example = poll_rx-Goes ready 1 true false ready-IsReady (omega arith)

-- The device is sending.
abbrev getting : Ctx
getting = record ready { state = st_get; recving = some 3 }

packet-IsReceived_example :
    (c' : Ctx) × (t' : Transfer) × (callbacks getting
        ((sync, 0) ∷ (pid, pid_data1) ∷ byte_events (1 ∷ 2 ∷ 0xC1 ∷ []))
      ≡ some c')
    × IsReceived (pid_data1 ∷ 1 ∷ 2 ∷ 0xC1 ∷ []) 0 c' 3 t'
packet-IsReceived_example =
    packet-IsReceived getting 3 blank pid_data1 (1 ∷ 2 ∷ 0xC1 ∷ [])
      record { getting = refl; into = refl; found = refl } refl (omega arith)

-- The first frame is due.
abbrev framing : Ctx
framing = record ready {
  tick_bits = 12040;
  frame_start = 40;
  frame = 0x7FF;
  host_st = hs_nextframe;
}

begin_frame-IsStarted_example :
    (c' : Ctx) × (t' : Transfer) × (a b : ℕ) × (begin_frame framing ≡ some c')
    × IsStarted c' 0 t'
    × (take 3 t'.data_bytes ≡ pid_sof ∷ a ∷ b ∷ [])
    × (pid_2data pid_sof a b ≡ sof (u16 0x800 % 2048) (crc5 (u16 0x800 % 2048) 11) true)
    × (c'.frame ≡ u16 0x800)
    × (c'.frame_start ≡ 12040)
    × (c'.step ≡ (usbdpi_test_seq_next framing framing.step).0)
    × (c'.num_tries ≡ 0)
    × (c'.host_st ≡ hs_startframe)
begin_frame-IsStarted_example =
    begin_frame-IsStarted framing 0 blank
      record { time = omega arith; idle = refl; awake = refl; ended = refl }
      record { found = refl; sized = refl; free_to_send = refl } refl

-- The answer to a request for the configuration descriptor has come.
abbrev described : Ctx
described = record ready {
  host_st = hs_sendack;
  step = step_get_config_descriptor;
  bus_state = usb_control_data_in_data;
  recving = some 1;
  transfer_pool = blank ∷ record blank { num_bytes = 12; data_start = 0 } ∷ replicate 30 blank;
}

described-IsReady : IsReady described
described-IsReady = record {
  at = 0;
  holds = blank;
  sends = refl;
  found = refl;
  sized = refl;
  addressed = omega arith;
  endpoints = refl;
  toggles = ready-IsReady.toggles;
}

get_descriptor-Goes_example : Goes stage hs_sendack 2 described (get_descriptor described 2 0 9)
get_descriptor-Goes_example =
    get_descriptor-Goes described 2 0 9 described-IsReady
      (inl record {
        from = 1;
        packet = record blank { num_bytes = 12; data_start = 0 };
        into = refl;
        found = refl;
        sized = refl;
        inside = omega arith;
        field = omega arith;
      })
      (λ e. absurd (omega arith))
