-- ===== src/Examples/Data.antt =====
-- Test data: contexts of the host model.
use ciexpert_usbdev.Base.{
  ℕ, zero, suc, ◌+◌, refl, inl, false, none, some, List, [], ◌∷◌, replicate, All, if◌then◌else◌,
  ◌==◌, overwrite, arith,
}
use ciexpert_usbdev.Usb.{
  st_idle, st_send, hs_startframe, usb_idle, pid_data0, no_data_stage, test_streams,
}
use ciexpert_usbdev.Transfer.{Transfer}
use ciexpert_usbdev.Transfer.DataStage.{IsDataPid}
use ciexpert_usbdev.Context.{Ctx, Stream}
use ciexpert_usbdev.Control.Send.{IsReady}

abbrev pub blank : Transfer
blank = record {
  next = none;
  num_bytes = 0;
  data_start = no_data_stage;
  data_bytes = replicate 73 0;
}

abbrev pub blank_stream : Stream
blank_stream = record {
  id = 0;
  retrieve = false;
  send = false;
  retrying = false;
  checking = false;
  sig_expected = false;
  xfr_type = 0;
  ep_in = 0;
  ep_out = 0;
  tst_seq = 0;
  tst_lfsr = 0;
  dpi_lfsr = 0;
  retry_lfsr = 0;
  nretries = 0;
  dpi_rewind_lfsr = 0;
  received = none;
}

-- A context before its transfer descriptors are linked.
abbrev pub at_creation : Ctx
at_creation = record {
  bus_state = usb_idle;
  driving = 1;
  linebits = 0;
  bit = 0;
  byte = 0;
  test_number = test_streams;
  test_arg = 0 ∷ 0 ∷ 0 ∷ 0 ∷ [];
  ep_in = replicate 16 pid_data0;
  ep_out = replicate 16 pid_data0;
  nstreams = 3;
  stream_in = 0;
  stream_out = 2;
  stream = replicate 15 blank_stream;
  loglevel = 0;
  host_st = hs_startframe;
  recving = none;
  sending = none;
  last_pu = 0;
  lastrxpid = 0;
  tick = 0;
  tick_bits = 40;
  recovery_time = 0;
  step = 0;
  num_tries = 0;
  frame = 0;
  framepend = false;
  frame_start = 0;
  wait = 0;
  state = st_idle;
  baudrate_set_successfully = false;
  dev_address = 2;
  cfg_desc_len = 0;
  free = none;
  transfer_pool = replicate 32 blank;
}

abbrev pub link_from : ℕ → ℕ → List Transfer
link_from zero i = []
link_from (suc n) i =
    record blank { next = if n == 0 then none else some (i + 1) } ∷ link_from n (i + 1)

-- The same with the descriptors linked.
abbrev pub linked : Ctx
linked = record at_creation { free = some 0; transfer_pool = link_from 32 0 }

-- A descriptor is at hand for sending.
abbrev pub ready : Ctx
ready = record at_creation { sending = some 0 }

All-data0 : (n : ℕ) → All IsDataPid (replicate n pid_data0)
All-data0 zero = tt
All-data0 (suc n) = (inl refl, All-data0 n)

pub ready-IsReady : IsReady ready
ready-IsReady = record {
  at = 0;
  holds = blank;
  sends = refl;
  found = refl;
  sized = refl;
  addressed = omega arith;
  endpoints = refl;
  toggles = All-data0 16;
}

-- A packet of three bytes, eighteen of whose bits are ones, is about to be sent.
abbrev pub three_bytes : Transfer
three_bytes = record blank {
  num_bytes = 3;
  data_bytes = overwrite (replicate 73 0) 0 (0xC3 ∷ 0xFF ∷ 0x3F ∷ []);
}

abbrev pub mid_packet : Ctx
mid_packet = record at_creation {
  state = st_send;
  sending = some 0;
  bit = 1;
  linebits = 1;
  transfer_pool = three_bytes ∷ replicate 31 blank;
}
