-- ===== src/Examples/Sequences.antt =====
-- The theorems on the streams and on the order of the test steps at concrete contexts.
use ciexpert_usbdev.Base.{
  ℕ, ◌<◌, ◌≡◌, ◌≢◌, ◌↔◌, refl, arith, true, some, [], ◌∷◌, replicate, overwrite,
}
use ciexpert_usbdev.Usb.{
  pid_data0, step_bus_reset, step_stream_service, step_endpt_unimpl_setup, test_smoke,
}
use ciexpert_usbdev.Context.{Ctx, Stream}
use ciexpert_usbdev.Streams.Lfsr.{advance_times, lfsr_advance_period}
use ciexpert_usbdev.TestSequence.Order.{steps_on, streaming_settles, default_settles}
use ciexpert_usbdev.Transfer.{Transfer}
use ciexpert_usbdev.Streams.Packets.{check_bytes, generate}
use ciexpert_usbdev.Streams.Packets.Reply.{check_bytes_iff}
use ciexpert_usbdev.Examples.Data.{at_creation, blank, blank_stream}

lfsr_advance_period_example :
    (advance_times 255 0x9B ≡ 0x9B) × ((k : ℕ) → 0 < k → k < 255 → advance_times k 0x9B ≢ 0x9B)
lfsr_advance_period_example = lfsr_advance_period 0x9B (omega arith) λ e. absurd (omega arith)

streaming_settles_example :
    steps_on 9 at_creation step_bus_reset ≡ (step_stream_service, at_creation)
streaming_settles_example = streaming_settles at_creation 9 refl (omega arith)

abbrev smoke : Ctx
smoke = record at_creation { test_number = test_smoke }

default_settles_example : steps_on 20 smoke step_bus_reset ≡ (step_endpt_unimpl_setup, smoke)
default_settles_example = default_settles smoke 20 refl (λ e. absurd (omega arith)) (omega arith)

check_bytes_iff_example :
    ((check_bytes 0x10 (0x10 ∷ 0x20 ∷ [])).0 ≡ true) ↔ ((0x10 ∷ 0x20 ∷ []) ≡ (generate 2 0x10).0)
check_bytes_iff_example = check_bytes_iff 0x10 (0x10 ∷ 0x20 ∷ [])

-- A packet of two bytes was received into the second descriptor, and the third one is free.
abbrev two_bytes : Transfer
two_bytes = record blank {
  num_bytes = 5;
  data_start = 0;
  data_bytes = overwrite (replicate 73 0) 0 (pid_data0 ∷ 0x10 ∷ 0x20 ∷ []);
}

abbrev bulk_stream : Stream
bulk_stream = record blank_stream { xfr_type = 2; ep_out = 1; dpi_lfsr = 0x9B }

abbrev echoing : Ctx
echoing = record at_creation {
  stream = bulk_stream ∷ [];
  free = some 2;
  transfer_pool = blank ∷ two_bytes ∷ replicate 30 blank;
}
