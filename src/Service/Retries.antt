-- ===== src/Service/Retries.antt =====
-- usbdpi_stream.c: how often `streams_service` asks for a packet again that it has received.
use ciexpert_usbdev.Base.{ℕ, zero, suc, Bool, true, false, List, [], ◌∷◌, if◌then◌else◌}
use ciexpert_usbdev.Context.{Stream}
use ciexpert_usbdev.Streams.{lfsr_advance}
use ciexpert_usbdev.Service.In.{retry_count, decide_retry}

-- The decisions on a row of `n` packets.
unfoldable pub decisions : ℕ → Stream → List Bool × Stream
decisions zero s = ([], s)
decisions (suc n) s =
    let (accept, t) = decide_retry s in let (rest, last) = decisions n t in (accept ∷ rest, last)

-- Rejections that are left before the next acceptance.
unfoldable pub rejections_due : Stream → ℕ
rejections_due s = if s.retrying then s.nretries else 0

-- The stream once a packet is accepted.
unfoldable pub redrawn : Stream → Stream
redrawn s = record s { nretries = retry_count s.retry_lfsr; retry_lfsr = lfsr_advance s.retry_lfsr }

-- How many packets of a row are accepted.
unfoldable pub accepted : List Bool → ℕ
accepted [] = 0
accepted (true ∷ ds) = suc (accepted ds)
accepted (false ∷ ds) = accepted ds
