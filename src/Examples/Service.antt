-- ===== src/Examples/Service.antt =====
-- The theorems on `streams_service` at concrete contexts.
use ciexpert_usbdev.Base.{get_elem?, ℕ, ◌≡◌, refl, true, some, List, [], ◌∷◌, ◌++◌, replicate, set}
use ciexpert_usbdev.Usb.{hs_streamin}
use ciexpert_usbdev.Context.{Ctx, Stream, transfer_release}
use ciexpert_usbdev.Context.Pool.{places_from}
use ciexpert_usbdev.Streams.{out_stream_next}
use ciexpert_usbdev.Service.{discard_received, retire_received}
use ciexpert_usbdev.Service.Out.{stream_out}
use ciexpert_usbdev.Service.Reply.{streams_service, streams_service_at}
use ciexpert_usbdev.Service.Flow.{IsOwned, Continues}
use ciexpert_usbdev.Service.Flow.Out.{stream_out_discards}
use ciexpert_usbdev.Service.{collect_received}
use ciexpert_usbdev.Service.Flow.Packet.{InHand, collect_received_joins}
use ciexpert_usbdev.Service.Flow.Reply.{streams_service-Continues}
use ciexpert_usbdev.Host.Tick.{no-Queues}
use ciexpert_usbdev.Examples.Data.{blank, blank_stream}
use ciexpert_usbdev.Examples.Pools.{one_taken, one_taken-IsPartition}

-- The first stream holds one packet.
abbrev pub one_queued : Ctx
one_queued = record one_taken {
  stream = record blank_stream { received = some 0 } ∷ replicate 14 blank_stream;
}

abbrev pub one_packet : List (List ℕ)
one_packet = (0 ∷ []) ∷ replicate 14 []

pub one_queued-IsOwned : IsOwned one_queued one_packet
one_queued-IsOwned = record {
  owns = record {
    free = places_from 1 31;
    part = record {
      size = one_taken-IsPartition.size;
      chain = one_taken-IsPartition.chain;
      whole = one_taken-IsPartition.whole;
    };
    queues = (refl, ((blank, refl, refl, refl), no-Queues one_queued.transfer_pool 14));
  };
}

-- The packet is discarded.
abbrev one_discarded : Ctx
one_discarded = record one_queued {
  stream_out = 0;
  host_st = hs_streamin;
  free = some 0;
  transfer_pool = set one_queued.transfer_pool 0 (record blank { next = some 1 });
  stream = replicate 15 blank_stream;
}

one_discarded_runs : streams_service one_queued ≡ some one_discarded
unfolding streams_service streams_service_at stream_out out_stream_next discard_received
    retire_received transfer_release
one_discarded_runs = refl

streams_service-Continues_example : Continues one_packet one_discarded
streams_service-Continues_example =
    streams_service-Continues one_queued one_discarded one_packet one_queued-IsOwned
      one_discarded_runs

stream_out_discards_example :
    (d : Ctx) × (stream_out one_queued ≡ some d)
    × IsOwned d (set one_packet 0 [])
    × (d.host_st ≡ hs_streamin)
stream_out_discards_example =
    stream_out_discards one_queued one_packet (record blank_stream { received = some 0 })
      one_queued-IsOwned refl refl refl

-- A stream that rejects twice more.
abbrev retrying_stream : Stream
retrying_stream = record blank_stream { retrying = true; nretries = 2; retry_lfsr = 0x24 }

-- A packet is in the host's hand, and no stream holds one.
one_taken-InHand : InHand one_taken 0 (replicate 15 [])
one_taken-InHand = record {
  owns = record {
    free = places_from 1 31;
    part = record {
      size = one_taken-IsPartition.size;
      chain = one_taken-IsPartition.chain;
      whole = one_taken-IsPartition.whole;
    };
    queues = (refl, no-Queues one_taken.transfer_pool 15);
  };
  idle = refl;
  packet = blank;
  found = refl;
  unlinked = refl;
}

collect_received_joins_example :
    (d : Ctx) × (q : List ℕ) × (get_elem? (replicate 15 []) 2 ≡ some q)
    × (collect_received one_taken 2 0 ≡ some d)
    × IsOwned d (set (replicate 15 []) 2 (q ++ (0 ∷ [])))
collect_received_joins_example =
    collect_received_joins one_taken 2 0 blank_stream (replicate 15 []) one_taken-InHand refl
