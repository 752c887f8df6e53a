-- ===== src/Examples/Lines.antt =====
-- The theorems on the lines of the bus at concrete contexts.
use ciexpert_usbdev.Base.{◌≡◌, refl, inr, arith, true, some, [], ◌∷◌}
use ciexpert_usbdev.Usb.{p2d_dn, p2d_dp, st_eop, st_send, st_sync}
use ciexpert_usbdev.Context.{Ctx}
use ciexpert_usbdev.Bus.{set_driving}
use ciexpert_usbdev.Monitor.Lines.{host_code, host_code-set_driving}
use ciexpert_usbdev.Transmit.{transmit}
use ciexpert_usbdev.Transmit.Stuff.{stuff, unstuff}
use ciexpert_usbdev.Transmit.Step.{Sends, IsSending}
use ciexpert_usbdev.Transmit.Sync.{driven, driven_sync}
use ciexpert_usbdev.Transmit.Packet.{packet_bits, transmit-stuff}
use ciexpert_usbdev.Examples.Data.{ready, three_bytes, mid_packet}

host_code-set_driving_example :
    (host_code ready 5 p2d_dp ≡ some 2)
    × (host_code ready 5 p2d_dn ≡ some 1)
    × (host_code ready 5 0 ≡ some 0)
host_code-set_driving_example = host_code-set_driving ready 5 refl refl refl

-- A packet is about to be sent.
abbrev syncing : Ctx
syncing = record ready { state = st_sync; bit = 1 }

driven_sync_example :
    driven 8 syncing 4
    ≡ some (
      set_driving syncing 4 p2d_dn true
          ∷ set_driving syncing 4 p2d_dp true
          ∷ set_driving syncing 4 p2d_dn true
          ∷ set_driving syncing 4 p2d_dp true
          ∷ set_driving syncing 4 p2d_dn true
          ∷ set_driving syncing 4 p2d_dp true
          ∷ set_driving syncing 4 p2d_dn true
          ∷ set_driving syncing 4 p2d_dn true
          ∷ [],
      record syncing {
        driving = set_driving syncing 4 p2d_dn true;
        bit = 1;
        linebits = 1;
        state = st_send;
      },
    )
driven_sync_example = driven_sync syncing 4 refl refl

mid_packet-IsSending : IsSending mid_packet three_bytes 1
mid_packet-IsSending = record {
  sends = refl;
  at = 0;
  pointer = refl;
  holds = refl;
  few = omega arith;
  ones = (refl, refl);
}

transmit-stuff_example :
    (e : Ctx) × Sends 4 mid_packet (stuff 1 (packet_bits (0xC3 ∷ 0xFF ∷ 0x3F ∷ []))) e
    × (unstuff 1 (stuff 1 (packet_bits (0xC3 ∷ 0xFF ∷ 0x3F ∷ [])))
        ≡ packet_bits (0xC3 ∷ 0xFF ∷ 0x3F ∷ []))
    × (transmit e 4 ≡ some (record e { state = st_eop; driving = set_driving e 4 0 true; bit = 1 }))
transmit-stuff_example =
    transmit-stuff (0xC3 ∷ 0xFF ∷ 0x3F ∷ []) mid_packet three_bytes 1 4 mid_packet-IsSending refl
      (omega arith) (omega arith) refl (inr (omega arith))
