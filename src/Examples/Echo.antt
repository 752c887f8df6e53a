-- ===== src/Examples/Echo.antt =====
-- The theorem on the host and its monitor at a concrete packet.
use ciexpert_usbdev.Base.{◌≡◌, refl, inl, inr, arith, [], ◌∷◌}
use ciexpert_usbdev.Usb.{st_sync, st_idle, sync, pid, byte, eop}
use ciexpert_usbdev.Context.{Ctx}
use ciexpert_usbdev.Utils.{bad_pid}
use ciexpert_usbdev.Transmit.Stuff.{settled, run, stuff}
use ciexpert_usbdev.Transmit.Packet.{packet_bits}
use ciexpert_usbdev.Monitor.{Monitor, new_monitor, ms_get_pid, ms_get_bytes}
use ciexpert_usbdev.Monitor.Collect.{Listens}
use ciexpert_usbdev.Monitor.Hear.{Hears}
use ciexpert_usbdev.Monitor.Packet.{Hears-stuff}
use ciexpert_usbdev.Host.Exchange.{Exchange}
use ciexpert_usbdev.Host.Eop.{Waits}
use ciexpert_usbdev.Host.Echo.{IsLoaded, transmit-usb_monitor}
use ciexpert_usbdev.Examples.Data.{three_bytes, mid_packet}

-- A DATA0 packet with two bytes is about to be sent.
abbrev before_sync : Ctx
before_sync = record mid_packet { state = st_sync }

before_sync-IsLoaded : IsLoaded before_sync three_bytes (0xC3 ∷ 0xFF ∷ 0x3F ∷ [])
before_sync-IsLoaded = record {
  state_at = refl;
  bit_at = refl;
  at = 0;
  pointer = refl;
  holds = refl;
  within = omega arith;
  fits = omega arith;
  rest = refl;
  alone = inr (omega arith);
}

new_monitor-Waits : Waits new_monitor
unfolding new_monitor
new_monitor-Waits = record {
  state_at = refl;
  line_at = refl;
  count = 0;
  few = omega arith;
  ones = refl;
  small = omega arith;
}

transmit-usb_monitor_example :
    (d : Ctx) × (k : Monitor) × Exchange 4 7 before_sync new_monitor 0
      ((sync, 0) ∷ (pid, 0xC3) ∷ (byte, 0xFF) ∷ (byte, 0x3F) ∷ (eop, 0) ∷ [])
      d
      k
      0xC3
    × (d.state ≡ st_idle)
    × Waits k
unfolding bad_pid
transmit-usb_monitor_example =
    transmit-usb_monitor 0xC3 (0xFF ∷ 0x3F ∷ []) before_sync three_bytes new_monitor 4 7 0
      (record { silent = record { dp_off = refl; dn_off = refl; d_off = refl }; straight = refl })
      before_sync-IsLoaded new_monitor-Waits (omega arith, (omega arith, (omega arith, tt))) refl

-- Behind SYNC the monitor waits for the PID, with a one seen last.
abbrev after_sync : Monitor
after_sync = record new_monitor { state = ms_get_pid; line = 0x999665; rawbits = 1; needbits = 8 }

after_sync-Listens : Listens after_sync 1
unfolding new_monitor
after_sync-Listens = record {
  busy = inl refl;
  low = omega arith;
  high = omega arith;
  few = omega arith;
  ones = (refl, refl);
  small = omega arith;
}

Hears-stuff_example :
    (e : Monitor) × Hears 7 after_sync 0
      (stuff 1 (packet_bits (0xC3 ∷ 0xFF ∷ 0x3F ∷ [])))
      ((pid, 0xC3) ∷ (byte, 0xFF) ∷ (byte, 0x3F) ∷ [])
      e
      0xC3
    × Listens e (settled (run 1 (packet_bits (0xC3 ∷ 0xFF ∷ 0x3F ∷ []))))
    × (e.state ≡ ms_get_bytes)
    × (e.needbits ≡ 8)
unfolding bad_pid
Hears-stuff_example =
    Hears-stuff 0xC3 (0xFF ∷ 0x3F ∷ []) after_sync 1 7 0 after_sync-Listens refl refl (omega arith)
      (omega arith, (omega arith, tt))
