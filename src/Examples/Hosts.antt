-- ===== src/Examples/Hosts.antt =====
-- The theorems on the whole host at concrete hosts.
use ciexpert_usbdev.Base.{◌%◌, ◌/◌, arith, ℕ, ◌≡◌, refl, ◌⊎◌, some, List, true}
use ciexpert_usbdev.Context.Reach.{usb_transfer_setup-IsPartition}
use ciexpert_usbdev.Bus.{bus_reset, usbdpi_device_to_host}
use ciexpert_usbdev.Monitor.{
  usb_monitor_diags, usb_monitor, usb_monitor_init, new_monitor, driven_lines,
}
use ciexpert_usbdev.Service.Flow.{IsOwned, Continues}
use ciexpert_usbdev.Usb.{bus_code}
use ciexpert_usbdev.Host.Diags.{usbdpi_diags_lem}
use ciexpert_usbdev.Host.{
  usbdpi_diags, drv_state_code, host_state_code, Host, usbdpi_create, usbdpi_host_to_device,
  host_interval, monitor_bus, deliver, Startup, zero_ctx,
}
use ciexpert_usbdev.Host.Account.{elsewhere}
use ciexpert_usbdev.Host.Tick.{Reconfigures, usbdpi_host_to_device-Ends}
use ciexpert_usbdev.Host.Reach.{created, device_to_host, HostReach-IsOwned}
use ciexpert_usbdev.Examples.Service.{one_queued, one_packet, one_queued-IsOwned}

-- At the next tick a bit interval begins.
abbrev before_interval : Host
before_interval = record {
  ctx = record one_queued { tick = 3; tick_bits = 0 };
  mon = some new_monitor;
}

-- The device has no pull-up: the bus is reset.
abbrev after_reset : Host
after_reset = record {
  ctx = record (bus_reset (record one_queued { tick = 4; tick_bits = 1 })) { recovery_time = 196 };
  mon = some (record new_monitor { pu = 0 });
}

after_reset_runs : usbdpi_host_to_device before_interval 0 ≡ some after_reset
unfolding usbdpi_host_to_device host_interval monitor_bus deliver usb_monitor driven_lines bus_reset
    new_monitor
after_reset_runs = refl

usbdpi_host_to_device-Ends_example :
    Continues one_packet after_reset.ctx ⊎ Reconfigures one_packet after_reset.ctx
usbdpi_host_to_device-Ends_example =
    usbdpi_host_to_device-Ends before_interval after_reset 0 one_packet
      (elsewhere refl one_queued-IsOwned) after_reset_runs

-- All that is asked of the C library is given.
abbrev startup : Startup
startup = record {
  ctx_allocated = true;
  cwd_found = true;
  path_length = some 24;
  filename_max = 4096;
  mon_allocated = true;
  mon_opened = true;
}

new_host_runs : (h : Host) × (usbdpi_create startup 1 ≡ some h)
unfolding usbdpi_create usb_monitor_init bus_reset
new_host_runs =
    let (c, runs, _) =
      usb_transfer_setup-IsPartition (record (bus_reset zero_ctx) { loglevel = 1 }) refl in
    (record { ctx = c; mon = some new_monitor }, rw runs refl)

-- A host that was created, and was called with the signals of a device that is attached.
abbrev new_host : Host
new_host = new_host_runs.0

abbrev attached : Host
attached = record new_host { ctx = usbdpi_device_to_host new_host.ctx 0x20 }

HostReach-IsOwned_example : (qs : List (List ℕ)) × IsOwned attached.ctx qs
HostReach-IsOwned_example =
    HostReach-IsOwned (device_to_host 0x20 (created startup 1 new_host_runs.1))

usbdpi_diags_lem_example :
    (w₀ w₁ : ℕ) × (usbdpi_diags before_interval ≡ some (w₀, w₁, usb_monitor_diags new_monitor))
    × (w₀ % 16 ≡ drv_state_code before_interval.ctx.state)
    × (w₀ / 16 % 32 ≡ host_state_code before_interval.ctx.host_st)
    × (w₀ / 512 % 2048 ≡ before_interval.ctx.frame % 2048)
    × (w₀ / 1048576 ≡ before_interval.ctx.tick_bits % 4096)
    × (w₁ / 33554432 ≡ before_interval.ctx.step)
    × (w₁ / 1048576 % 32 ≡ bus_code before_interval.ctx.bus_state)
    × (w₁ % 1048576 ≡ before_interval.ctx.tick_bits / 4096)
usbdpi_diags_lem_example =
    usbdpi_diags_lem before_interval new_monitor refl (omega arith) (omega arith)
