-- ===== src/Host/Reach.antt =====
-- usbdpi.c: the host under any sequence of the simulator's calls.
use ciexpert_usbdev.Base.{ℕ, ◌≡◌, refl, List, some, replicate, [], inl, inr, ◌⊎◌}
use ciexpert_usbdev.Usb.{step_get_test_config}
use ciexpert_usbdev.Context.{Ctx}
use ciexpert_usbdev.Service.Chains.{received}
use ciexpert_usbdev.Host.Config.{AllNull, Queues-AllEmpty}
use ciexpert_usbdev.Bus.{usbdpi_device_to_host}
use ciexpert_usbdev.Service.Flow.{IsOwned, Continues}
use ciexpert_usbdev.Host.{Host, Startup, usbdpi_create, usbdpi_host_to_device}
use ciexpert_usbdev.Host.Account.{elsewhere}
use ciexpert_usbdev.Host.Tick.{Reconfigures, usbdpi_create-IsOwned, usbdpi_host_to_device-Ends}

-- The hosts that the calls lead to, with answers `startup` of the C library and signals `d2p` of the
-- device at will. A call that ends in the
-- step that reads the test configuration is made only while no stream holds a packet.
pub data HostReach : Host → Type 0 where
  created :
      {h : Host} (startup : Startup) (loglevel : ℕ)
      → usbdpi_create startup loglevel ≡ some h
      → HostReach h
  device_to_host :
      {h : Host} (d2p : ℕ)
      → HostReach h
      → HostReach (record h { ctx = usbdpi_device_to_host h.ctx d2p })
  host_to_device :
      {h h' : Host} (d2p : ℕ)
      → HostReach h
      → usbdpi_host_to_device h d2p ≡ some h'
      → (h'.ctx.step ≡ step_get_test_config → AllNull (received h.ctx.stream))
      → HostReach h'

device_to_host-IsOwned :
    (c : Ctx) (d2p : ℕ) (qs : List (List ℕ))
    → IsOwned c qs
    → IsOwned (usbdpi_device_to_host c d2p) qs
unfolding usbdpi_device_to_host
device_to_host-IsOwned c d2p qs h = elsewhere refl h

-- From `usbdpi_create` on, however the simulator calls the host and the device drives the bus, as
-- long as no assertion fails and no stream holds a packet at a call that ends in the step that reads
-- the test configuration, every descriptor of the pool is free, is the one that is sent or the one
-- that is received into, or is in the queue of one stream, and in one place only.
pub HostReach-IsOwned : {h : Host} → HostReach h → (qs : List (List ℕ)) × IsOwned h.ctx qs
HostReach-IsOwned {h} (created startup loglevel e) =
    (replicate 15 [], (usbdpi_create-IsOwned startup loglevel).holds h e)
HostReach-IsOwned (device_to_host {h} d2p r) =
    let (qs, owned) = HostReach-IsOwned r in (qs, device_to_host-IsOwned h.ctx d2p qs owned)
HostReach-IsOwned (host_to_device {h} {h'} d2p r e null) =
    let (qs, owned) = HostReach-IsOwned r in
    settle qs owned (usbdpi_host_to_device-Ends h h' d2p qs owned e)
  where
    settle :
        (qs : List (List ℕ))
        → IsOwned h.ctx qs
        → Continues qs h'.ctx ⊎ Reconfigures qs h'.ctx
        → (q : List (List ℕ)) × IsOwned h'.ctx q
    settle qs owned (inl k) = (k.queues_after, k.owned)
    settle qs owned (inr k) = absurd (
        k.holding (
          Queues-AllEmpty h.ctx.transfer_pool (received h.ctx.stream) qs owned.owns.queues.1
            (null k.reading)))
