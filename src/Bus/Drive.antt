-- ===== src/Bus/Drive.antt =====
-- usbdpi.c: `set_driving` and `inv_driving` agree on what the levels J and K are.
use ciexpert_usbdev.Base.{ℕ, ◌≡◌, bit_and, Bool, ◌⊎◌, arith}
use ciexpert_usbdev.Base.Bits.{bit_and-one}
use ciexpert_usbdev.Usb.{p2d_sense, p2d_dn, p2d_dp}
use ciexpert_usbdev.Context.{Ctx}
use ciexpert_usbdev.Bus.{set_driving, inv_driving}

-- The context with the lines driven to `newval`.
abbrev pub drive : Ctx → ℕ → ℕ → Bool → Ctx
drive c d2p newval oe = record c { driving = set_driving c d2p newval oe }

pub sense-cases : (x : ℕ) → (bit_and x p2d_sense ≡ 0) ⊎ (bit_and x p2d_sense ≡ 1)
sense-cases x = ground (arith, bit_and-one x)

-- In either orientation of the pins, and with the drivers enabled or not, inverting J gives K and
-- inverting K gives J, and VBUS stays what it was.
inv_driving-set_driving :
    (c : Ctx) (d2p : ℕ) (oe : Bool)
    → (inv_driving (drive c d2p p2d_dp oe) d2p ≡ set_driving c d2p p2d_dn oe)
      × (inv_driving (drive c d2p p2d_dn oe) d2p ≡ set_driving c d2p p2d_dp oe)
unfolding set_driving inv_driving
inv_driving-set_driving c d2p oe = ground (arith, sense-cases c.driving)

-- Driving the lines keeps VBUS.
pub set_driving_keeps_sense :
    (c : Ctx) (d2p newval : ℕ) (oe : Bool)
    → bit_and (set_driving c d2p newval oe) p2d_sense ≡ bit_and c.driving p2d_sense
unfolding set_driving
set_driving_keeps_sense c d2p newval oe = ground (arith, sense-cases c.driving)
