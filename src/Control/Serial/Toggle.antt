-- ===== src/Control/Serial/Toggle.antt =====
-- usbdpi.c: the data toggle of an endpoint after an acknowledged packet.
use ciexpert_usbdev.Base.{ℕ, ◌<◌, ◌≡◌, refl, Bool, true, false, Option, some, ◌==◌, if◌then◌else◌}
use ciexpert_usbdev.Usb.{pid_ack}
use ciexpert_usbdev.Context.{Ctx}
use ciexpert_usbdev.Control.Serial.{toggle_if_acked}
use ciexpert_usbdev.Control.Send.{IsReady}
use ciexpert_usbdev.Control.Toggle.{toggle_out-IsReady}

-- A step that keeps the context ready and the device address.
abbrev pub Keeps : Ctx → Option Ctx → Type 0
Keeps c m = (d : Ctx) × (m ≡ some d) × IsReady d × (d.dev_address ≡ c.dev_address)

pub Keeps-either :
    (c : Ctx) (b : Bool) (x y : Option Ctx) → Keeps c x → Keeps c y → Keeps c (if b then x else y)
Keeps-either c true x y p q = p
Keeps-either c false x y p q = q

pub toggle_if_acked-Keeps :
    {c : Ctx} (r : IsReady c) (endpoint : ℕ) → endpoint < 16 → Keeps c (toggle_if_acked c endpoint)
unfolding toggle_if_acked
toggle_if_acked-Keeps {c} r endpoint lt =
    Keeps-either c (c.lastrxpid == pid_ack) _ _ (toggle_out-IsReady r endpoint lt)
      (c, refl, r, refl)
