-- ===== src/Monitor/Lines.antt =====
-- usb_monitor.c and usbdpi.c: how the monitor reads the levels that the host drives.
use ciexpert_usbdev.Base.{
  ℕ, ◌≡◌, refl, Bool, true, false, Bool-cases, ◌&&◌, inl, inr, Option, some, ◌>>=◌, has,
  if◌then◌else◌,
}
use ciexpert_usbdev.Usb.{p2d_dn, p2d_dp, d2p_dnpu, d2p_rx_enable, d2p_dp_en, d2p_dn_en, d2p_d_en}
use ciexpert_usbdev.Context.{Ctx}
use ciexpert_usbdev.Bus.{set_driving}
use ciexpert_usbdev.Bus.Drive.{sense-cases}
use ciexpert_usbdev.Monitor.{Driver, driven_lines, line_code}

-- The code of the line (J is 2, K is 1, SE0 is 0) that the monitor collects from a level.
abbrev pub host_code : Ctx → ℕ → ℕ → Option ℕ
host_code c d2p level =
    driven_lines true (set_driving c d2p level true) d2p >>= λ (lines : Driver × Bool × Bool).
    some (line_code d2p lines.1 lines.2)

-- While the device drives none of its lines, the monitor reads J, K and SE0 from the host as such.
-- The exception is a device that pulls up D- and has its receiver enabled: J and K are exchanged.
pub host_code-set_driving :
    (c : Ctx) (d2p : ℕ)
    → has d2p d2p_dp_en ≡ false
    → has d2p d2p_dn_en ≡ false
    → has d2p d2p_d_en ≡ false
    → let swapped = has d2p d2p_dnpu && has d2p d2p_rx_enable in
      (host_code c d2p p2d_dp ≡ some (if swapped then 1 else 2))
      × (host_code c d2p p2d_dn ≡ some (if swapped then 2 else 1))
      × (host_code c d2p 0 ≡ some 0)
unfolding driven_lines line_code set_driving
host_code-set_driving c d2p a b d = elim (Bool-cases (has d2p d2p_dnpu)) [
  | inl o ↦ elim (Bool-cases (has d2p d2p_rx_enable)) [
    | inl x ↦ elim (sense-cases c.driving) [
      | inl e ↦ rw (a, b, d, o, x, e) (refl, refl, refl)
      | inr e ↦ rw (a, b, d, o, x, e) (refl, refl, refl)
    ]
    | inr x ↦ elim (sense-cases c.driving) [
      | inl e ↦ rw (a, b, d, o, x, e) (refl, refl, refl)
      | inr e ↦ rw (a, b, d, o, x, e) (refl, refl, refl)
    ]
  ]
  | inr o ↦ elim (Bool-cases (has d2p d2p_rx_enable)) [
    | inl x ↦ elim (sense-cases c.driving) [
      | inl e ↦ rw (a, b, d, o, x, e) (refl, refl, refl)
      | inr e ↦ rw (a, b, d, o, x, e) (refl, refl, refl)
    ]
    | inr x ↦ elim (sense-cases c.driving) [
      | inl e ↦ rw (a, b, d, o, x, e) (refl, refl, refl)
      | inr e ↦ rw (a, b, d, o, x, e) (refl, refl, refl)
    ]
  ]
]
