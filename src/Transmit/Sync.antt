-- ===== src/Transmit/Sync.antt =====
-- usbdpi.c, ST_SYNC: the host sends the eight bit intervals of a SYNC.
use ciexpert_usbdev.Base.{
  ℕ, zero, suc, ◌≡◌, refl, true, Bool-cases, inl, inr, Option, some, List, [], ◌∷◌, ◌>>=◌, has,
}
use ciexpert_usbdev.Usb.{p2d_dn, p2d_dp, d2p_dnpu, st_sync, st_send}
use ciexpert_usbdev.Context.{Ctx}
use ciexpert_usbdev.Bus.{set_driving}
use ciexpert_usbdev.Bus.Drive.{sense-cases}
use ciexpert_usbdev.Transmit.{send_sync, transmit}

-- What the host drives in `n` bit intervals, and the context behind them.
unfoldable pub driven : ℕ → Ctx → ℕ → Option (List ℕ × Ctx)
driven zero c d2p = some ([], c)
driven (suc n) c d2p = do
  c' ← transmit c d2p
  (levels, e) ← driven n c' d2p
  some (c'.driving ∷ levels, e)

-- From the first bit on, the host drives K J K J K J K K, whatever it drove before, and is then at
-- the first bit of the packet, with the last K counted as a one.
pub driven_sync :
    (c : Ctx) (d2p : ℕ)
    → c.state ≡ st_sync
    → c.bit ≡ 1
    → let k = set_driving c d2p p2d_dn true in
      let j = set_driving c d2p p2d_dp true in
      driven 8 c d2p
      ≡ some (
        k ∷ j ∷ k ∷ j ∷ k ∷ j ∷ k ∷ k ∷ [],
        record c { driving = k; bit = 1; linebits = 1; state = st_send },
      )
unfolding driven transmit send_sync set_driving
driven_sync c d2p s b = elim (sense-cases c.driving) [
  | inl e ↦ elim (Bool-cases (has d2p d2p_dnpu)) [
    | inl o ↦ rw (s, b, e, o) refl
    | inr o ↦ rw (s, b, e, o) refl
  ]
  | inr e ↦ elim (Bool-cases (has d2p d2p_dnpu)) [
    | inl o ↦ rw (s, b, e, o) refl
    | inr o ↦ rw (s, b, e, o) refl
  ]
]
