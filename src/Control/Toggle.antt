-- ===== src/Control/Toggle.antt =====
-- usbdpi.c: the data toggle of the endpoints, which stays DATA0 or DATA1.
use ciexpert_usbdev.Base.{
  ℕ, zero, suc, ◌<◌, ◌≡◌, refl, ◌∙◌, some, List, [], ◌∷◌, arith, inl, inr, Bool-cases, ◌==◌, length,
  get_elem?, set, length-set, All,
}
use ciexpert_usbdev.Usb.{data_toggle_advance, pid_data1}
use ciexpert_usbdev.Transfer.DataStage.{IsDataPid}
use ciexpert_usbdev.Context.{Ctx}
use ciexpert_usbdev.Control.{toggle_out}
use ciexpert_usbdev.Control.Send.{IsReady}

-- The data PID of an endpoint.
All-get_elem? :
    (xs : List ℕ) (i : ℕ)
    → All IsDataPid xs
    → i < length xs
    → (pid : ℕ) × (get_elem? xs i ≡ some pid) × IsDataPid pid
All-get_elem? [] i h l = absurd (omega arith)
All-get_elem? (x ∷ xs) zero (h, _) l = (x, refl, h)
All-get_elem? (x ∷ xs) (suc i) (_, h) l = All-get_elem? xs i h (omega arith)

All-set :
    (xs : List ℕ) (i pid : ℕ) → All IsDataPid xs → IsDataPid pid → All IsDataPid (set xs i pid)
All-set [] i pid h p = tt
All-set (x ∷ xs) zero pid (_, h) p = (p, h)
All-set (x ∷ xs) (suc i) pid (a, h) p = (a, All-set xs i pid h p)

data_toggle_advance-IsDataPid : (pid : ℕ) → IsDataPid (data_toggle_advance pid)
data_toggle_advance-IsDataPid pid = elim (Bool-cases (pid == pid_data1)) [
  | inl e ↦ rw e (inl refl)
  | inr e ↦ rw e (inr refl)
]

pub next_pid :
    {c : Ctx} (r : IsReady c) (endpoint : ℕ)
    → endpoint < 16
    → (pid : ℕ) × (get_elem? c.ep_out endpoint ≡ some pid) × IsDataPid pid
next_pid {c} r endpoint lt = All-get_elem? c.ep_out endpoint r.toggles (omega (arith, r.endpoints))

-- An endpoint's data PID is toggled.
pub toggle_out-IsReady :
    {c : Ctx} (r : IsReady c) (endpoint : ℕ)
    → endpoint < 16
    → (d : Ctx) × (toggle_out c endpoint ≡ some d) × IsReady d × (d.dev_address ≡ c.dev_address)
unfolding toggle_out
toggle_out-IsReady {c} r endpoint lt =
    let (pid, e, _) = next_pid r endpoint lt in
    (
      record c { ep_out = set c.ep_out endpoint (data_toggle_advance pid) },
      rw e refl,
      record {
        at = r.at;
        holds = r.holds;
        sends = r.sends;
        found = r.found;
        sized = r.sized;
        addressed = r.addressed;
        endpoints = length-set c.ep_out endpoint (data_toggle_advance pid) ∙ r.endpoints;
        toggles =
            All-set c.ep_out endpoint (data_toggle_advance pid) r.toggles
              (data_toggle_advance-IsDataPid pid);
      },
      refl,
    )
