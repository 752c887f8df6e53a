-- ===== src/Monitor/Hear.antt =====
-- usb_monitor.c: the monitor inside of a packet, over stretches of stuffed bits.
use ciexpert_usbdev.Base.{
  ℕ, ◌≡◌, refl, sym, ap, subst, Bool, Bool-cases, none, some, ◌==◌, inl, inr, List, [], ◌∷◌, ◌++◌,
}
use ciexpert_usbdev.Usb.{UsbmonDataType}
use ciexpert_usbdev.Transmit.Stuff.{due, settled, body, run, body-append, run-append}
use ciexpert_usbdev.Monitor.{Monitor, MonState, Event, follow_line}
use ciexpert_usbdev.Monitor.Collect.{moved, dropped, Listens, drop_step}

abbrev pub Events : Type 0
Events = List (UsbmonDataType × ℕ)

abbrev pub events_of : Event → Events
events_of none = []
events_of (some e) = e ∷ []

-- The monitor, called once for each of the line's bits: a level that stays is a one. What it
-- reports, and the caller's `lastpid`.
pub data Hears (tick : ℕ) : Monitor → ℕ → List Bool → Events → Monitor → ℕ → Type 0 where
  over : {m : Monitor} {lastpid : ℕ} → Hears tick m lastpid [] [] m lastpid
  hear :
      {m m' d : Monitor} {lastpid lastpid' p : ℕ} {b : Bool} {bs : List Bool} {e : Event}
      {es : Events}
      → follow_line (moved m b) tick lastpid ≡ (m', e, lastpid')
      → Hears tick m' lastpid' bs es d p
      → Hears tick m lastpid (b ∷ bs) (events_of e ++ es) d p

pub events_append : (xs ys zs : Events) → (xs ++ ys) ++ zs ≡ xs ++ (ys ++ zs)
events_append [] ys zs = refl
events_append (x ∷ xs) ys zs = ap (λ (l : Events). x ∷ l) (events_append xs ys zs)

pub Hears-append :
    {tick : ℕ} {m d e : Monitor} {lastpid p q : ℕ} {xs ys : List Bool} {es fs : Events}
    → Hears tick m lastpid xs es d p
    → Hears tick d p ys fs e q
    → Hears tick m lastpid (xs ++ ys) (es ++ fs) e q
Hears-append over k = k
Hears-append {tick} {e = e} {lastpid = lastpid} {q = q} {ys = ys} {fs = fs}
      (hear {m = m} {b = b} {bs = bs} {e = event} {es = es} r h) k =
    subst (λ (l : Events). Hears tick m lastpid (b ∷ (bs ++ ys)) l e q)
      (sym (events_append (events_of event) es fs)) (hear r (Hears-append h k))

-- A stretch of bits has been heard, and where the monitor stands then.
pub record Gathers (tick : ℕ) (m : Monitor) (lastpid n : ℕ) (bits : List Bool) (es : Events)
    (state : MonState) (need acc p : ℕ) : Type 0 where
  pub after : Monitor
  pub hears : Hears tick m lastpid (body n bits) es after p
  pub listens : Listens after (run n bits)
  pub state_at : after.state ≡ state
  pub need_at : after.needbits ≡ need
  pub bits_at : after.bits ≡ acc

pub gather_both :
    {tick : ℕ} {m : Monitor} {lastpid n : ℕ} {xs ys : List Bool} {es fs : Events}
    {state state' : MonState} {need acc p need' acc' p' : ℕ}
    (g : Gathers tick m lastpid n xs es state need acc p)
    → Gathers tick g.after p (run n xs) ys fs state' need' acc' p'
    → Gathers tick m lastpid n (xs ++ ys) (es ++ fs) state' need' acc' p'
gather_both {tick} {m} {lastpid} {n} {xs} {ys} {es} {fs} {p' = p'} g k = record {
  after = k.after;
  hears =
      subst (λ (l : List Bool). Hears tick m lastpid l (es ++ fs) k.after p')
        (sym (body-append n xs ys)) (Hears-append g.hears k.hears);
  listens = subst (λ (r : ℕ). Listens k.after r) (sym (run-append n xs ys)) k.listens;
  state_at = k.state_at;
  need_at = k.need_at;
  bits_at = k.bits_at;
}

-- The stuffed bit that is due comes first.
pub settle :
    {m : Monitor} {n : ℕ} (tick lastpid : ℕ)
    → Listens m n
    → (d : Monitor) × Hears tick m lastpid (due n) [] d lastpid
      × Listens d (settled n)
      × (d.state ≡ m.state)
      × (d.needbits ≡ m.needbits)
      × (d.bits ≡ m.bits)
settle {m} {n} tick lastpid h = elim (Bool-cases (n == 6)) [
  | inl e ↦
      let (runs, still) = drop_step tick lastpid h e in
      (dropped m, rw e (hear runs over), rw e still, refl, refl, refl)
  | inr e ↦ (m, rw e over, rw e h, refl, refl, refl)
]
