-- ===== src/Control/Progress.antt =====
-- What one call of a control transfer's state machine does: it waits, or it moves on.
use ciexpert_usbdev.Base.{
  ℕ, ◌<◌, ◌≡◌, refl, Bool, true, false, ◌⊎◌, inl, inr, Option, some, if◌then◌else◌, ◌>>=◌,
}
use ciexpert_usbdev.Usb.{
  HostState, hs_startframe, hs_waitack, hs_set_datastage, hs_ds_rxdata, hs_ds_sendack, hs_reqdata,
  hs_waitdata, hs_sendack, hs_wait_pkt, hs_ackifdata, hs_sendhi, hs_emptydata, hs_waitack2,
  hs_nextframe,
}
use ciexpert_usbdev.Context.{Ctx}
use ciexpert_usbdev.Control.Send.{IsReady}

-- The order in which the transfers pass through their states.
abbrev pub stage : HostState → ℕ
stage hs_startframe = 0
stage hs_waitack = 1
stage hs_set_datastage = 2
stage hs_reqdata = 2
stage hs_ds_rxdata = 3
stage hs_waitdata = 3
stage hs_ds_sendack = 4
stage hs_sendack = 4
stage hs_wait_pkt = 5
stage hs_emptydata = 6
stage hs_waitack2 = 7
stage hs_nextframe = 8
stage _ = 9

-- `pollRX` passes through them in another order.
abbrev pub poll_stage : HostState → ℕ
poll_stage hs_startframe = 0
poll_stage hs_wait_pkt = 1
poll_stage hs_ackifdata = 2
poll_stage hs_sendhi = 3
poll_stage hs_waitack = 4
poll_stage hs_nextframe = 5
poll_stage _ = 6

-- A call in state `h` that does not fail, keeps the context ready, and changes nothing or moves to
-- a later state. The device address stays, or becomes `a` at the end of the transfer.
pub record Goes (rank : HostState → ℕ) (h : HostState) (a : ℕ) (c : Ctx) (f : Option Ctx)
    : Type 0 where
  pub after : Ctx
  pub runs : f ≡ some after
  pub ready : IsReady after
  pub later : (after ≡ c) ⊎ (rank h < rank after.host_st)
  pub address :
      (after.dev_address ≡ c.dev_address)
      ⊎ ((after.dev_address ≡ a) × (after.host_st ≡ hs_nextframe))

module _ {rank : HostState → ℕ} {h : HostState} {a : ℕ} {c : Ctx} where
  pub waits : IsReady c → Goes rank h a c (some c)
  waits r = record { after = c; runs = refl; ready = r; later = inl refl; address = inl refl }

  pub either :
      (b : Bool) {x y : Option Ctx}
      → Goes rank h a c x
      → Goes rank h a c y
      → Goes rank h a c (if b then x else y)
  either true p q = p
  either false p q = q

  -- What is done after a step that keeps the context ready.
  pub after_step :
      {m : Option Ctx} {d : Ctx} (k : Ctx → Option Ctx)
      → m ≡ some d
      → Goes rank h a c (k d)
      → Goes rank h a c (m >>= k)
  after_step {m} {d} k e g = record {
    after = g.after;
    runs = rw e g.runs;
    ready = g.ready;
    later = g.later;
    address = g.address;
  }

  pub moves :
      {d : Ctx}
      → IsReady d
      → rank h < rank d.host_st
      → d.dev_address ≡ c.dev_address
      → Goes rank h a c (some d)
  moves {d} r l e = record { after = d; runs = refl; ready = r; later = inr l; address = inl e }
