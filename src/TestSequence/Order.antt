-- ===== src/TestSequence/Order.antt =====
-- Where the sequence of usbdpi_test.c leads.
use ciexpert_usbdev.Base.{
  ℕ, zero, suc, ◌+◌, ◌-◌, ◌*◌, ◌≤◌, ◌<◌, ◌≡◌, ◌≢◌, refl, arith, true, false, ◌⊎◌,
}
use ciexpert_usbdev.Usb.{
  test_pin_cfg, step_bus_reset, step_stream_service, step_endpt_unimpl_setup, step_get_test_config,
}
use ciexpert_usbdev.Context.{Ctx}
use ciexpert_usbdev.TestSequence.{usbdpi_test_seq_next, test_next, default_next, is_streaming}

-- The step after `n` frames, from the step `step`.
abbrev pub steps_on : ℕ → Ctx → ℕ → ℕ × Ctx
steps_on zero ctx step = (step, ctx)
steps_on (suc n) ctx step = let (s, c) = usbdpi_test_seq_next ctx step in steps_on n c s

-- Each enumeration step up to the test configuration leaves the context alone.
enumeration : (ctx : Ctx) → steps_on 6 ctx step_bus_reset ≡ (step_get_test_config, ctx)
unfolding usbdpi_test_seq_next
enumeration ctx = refl

steps_on-add :
    (a b : ℕ) (ctx : Ctx) (step : ℕ)
    → steps_on (a + b) ctx step ≡ steps_on b (steps_on a ctx step).1 (steps_on a ctx step).0
steps_on-add zero b ctx step = let e : zero + b ≡ b = omega arith in rw e
steps_on-add (suc a) b ctx step =
    let e : suc a + b ≡ suc (a + b) = omega arith in
    rw e (steps_on-add a b (usbdpi_test_seq_next ctx step).1 (usbdpi_test_seq_next ctx step).0)

-- A step that is its own successor is kept.
stays :
    (ctx : Ctx) (step : ℕ)
    → usbdpi_test_seq_next ctx step ≡ (step, ctx)
    → (n : ℕ) → steps_on n ctx step ≡ (step, ctx)
stays ctx step e zero = refl
stays ctx step e (suc n) = rw e (stays ctx step e n)

-- Reached after `a` frames and kept, it is the step after any larger number of frames.
settles :
    (a n : ℕ) (ctx : Ctx) (step : ℕ)
    → steps_on a ctx step_bus_reset ≡ (step, ctx)
    → usbdpi_test_seq_next ctx step ≡ (step, ctx)
    → a ≤ n
    → steps_on n ctx step_bus_reset ≡ (step, ctx)
settles a n ctx step reached kept h =
    let parts : n ≡ a + (n - a) = omega arith in
    rw parts
      (rw (steps_on-add a (n - a) ctx step_bus_reset) (rw reached (stays ctx step kept (n - a))))

streaming-next :
    (ctx : Ctx) (step : ℕ)
    → is_streaming ctx.test_number ≡ true
    → test_next ctx.test_number step ≡ step_stream_service
unfolding test_next
streaming-next ctx step h = rw h

default-next :
    (ctx : Ctx) (step : ℕ)
    → is_streaming ctx.test_number ≡ false
    → ctx.test_number ≢ test_pin_cfg
    → test_next ctx.test_number step ≡ default_next step
unfolding test_next
default-next ctx step h ne = rw h (ground arith)

-- In each of the three streaming tests the streams are served from the seventh frame after the bus
-- reset on, for ever, and the sequence changes nothing else.
pub streaming_settles :
    (ctx : Ctx) (n : ℕ)
    → is_streaming ctx.test_number ≡ true
    → 7 ≤ n
    → steps_on n ctx step_bus_reset ≡ (step_stream_service, ctx)
unfolding usbdpi_test_seq_next
streaming_settles ctx n h =
    settles 7 n ctx step_stream_service (rw (streaming-next ctx step_get_test_config h))
      (rw (streaming-next ctx step_stream_service h))

default_step :
    (ctx : Ctx) (step : ℕ)
    → is_streaming ctx.test_number ≡ false
    → ctx.test_number ≢ test_pin_cfg
    → (step ≡ 6) ⊎ (8 ≤ step)
    → step < 127
    → usbdpi_test_seq_next ctx step ≡ (default_next step, ctx)
unfolding usbdpi_test_seq_next
default_step ctx step h ne lo hi = rw (← default-next ctx step h ne) (ground arith)

default_run :
    (ctx : Ctx)
    → is_streaming ctx.test_number ≡ false
    → ctx.test_number ≢ test_pin_cfg
    → steps_on 8 ctx step_get_test_config ≡ (step_endpt_unimpl_setup, ctx)
unfolding default_next
default_run ctx h ne =
    let next = λ (s : ℕ) (lo : (s ≡ 6) ⊎ (8 ≤ s)) (hi : s < 127). default_step ctx s h ne lo hi in
    rw (next 6 (omega arith) (omega arith)) (
      rw (next 8 (omega arith) (omega arith)) (
        rw (next 9 (omega arith) (omega arith)) (
          rw (next 10 (omega arith) (omega arith)) (
            rw (next 11 (omega arith) (omega arith)) (
              rw (next 12 (omega arith) (omega arith)) (
                rw (next 13 (omega arith) (omega arith))
                  (rw (next 14 (omega arith) (omega arith)))))))))

-- In every other test but the pin configuration test, the sequence comes to the SETUP to an
-- unimplemented endpoint after fourteen frames and never leaves it: the steps behind it (OUT and
-- IN to the endpoint, the unknown device, the idle frames) are never performed.
pub default_settles :
    (ctx : Ctx) (n : ℕ)
    → is_streaming ctx.test_number ≡ false
    → ctx.test_number ≢ test_pin_cfg
    → 14 ≤ n
    → steps_on n ctx step_bus_reset ≡ (step_endpt_unimpl_setup, ctx)
unfolding default_next
default_settles ctx n h ne =
    settles 14 n ctx step_endpt_unimpl_setup
      (rw (steps_on-add 6 8 ctx step_bus_reset) (rw (enumeration ctx) (default_run ctx h ne)))
      (default_step ctx 15 h ne (omega arith) (omega arith))

pin_cfg-next :
    (ctx : Ctx) (step : ℕ)
    → ctx.test_number ≡ test_pin_cfg
    → test_next ctx.test_number step ≡ step_bus_reset
unfolding test_next
pin_cfg-next ctx step h = rw h

-- The pin configuration test is back at the bus reset after every seven frames.
pin_cfg_cycles :
    (ctx : Ctx) (k : ℕ)
    → ctx.test_number ≡ test_pin_cfg
    → steps_on (k * 7) ctx step_bus_reset ≡ (step_bus_reset, ctx)
pin_cfg_cycles ctx zero h = refl
pin_cfg_cycles ctx (suc k) h =
    let parts : suc k * 7 ≡ 7 + k * 7 = omega arith in
    rw parts
      (rw (steps_on-add 7 (k * 7) ctx step_bus_reset) (rw (round ctx h) (pin_cfg_cycles ctx k h)))
  where
    round :
        (ctx : Ctx)
        → ctx.test_number ≡ test_pin_cfg
        → steps_on 7 ctx step_bus_reset ≡ (step_bus_reset, ctx)
    round ctx h = unfold usbdpi_test_seq_next in rw (pin_cfg-next ctx step_get_test_config h)
