-- ===== src/Host/Diags.antt =====
-- usbdpi.c: the fields of the diagnostic words.
use ciexpert_usbdev.Base.{
  ℕ, ◌+◌, ◌*◌, ◌/◌, ◌%◌, ◌^◌, ◌≤◌, ◌<◌, ◌≡◌, refl, ◌∙◌, ap, bit_and, bit_or, some, arith, u32,
  ◌<<<◌, leb, le→leb, true,
}
use ciexpert_usbdev.Base.Bits.{bit_or_fields, bit_and_step, bit_and-fifteen, bit_and-mask7}
use ciexpert_usbdev.Usb.{DrvState, HostState, BusState, bus_code}
use ciexpert_usbdev.Host.{Host, drv_state_code, host_state_code, usbdpi_diags}
use ciexpert_usbdev.Monitor.{Monitor, usb_monitor_diags}

drv_state_code-lt : (s : DrvState) → drv_state_code s < 16
drv_state_code-lt s = ground arith

host_state_code-lt : (s : HostState) → host_state_code s < 32
host_state_code-lt s = ground arith

bus_code-lt : (s : BusState) → bus_code s < 32
bus_code-lt s = ground arith

mask5 : (a : ℕ) → bit_and a 0x1f ≡ a % 32
mask5 a = omega (arith, bit_and_step a 31, bit_and-fifteen (a / 2))

mask11 : (a : ℕ) → bit_and a 0x7ff ≡ a % 2048
mask11 a = omega (
  arith,
  bit_and_step a 2047,
  bit_and_step (a / 2) 1023,
  bit_and_step (a / 2 / 2) 511,
  bit_and_step (a / 2 / 2 / 2) 255,
  bit_and-mask7 (a / 2 / 2 / 2 / 2),
)

-- The first word holds the time, the frame and two states.
first_word :
    (t f h d : ℕ)
    → f < 2048
    → h < 32
    → d < 16
    → bit_or (t <<< 20) (bit_or (f <<< 9) (bit_or (h <<< 4) d))
      ≡ t * 1048576 + (f * 512 + (h * 16 + d))
first_word t f h d fs hs ds =
    ap (λ (x : ℕ). bit_or (t <<< 20) (bit_or (f <<< 9) x)) (bit_or_fields 4 h d ds)
    ∙ ap (λ (x : ℕ). bit_or (t <<< 20) x) (bit_or_fields 9 f (h * 16 + d) (omega arith))
    ∙ bit_or_fields 20 t (f * 512 + (h * 16 + d)) (omega arith)

second_word :
    (s b t : ℕ)
    → b < 32
    → t < 1048576
    → bit_or (s <<< 25) (bit_or (b <<< 20) t) ≡ s * 33554432 + (b * 1048576 + t)
second_word s b t bs ts =
    ap (λ (x : ℕ). bit_or (s <<< 25) x) (bit_or_fields 20 b t ts)
    ∙ bit_or_fields 25 s (b * 1048576 + t) (omega arith)

-- With a monitor, a step below 128 and a time of 32 bits, `usbdpi_diags` fails no assertion, and from its words
-- every field reads back: the states of the driver and the host, the low bits of the frame, the time
-- in two parts, the step and the state of the bus. No field runs into another one.
pub usbdpi_diags_lem :
    (h : Host) (m : Monitor)
    → h.mon ≡ some m
    → h.ctx.step ≤ 0x7f
    → h.ctx.tick_bits < 2 ^ 32
    → (w₀ w₁ : ℕ) × (usbdpi_diags h ≡ some (w₀, w₁, usb_monitor_diags m))
      × (w₀ % 16 ≡ drv_state_code h.ctx.state)
      × (w₀ / 16 % 32 ≡ host_state_code h.ctx.host_st)
      × (w₀ / 512 % 2048 ≡ h.ctx.frame % 2048)
      × (w₀ / 1048576 ≡ h.ctx.tick_bits % 4096)
      × (w₁ / 33554432 ≡ h.ctx.step)
      × (w₁ / 1048576 % 32 ≡ bus_code h.ctx.bus_state)
      × (w₁ % 1048576 ≡ h.ctx.tick_bits / 4096)
unfolding usbdpi_diags
usbdpi_diags_lem h m monitored step time =
    let t = h.ctx.tick_bits in
    let f = h.ctx.frame % 2048 in
    let s = host_state_code h.ctx.host_st in
    let d = drv_state_code h.ctx.state in
    let b = bus_code h.ctx.bus_state in
    let hs = host_state_code-lt h.ctx.host_st in
    let ds = drv_state_code-lt h.ctx.state in
    let bs = bus_code-lt h.ctx.bus_state in
    let fits : leb h.ctx.step 0x7f ≡ true = le→leb h.ctx.step 0x7f step in
    let host : bit_and s 0x1f ≡ s = omega (arith, mask5 s, hs) in
    let drv : bit_and d 0xf ≡ d = omega (arith, bit_and-fifteen d, ds) in
    let first = first_word t f s d (omega arith) hs ds in
    let second = second_word h.ctx.step b (t / 4096) bs (omega arith) in
    (
      u32 (t * 1048576 + (f * 512 + (s * 16 + d))),
      u32 (h.ctx.step * 33554432 + (b * 1048576 + t / 4096)),
      rw (fits, monitored, host, drv, mask11 h.ctx.frame, first, second) refl,
      omega (arith, hs, ds),
      omega (arith, hs, ds),
      omega (arith, hs, ds),
      omega (arith, hs, ds),
      omega (arith, bs),
      omega (arith, bs),
      omega (arith, bs),
    )
