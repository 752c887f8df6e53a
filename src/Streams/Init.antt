-- ===== src/Streams/Init.antt =====
-- usbdpi_stream.c: `streams_init` sets up every stream that the test uses.
use ciexpert_usbdev.Base.{
  ℕ, ◌+◌, ◌≤◌, ◌<◌, ◌≡◌, refl, Bool, true, false, ◌||◌, ◌⊎◌, some, List, arith, ltb, ◌==◌,
  get_elem?, length,
}
use ciexpert_usbdev.Usb.{max_streams}
use ciexpert_usbdev.Context.{Ctx, Stream}
use ciexpert_usbdev.Streams.{stream_init, streams_init}

-- What the loop leaves at each place.
pub record IsSetUp (id left : ℕ) (xfr_types : List ℕ) (retrieve checking retrying send : Bool)
    (before after : List Stream) : Type 0 where
  pub size : length after ≡ length before
  pub inside :
      (i xfr_type : ℕ)
      → id ≤ i
      → i < id + left
      → get_elem? xfr_types i ≡ some xfr_type
      → get_elem? after i ≡ some (stream_init i xfr_type retrieve checking retrying send)
  pub below : (i : ℕ) → i < id → get_elem? after i ≡ get_elem? before i
  pub above : (i : ℕ) → id + left ≤ i → get_elem? after i ≡ get_elem? before i

-- Any other count is refused, and nothing changes.
pub streams_init_refuses :
    (c : Ctx) (n : ℕ) (xfr_types : List ℕ) (retrieve checking retrying send : Bool)
    → (n ≡ 0) ⊎ (max_streams < n)
    → streams_init c n xfr_types retrieve checking retrying send ≡ some (false, c)
unfolding streams_init
streams_init_refuses c n xfr_types retrieve checking retrying send h =
    let illegal : (n == 0 || ltb max_streams n) ≡ true = ground arith in rw illegal refl
