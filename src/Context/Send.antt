-- ===== src/Context/Send.antt =====
-- Sending: what usb_transfer.c leaves in the context for the transmitter.
use ciexpert_usbdev.Base.{
  ℕ, ◌+◌, ◌^◌, ◌≤◌, ◌<◌, ◌≡◌, refl, Option, some, [], ◌∷◌, arith, inl, length, take, drop,
  get_elem?, set, get_elem?-set_self, get_elem?-lt, u32, true, take-drop-overwrite, overwrite,
  ◌>>=◌,
}
use ciexpert_usbdev.Usb.{
  max_data, no_data_stage, st_sync, hs_waitack, usb_control_setup, interval_setup_stage, pid_setup,
  pid_data0,
}
use ciexpert_usbdev.Utils.{get_le16, set_le16}
use ciexpert_usbdev.Utils.Laws.{get_le16-set_le16}
use ciexpert_usbdev.Transfer.{Transfer, token_and_data}
use ciexpert_usbdev.Transfer.Packet.{IsTransaction, token_and_data-IsTransaction}
use ciexpert_usbdev.Context.{
  Ctx, on_transfer, start_sending, may_send, transfer_send, transfer_status, transfer_setup,
  setup_field,
}

-- The pointer names a descriptor of the pool with a whole array, and nothing else is being sent.
pub record MaySend (c : Ctx) (p : ℕ) (t : Transfer) : Type 0 where
  pub found : get_elem? c.transfer_pool p ≡ some t
  pub sized : length t.data_bytes ≡ max_data
  pub free_to_send : may_send c.sending p ≡ true

-- The transmitter is about to send, from its first bit, the descriptor `p`, which holds `t`.
pub record IsStarted (c : Ctx) (p : ℕ) (t : Transfer) : Type 0 where
  pub holds : get_elem? c.transfer_pool p ≡ some t
  pub sends : c.sending ≡ some p
  pub syncs : c.state ≡ st_sync
  pub first_byte : c.byte ≡ 0
  pub first_bit : c.bit ≡ 1

abbrev pub stored : Ctx → ℕ → Transfer → Ctx
stored c p t = record c { transfer_pool = set c.transfer_pool p t }

pub on_transfer_runs :
    (c : Ctx) (p : ℕ) (f : Transfer → Option Transfer) (t t' : Transfer)
    → get_elem? c.transfer_pool p ≡ some t
    → f t ≡ some t'
    → on_transfer c (some p) f ≡ some (stored c p t')
unfolding on_transfer
on_transfer_runs c p f t t' h e = rw (h, ◌>>=◌) (rw e)

pub stored-lookup :
    (c : Ctx) (p : ℕ) (t t' : Transfer)
    → get_elem? c.transfer_pool p ≡ some t
    → get_elem? (stored c p t').transfer_pool p ≡ some t'
stored-lookup c p t t' h =
    get_elem?-set_self c.transfer_pool p t' (get_elem?-lt c.transfer_pool p t h)

pub transfer_send_runs :
    (c : Ctx) (p : ℕ) (t : Transfer)
    → get_elem? c.transfer_pool p ≡ some t
    → 0 < t.num_bytes
    → t.num_bytes ≤ max_data
    → may_send c.sending p ≡ true
    → transfer_send c (some p) ≡ some (start_sending c p)
unfolding transfer_send
transfer_send_runs c p t h lo hi m = ground arith

-- Changing the descriptor that may be sent and sending it.
pub change_and_send :
    (c : Ctx) (p : ℕ) (f : Transfer → Option Transfer) (t t' : Transfer)
    → MaySend c p t
    → f t ≡ some t'
    → 0 < t'.num_bytes
    → t'.num_bytes ≤ max_data
    → (on_transfer c (some p) f ≡ some (stored c p t'))
      × (transfer_send (stored c p t') (some p) ≡ some (start_sending (stored c p t') p))
      × IsStarted (start_sending (stored c p t') p) p t'
change_and_send c p f t t' m e lo hi = (
  on_transfer_runs c p f t t' m.found e,
  transfer_send_runs (stored c p t') p t' (stored-lookup c p t t' m.found) lo hi m.free_to_send,
  record {
    holds = stored-lookup c p t t' m.found;
    sends = refl;
    syncs = refl;
    first_byte = refl;
    first_bit = refl;
  },
)

-- The context that `transfer_setup` leaves.
abbrev pub setup_sent : Ctx → ℕ → Transfer → Ctx
setup_sent c p t = record (start_sending (stored c p t) p) {
  bus_state = usb_control_setup;
  wait = u32 (c.tick_bits + interval_setup_stage);
  host_st = hs_waitack;
}

pub transfer_setup_runs :
    (c : Ctx) (p : ℕ) (t : Transfer) (bm_request_type b_request w_value w_index w_length : ℕ)
    → MaySend c p t
    → c.dev_address < 128
    → (t' : Transfer) × (transfer_setup c
          (some p)
          bm_request_type
          b_request
          w_value
          w_index
          w_length
        ≡ some (setup_sent c p t'))
      × IsStarted (setup_sent c p t') p t'
      × IsTransaction pid_setup c.dev_address 0 pid_data0
          (setup_field bm_request_type b_request w_value w_index w_length)
          t'
unfolding transfer_setup
transfer_setup_runs c p t bm_request_type b_request w_value w_index w_length m dev =
    let field = setup_field bm_request_type b_request w_value w_index w_length in
    let (t', builds, made) =
      token_and_data-IsTransaction pid_setup c.dev_address 0 pid_data0 8 field t m.sized dev
        (omega arith) (inl refl) (omega arith)
        (eight bm_request_type b_request w_value w_index w_length) in
    let (changes, sends, started) =
      change_and_send c p (token_and_data pid_setup c.dev_address 0 pid_data0 8 field) t t' m builds
        (omega (arith, made.ends))
        (omega (arith, made.ends, eight bm_request_type b_request w_value w_index w_length)) in
    (
      t',
      rw changes (rw sends),
      record {
        holds = started.holds;
        sends = refl;
        syncs = refl;
        first_byte = refl;
        first_bit = refl;
      },
      made,
    )
  where
    eight : (a b v i l : ℕ) → length (setup_field a b v i l) < 67
    eight a b v i l = unfold setup_field in omega arith

-- With the pointer free to be sent and a device address below 128, `transfer_setup` fails no
-- assertion. It leaves a SETUP token to endpoint zero and a DATA0 packet of the eight bytes of the
-- request, ready to be sent from the first bit, and waits for the handshake with a timeout.
pub transfer_setup_lem :
    (c : Ctx) (p : ℕ) (t : Transfer) (bm_request_type b_request w_value w_index w_length : ℕ)
    → MaySend c p t
    → c.dev_address < 128
    → (c' : Ctx) × (t' : Transfer) × (transfer_setup c
          (some p)
          bm_request_type
          b_request
          w_value
          w_index
          w_length
        ≡ some c')
      × IsStarted c' p t'
      × IsTransaction pid_setup c.dev_address 0 pid_data0
          (setup_field bm_request_type b_request w_value w_index w_length)
          t'
      × (c'.bus_state ≡ usb_control_setup)
      × (c'.host_st ≡ hs_waitack)
      × (c'.wait ≡ u32 (c.tick_bits + interval_setup_stage))
transfer_setup_lem c p t bm_request_type b_request w_value w_index w_length m dev =
    let (t', runs, started, made) =
      transfer_setup_runs c p t bm_request_type b_request w_value w_index w_length m dev in
    (setup_sent c p t', t', runs, started, made, refl, refl, refl)

-- The three 16-bit fields of a request stand in its bytes in little endian order.
pub get_le16-setup_field :
    (bm_request_type b_request w_value w_index w_length : ℕ)
    → w_value < 2 ^ 16
    → w_index < 2 ^ 16
    → w_length < 2 ^ 16
    → let f = setup_field bm_request_type b_request w_value w_index w_length in
      (get_le16 (drop 2 f) ≡ some w_value)
      × (get_le16 (drop 4 f) ≡ some w_index)
      × (get_le16 (drop 6 f) ≡ some w_length)
unfolding setup_field set_le16
get_le16-setup_field bm_request_type b_request w_value w_index w_length v i l =
    (get_le16-set_le16 w_value _ v, get_le16-set_le16 w_index _ i, get_le16-set_le16 w_length _ l)

-- The descriptor of a handshake.
abbrev pub handshake : Transfer → ℕ → Transfer
handshake t pid = record t {
  num_bytes = 1;
  data_bytes = overwrite t.data_bytes 0 (pid ∷ []);
  data_start = no_data_stage;
}

pub transfer_status_runs :
    (c : Ctx) (p pid : ℕ) (t : Transfer)
    → MaySend c p t
    → transfer_status c (some p) pid ≡ some (start_sending (stored c p (handshake t pid)) p)
unfolding transfer_status
transfer_status_runs c p pid t m = ground (arith, m.found, m.sized, m.free_to_send)

-- `transfer_status` makes the descriptor the one byte of a handshake, and sends it.
transfer_status_lem :
    (c : Ctx) (p pid : ℕ) (t : Transfer)
    → MaySend c p t
    → (c' : Ctx) × (t' : Transfer) × (transfer_status c (some p) pid ≡ some c')
      × IsStarted c' p t'
      × (t'.num_bytes ≡ 1)
      × (t'.data_start ≡ no_data_stage)
      × (take 1 t'.data_bytes ≡ pid ∷ [])
transfer_status_lem c p pid t m = (
  start_sending (stored c p (handshake t pid)) p,
  handshake t pid,
  transfer_status_runs c p pid t m,
  record {
    holds = stored-lookup c p t (handshake t pid) m.found;
    sends = refl;
    syncs = refl;
    first_byte = refl;
    first_bit = refl;
  },
  refl,
  refl,
  take-drop-overwrite t.data_bytes 0 (pid ∷ []) (omega (arith, m.sized)),
)
