-- ===== src/Control/Send.antt =====
-- What the control transfers of usbdpi.c need in order to send, and that sending keeps it.
use ciexpert_usbdev.Base.{
  ℕ, ◌≤◌, ◌<◌, ◌≡◌, refl, sym, subst, ◌∙◌, Option, some, List, [], ◌∷◌, arith, Bool, true, ◌==◌,
  length, get_elem?, get_elem?-set_self, get_elem?-lt, All, length-overwrite, ◌>>=◌,
}
use ciexpert_usbdev.Usb.{max_data, BusState, HostState}
use ciexpert_usbdev.Transfer.{Transfer, transfer_token, token_and_data}
use ciexpert_usbdev.Transfer.Token.{IsToken, transfer_token-IsToken}
use ciexpert_usbdev.Transfer.DataStage.{IsDataPid}
use ciexpert_usbdev.Transfer.Packet.{IsTransaction, token_and_data-IsTransaction}
use ciexpert_usbdev.Context.{Ctx, start_sending, on_transfer, transfer_send, transfer_status}
use ciexpert_usbdev.Context.Send.{MaySend, stored, change_and_send, handshake, transfer_status_runs}
use ciexpert_usbdev.Control.{send_token, send_transaction}

-- A descriptor of full size is at hand, the device address is one, and every endpoint's next data
-- PID is DATA0 or DATA1.
pub record IsReady (c : Ctx) : Type 0 where
  pub at : ℕ
  pub holds : Transfer
  pub sends : c.sending ≡ some at
  pub found : get_elem? c.transfer_pool at ≡ some holds
  pub sized : length holds.data_bytes ≡ max_data
  pub addressed : c.dev_address < 128
  pub endpoints : length c.ep_out ≡ 16
  pub toggles : All IsDataPid c.ep_out

pub same_pointer : (p : ℕ) → (p == p) ≡ true
same_pointer p = ground arith

pub ready-MaySend : {c : Ctx} (r : IsReady c) → MaySend c r.at r.holds
ready-MaySend r = record {
  found = r.found;
  sized = r.sized;
  free_to_send = rw r.sends (same_pointer r.at);
}

-- The context once the descriptor `t` is on its way.
abbrev pub sending : (c : Ctx) → ℕ → Transfer → Ctx
sending c p t = start_sending (stored c p t) p

pub sending-IsReady :
    {c : Ctx} (r : IsReady c) (t : Transfer)
    → length t.data_bytes ≡ max_data
    → IsReady (sending c r.at t)
sending-IsReady {c} r t size = record {
  at = r.at;
  holds = t;
  sends = refl;
  found =
      get_elem?-set_self c.transfer_pool r.at t (get_elem?-lt c.transfer_pool r.at r.holds r.found);
  sized = size;
  addressed = r.addressed;
  endpoints = r.endpoints;
  toggles = r.toggles;
}

-- The same pointer read from `sending`.
through_sending :
    {c d e : Ctx} (r : IsReady c) (f : Transfer → Option Transfer)
    → on_transfer c (some r.at) f ≡ some d
    → transfer_send d (some r.at) ≡ some e
    → (on_transfer c c.sending f >>= λ (b : Ctx). transfer_send b c.sending) ≡ some e
through_sending {c} {d} {e} r f changes goes =
    subst (λ (q : Option ℕ). (on_transfer c q f >>= λ (b : Ctx). transfer_send b q) ≡ some e)
      (sym r.sends) (rw changes goes)

-- A token goes out.
pub send_token-IsReady :
    {c : Ctx} (r : IsReady c) (pid device endpoint : ℕ)
    → device < 128
    → endpoint < 16
    → (t : Transfer) × (send_token c pid device endpoint ≡ some (sending c r.at t))
      × IsToken pid device endpoint t
      × IsReady (sending c r.at t)
unfolding send_token
send_token-IsReady {c} r pid device endpoint dev ep =
    let (t, builds, made) = transfer_token-IsToken r.holds pid device endpoint r.sized dev ep in
    let (changes, goes, _) =
      change_and_send c r.at (λ (u : Transfer). transfer_token u pid device endpoint) r.holds t
        (ready-MaySend r) builds (omega (arith, made.three)) (omega (arith, made.three)) in
    (t, through_sending r _ changes goes, made, sending-IsReady r t made.size)

-- A token and a data packet go out.
pub send_transaction-IsReady :
    {c : Ctx} (r : IsReady c) (pid device endpoint data_pid est : ℕ) (field : List ℕ)
    → device < 128
    → endpoint < 16
    → IsDataPid data_pid
    → est ≤ 69
    → length field < 67
    → (t : Transfer) × (send_transaction c pid device endpoint data_pid est field
        ≡ some (sending c r.at t))
      × IsTransaction pid device endpoint data_pid field t
      × IsReady (sending c r.at t)
unfolding send_transaction
send_transaction-IsReady {c} r pid device endpoint data_pid est field dev ep dp e f =
    let (t, builds, made) =
      token_and_data-IsTransaction pid device endpoint data_pid est field r.holds r.sized dev ep dp
        e f in
    let (changes, goes, _) =
      change_and_send c r.at (token_and_data pid device endpoint data_pid est field) r.holds t
        (ready-MaySend r) builds (omega (arith, made.ends)) (omega (arith, made.ends)) in
    (t, through_sending r _ changes goes, made, sending-IsReady r t made.size)

-- A handshake goes out.
pub transfer_status-IsReady :
    {c : Ctx} (r : IsReady c) (pid : ℕ)
    → (transfer_status c c.sending pid ≡ some (sending c r.at (handshake r.holds pid)))
      × IsReady (sending c r.at (handshake r.holds pid))
transfer_status-IsReady {c} r pid = (
  subst (λ (q : Option ℕ). transfer_status c q pid ≡ some (sending c r.at (handshake r.holds pid)))
      (sym r.sends) (transfer_status_runs c r.at pid r.holds (ready-MaySend r)),
  sending-IsReady r (handshake r.holds pid)
      (length-overwrite r.holds.data_bytes 0 (pid ∷ []) ∙ r.sized),
)

-- The states and the times that a handler sets, and the device address, do not matter.
pub relabel :
    {c : Ctx} (r : IsReady c) (b : BusState) (h : HostState) (w a l : ℕ) (q : Bool)
    → a < 128
    → IsReady (record c {
      bus_state = b;
      host_st = h;
      wait = w;
      dev_address = a;
      lastrxpid = l;
      baudrate_set_successfully = q;
    })
relabel r b h w a l q lt = record {
  at = r.at;
  holds = r.holds;
  sends = r.sends;
  found = r.found;
  sized = r.sized;
  addressed = lt;
  endpoints = r.endpoints;
  toggles = r.toggles;
}

pub at_state :
    {c : Ctx} (r : IsReady c) (b : BusState) (h : HostState) (w : ℕ)
    → IsReady (record c { bus_state = b; host_st = h; wait = w })
at_state {c} r b h w =
    relabel r b h w c.dev_address c.lastrxpid c.baudrate_set_successfully r.addressed
