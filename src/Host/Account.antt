-- ===== src/Host/Account.antt =====
-- usbdpi.c: what the host's transfers do to the account of the descriptors. They build packets in the
-- descriptor that `sending` names, and send it.
use mathlib.Core.List.{mem-cons_self}
use ciexpert_usbdev.Base.{
  ℕ, ◌≡◌, refl, sym, subst, ap, Option, none, some, List, ◌==◌, get_elem?, Always, always_some,
  always_none, always_if, always_map, after, after_known, after_assert,
}
use ciexpert_usbdev.Usb.{pid_ack}
use ciexpert_usbdev.Transfer.{Transfer}
use ciexpert_usbdev.Context.{
  Ctx, Stream, on_transfer, may_send, transfer_send, transfer_status, transfer_setup,
  transfer_frame_start,
}
use ciexpert_usbdev.Context.Send.{stored}
use ciexpert_usbdev.Control.{send_token, send_transaction, toggle_out}
use ciexpert_usbdev.Control.Serial.{toggle_if_acked}
use ciexpert_usbdev.Frame.{ensure_sending}
use ciexpert_usbdev.Service.Chains.{received}
use ciexpert_usbdev.Service.Owned.{Owns-pool, Owns-stored}
use ciexpert_usbdev.Service.Effects.{on_transfer_stores, transfer_send_starts}
use ciexpert_usbdev.Service.Calls.{held, Streamed, ensure_sending-Streamed}
use ciexpert_usbdev.Service.Flow.{IsOwned, settled, IsOwned-SameLists}

-- What the account is about.
abbrev pub Shared : Type 0
Shared = List Transfer × Option ℕ × Option ℕ × Option ℕ × List Stream

abbrev pub shared : Ctx → Shared
shared c = (c.transfer_pool, c.free, c.sending, c.recving, c.stream)

module _ {qs : List (List ℕ)} where
  pub elsewhere : {c d : Ctx} → shared c ≡ shared d → IsOwned c qs → IsOwned d qs
  elsewhere {c} {d} e h =
      let back = sym e in
      IsOwned-SameLists
        (record {
          pool = ap (λ (s : Shared). s.0) back;
          free = ap (λ (s : Shared). s.1) back;
          sending = ap (λ (s : Shared). s.2) back;
          recving = ap (λ (s : Shared). s.3) back;
          lists = ap (λ (s : Shared). received s.4) back;
        })
        h

  -- A packet is built in the descriptor that `sending` names.
  on_sending :
      (c : Ctx) (p : Option ℕ) (f : Transfer → Option Transfer)
      → IsOwned c qs
      → c.sending ≡ p
      → Always (on_transfer c p f) (λ (d : Ctx). IsOwned d qs × (d.sending ≡ p))
  unfolding on_transfer
  on_sending c none f h e = always_none
  on_sending c (some p) f h e = always_map (on_transfer_stores c p f) λ d (t, same). rw same (
    record {
      owns =
          subst (λ (q : Option ℕ). Streamed (stored c p t) c.recving (held q) (held c.recving) qs)
            (sym e)
            (Owns-pool refl refl (
              Owns-stored p t mem-cons_self (
                subst (λ (q : Option ℕ). Streamed c c.recving (held q) (held c.recving) qs) e
                  h.owns)));
    },
    e,
  )

  pub transfer_send-IsOwned :
      (c : Ctx) (p : Option ℕ)
      → IsOwned c qs
      → c.sending ≡ p
      → Always (transfer_send c p) (λ (d : Ctx). IsOwned d qs × (d.sending ≡ p))
  unfolding transfer_send
  transfer_send-IsOwned c none h e = always_none
  transfer_send-IsOwned c (some p) h e = always_map (transfer_send_starts c p) λ d same. rw same (
    record {
      owns =
          Owns-pool refl refl
            (subst (λ (q : Option ℕ). Streamed c c.recving (held q) (held c.recving) qs) e h.owns);
    },
    refl,
  )

  pub send_token-IsOwned :
      (c : Ctx) (pid device endpoint : ℕ)
      → IsOwned c qs
      → Always (send_token c pid device endpoint) (λ (d : Ctx). IsOwned d qs)
  unfolding send_token
  send_token-IsOwned c pid device endpoint h =
      after_known (on_sending c c.sending _ h refl)
        λ d (owned, e). always_map (transfer_send-IsOwned d c.sending owned e) λ b (done, _). done

  pub send_transaction-IsOwned :
      (c : Ctx) (pid device endpoint data_pid est_size : ℕ) (field : List ℕ)
      → IsOwned c qs
      → Always
          (send_transaction c pid device endpoint data_pid est_size field)
          (λ (d : Ctx). IsOwned d qs)
  unfolding send_transaction
  send_transaction-IsOwned c pid device endpoint data_pid est_size field h =
      after_known (on_sending c c.sending _ h refl)
        λ d (owned, e). always_map (transfer_send-IsOwned d c.sending owned e) λ b (done, _). done

  pub transfer_setup-IsOwned :
      (c : Ctx) (bm_request_type b_request w_value w_index w_length : ℕ)
      → IsOwned c qs
      → Always
          (transfer_setup c c.sending bm_request_type b_request w_value w_index w_length)
          (λ (d : Ctx). IsOwned d qs)
  unfolding transfer_setup
  transfer_setup-IsOwned c bm_request_type b_request w_value w_index w_length h =
      after_known (on_sending c c.sending _ h refl) λ d (owned, e).
        after_known (transfer_send-IsOwned d c.sending owned e)
          λ b (done, _). always_some (elsewhere refl done)

  pub transfer_frame_start-IsOwned :
      (c : Ctx) (frame : ℕ)
      → IsOwned c qs
      → Always (transfer_frame_start c c.sending frame) (λ (d : Ctx). IsOwned d qs)
  unfolding transfer_frame_start
  transfer_frame_start-IsOwned c frame h =
      after_known (on_sending c c.sending _ h refl)
        λ d (owned, e). always_map (transfer_send-IsOwned d c.sending owned e) λ b (done, _). done

  -- A handshake; the pointer stays, so that the packet may be sent once more.
  pub transfer_status-IsOwned :
      (c : Ctx) (p : Option ℕ) (pid : ℕ)
      → IsOwned c qs
      → c.sending ≡ p
      → Always (transfer_status c p pid) (λ (d : Ctx). IsOwned d qs × (d.sending ≡ p))
  unfolding transfer_status
  transfer_status-IsOwned c none pid h e = always_none
  transfer_status-IsOwned c (some p) pid h e =
      after_known (on_sending c (some p) _ h e) λ d (owned, f).
        after_assert (may_send d.sending p) λ _. always_some (
          record {
            owns = Owns-pool refl refl (
                subst (λ (q : Option ℕ). Streamed d d.recving (held q) (held d.recving) qs) f
                  owned.owns);
          },
          refl,
        )

  pub toggle_out-IsOwned :
      (c : Ctx) (endpoint : ℕ)
      → IsOwned c qs
      → Always (toggle_out c endpoint) (λ (d : Ctx). IsOwned d qs)
  unfolding toggle_out
  toggle_out-IsOwned c endpoint h =
      after (get_elem? c.ep_out endpoint) λ pid _. always_some (elsewhere refl h)

  pub toggle_if_acked-IsOwned :
      (c : Ctx) (endpoint : ℕ)
      → IsOwned c qs
      → Always (toggle_if_acked c endpoint) (λ (d : Ctx). IsOwned d qs)
  unfolding toggle_if_acked
  toggle_if_acked-IsOwned c endpoint h =
      always_if (c.lastrxpid == pid_ack) (λ _. toggle_out-IsOwned c endpoint h) (λ _. always_some h)

  pub ensure_sending-IsOwned :
      (c : Ctx) → IsOwned c qs → Always (ensure_sending c) (λ (d : Ctx). IsOwned d qs)
  ensure_sending-IsOwned c h =
      always_map (ensure_sending-Streamed c h.owns)
        λ d (p, e, owns, gets). settled gets (ap held e) owns
