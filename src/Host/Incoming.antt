-- ===== src/Host/Incoming.antt =====
-- usbdpi.c, `usbdpi_data_callback`: what comes in keeps the account of the descriptors.
use mathlib.Core.List.{mem-cons_self}
use ciexpert_usbdev.Base.{
  ℕ, ◌≡◌, refl, ◌∙◌, sym, subst, subst₂, Bool, Option, none, some, List, [], ◌∷◌, ◌==◌, ◌||◌,
  get_elem?, Always, always_some, always_none, always_if, always_case, always_map, after,
  after_known, after_assert, ltb, length,
}
use ciexpert_usbdev.Usb.{UsbmonDataType, sync, eop, pid, byte, pid_data0, pid_data1}
use ciexpert_usbdev.Transfer.{Transfer, transfer_init, transfer_append, write, room}
use ciexpert_usbdev.Context.{Ctx, Stream, on_transfer}
use ciexpert_usbdev.Context.Send.{stored, stored-lookup}
use ciexpert_usbdev.Bus.{receiving}
use ciexpert_usbdev.Receive.{
  append_byte, receive_pid, receive, receive_buffer, usbdpi_data_callback,
}
use ciexpert_usbdev.Service.Chains.{received, joined}
use ciexpert_usbdev.Service.Owned.{Owns, Owns-pool, Owns-stored, reordered}
use ciexpert_usbdev.Service.Effects.{on_transfer-Applied, transfer_data_start_keeps_next}
use ciexpert_usbdev.Service.Calls.{held, Streamed, Offered, alloc_known}
use ciexpert_usbdev.Service.Flow.{IsOwned, settled}
use ciexpert_usbdev.Service.Flow.Packet.{taken_over}

-- A packet keeps the link that it has, or loses it.
abbrev Unlinks : Transfer → Transfer → Type 0
Unlinks t u = t.next ≡ none → u.next ≡ none

append_byte-Unlinks :
    (d : ℕ) (t : Transfer) → Always (append_byte d t) (λ (u : Transfer). Unlinks t u)
unfolding append_byte transfer_append
append_byte-Unlinks d t =
    after_known {P = λ (a : Bool × Transfer). Unlinks t a.1}
      (always_if (ltb (room 0 t.num_bytes) (length (d ∷ []))) (λ _. always_some λ e. e)
        (λ _. after (write t.data_bytes t.num_bytes (d ∷ [])) λ bytes _. always_some λ e. e))
      λ (ok, u) keeps. after_assert ok λ _. always_some keeps

receive-Unlinks :
    (type : UsbmonDataType) (d : ℕ) (t : Transfer)
    → Always (receive type d t) (λ (u : Transfer). Unlinks t u)
unfolding receive receive_pid transfer_init
receive-Unlinks sync d t = always_some λ e. refl
receive-Unlinks eop d t = always_some λ e. e
receive-Unlinks byte d t = append_byte-Unlinks d t
receive-Unlinks pid d t =
    always_if (d == pid_data0 || d == pid_data1)
      (λ _.
        after_known (transfer_data_start_keeps_next t d 0)
          λ (dp, u) same. always_some λ e. same ∙ e)
      (λ _. append_byte-Unlinks d t)

module _ {qs : List (List ℕ)} where
  -- The descriptor in hand becomes the one that `recving` names.
  into_recving :
      (c : Ctx) (p : ℕ) (t : Transfer)
      → get_elem? c.transfer_pool p ≡ some t
      → t.next ≡ none
      → Streamed c none (p ∷ held c.sending) [] qs
      → c.recving ≡ some p
      → IsOwned c qs
  into_recving c p t found unlinked h e = settled e refl (record {
    free = h.free;
    part = reordered (joined ([] ∷ qs) (held c.sending) 0 p [] refl) h.part;
    queues = ((t, refl, found, unlinked), h.queues.1);
  })

  receive_buffer-IsOwned :
      (c : Ctx) → IsOwned c qs → Always (receive_buffer c) (λ (d : Ctx). IsOwned d qs)
  unfolding receive_buffer transfer_init
  receive_buffer-IsOwned c h =
      always_case c.recving
        (λ e.
          let mine : Streamed c none (held c.sending) [] qs =
            subst (λ (o : Option ℕ). Streamed c o (held c.sending) (held o) qs) e h.owns in
          after_known (alloc_known c mine) λ (tr, d) offered. always_some (taken tr d mine offered))
        (λ p e. always_some h)
    where
      taken :
          (tr : Option ℕ) (d : Ctx)
          → Streamed c none (held c.sending) [] qs
          → Offered c none [] (held c.sending) qs tr d
          → IsOwned (record d { recving = tr }) qs
      taken none d mine offered = record {
        owns = Owns-pool refl refl (
            subst (λ (a : Ctx). Streamed a none (held a.sending) [] qs) (sym (offered.refused refl))
              mine);
      }
      taken (some p) d mine offered =
          let a = offered.given p refl in
          let owns : Streamed d none (p ∷ held d.sending) [] qs =
            subst₂
              (λ (l : List Stream) (q : Option ℕ).
                Owns d (none ∷ received l) (p ∷ held q) ([] ∷ qs))
              (sym a.beside.stream) (sym a.beside.sending) a.owns in
          into_recving (record d { recving = some p }) p (transfer_init a.before) a.cleared refl
            (Owns-pool refl refl owns) refl

  -- What comes in is written to the descriptor that `recving` names.
  receive_into :
      (c : Ctx) (p : Option ℕ) (type : UsbmonDataType) (d : ℕ)
      → IsOwned c qs
      → c.recving ≡ p
      → Always (on_transfer c p (receive type d)) (λ (a : Ctx). IsOwned a qs)
  unfolding on_transfer
  receive_into c none type d h e = always_none
  receive_into c (some p) type d h e =
      always_map (on_transfer-Applied c p (receive type d)) λ a made.
        let mine = taken_over c p qs h e in
        let same : mine.packet ≡ made.before = cc (mine.found, made.found) in
        let unlinked : made.after_it.next ≡ none =
          (receive-Unlinks type d made.before).holds made.after_it made.maps
            (subst (λ (t : Transfer). t.next ≡ none) same mine.unlinked) in
        rw made.stores (
          into_recving (stored c p made.after_it) p made.after_it
            (stored-lookup c p made.before made.after_it made.found) unlinked
            (Owns-pool refl refl (Owns-stored p made.after_it mem-cons_self mine.owns)) e)

  pub usbdpi_data_callback-IsOwned :
      (c : Ctx) (type : UsbmonDataType) (d : ℕ)
      → IsOwned c qs
      → Always (usbdpi_data_callback c type d) (λ (a : Ctx). IsOwned a qs)
  unfolding usbdpi_data_callback
  usbdpi_data_callback-IsOwned c type d h =
      always_if (receiving c.state)
        (λ _.
          after_known (receive_buffer-IsOwned c h)
            λ a owned. receive_into a a.recving type d owned refl)
        (λ _. always_some h)
