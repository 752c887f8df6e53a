-- ===== src/Service/Calls.antt =====
-- Who holds which descriptor after the functions that `streams_service` calls.
use mathlib.Core.List.{mem-cons_self}
use ciexpert_usbdev.Base.{
  ℕ, ◌≡◌, refl, ◌∙◌, sym, subst, Option, none, some, List, [], ◌∷◌, ◌++◌, get_elem?, set, Always,
  always_map, ap, always_some, always_of, always_case, after, after_known, Option-cases, ◌>>=◌, inl,
  inr, sub32, not, ◌==◌, after_assert,
}
use ciexpert_usbdev.Usb.{pid_out, data_toggle_advance}
use ciexpert_usbdev.Transfer.{
  Transfer, transfer_init, transfer_token, token_and_data, data_stage, transfer_data_field,
  transfer_length,
}
use ciexpert_usbdev.Context.{
  Ctx, Stream, on_transfer, start_sending, transfer_send, transfer_release, transfer_alloc,
}
use ciexpert_usbdev.Context.Send.{stored, stored-lookup}
use ciexpert_usbdev.Streams.Packets.{
  set_stream, reply_field, stream_data_process, stream_data_gen, generate,
}
use ciexpert_usbdev.Frame.{ensure_sending}
use ciexpert_usbdev.Control.{send_token}
use ciexpert_usbdev.Service.{release_sending}
use ciexpert_usbdev.Service.Chains.{received, received-set_same}
use ciexpert_usbdev.Service.Owned.{
  Owns, Owns-pool, Owns-stored, Allocated, release_runs, alloc-Answers,
}
use ciexpert_usbdev.Service.Effects.{
  Applied, on_transfer-Applied, on_transfer_stores, data_stage_keeps_next, transfer_send_starts,
}

abbrev pub held : Option ℕ → List ℕ
held none = []
held (some p) = p ∷ []

-- The descriptors of `hand` are held singly, those of `r` are the list from `o`, and those of
-- `qs[k]` are the received packets of the stream `k`.
abbrev pub Streamed : Ctx → Option ℕ → List ℕ → List ℕ → List (List ℕ) → Type 0
Streamed c o hand r qs = Owns c (o ∷ received c.stream) hand (r ∷ qs)

-- The two pointers of the context stay.
abbrev pub SamePointers : Ctx → Ctx → Type 0
SamePointers c d = (d.sending ≡ c.sending) × (d.recving ≡ c.recving)

-- A descriptor from `transfer_alloc` is in a hand; NULL changes nothing.
pub record Offered (c : Ctx) (o : Option ℕ) (r hand : List ℕ) (qs : List (List ℕ)) (tr : Option ℕ)
    (d : Ctx) : Type 0 where
  pub refused : tr ≡ none → d ≡ c
  pub given : (p : ℕ) → tr ≡ some p → Allocated c (o ∷ received c.stream) hand (r ∷ qs) p d

release_sending_step :
    (c d : Ctx) (p : ℕ)
    → c.sending ≡ some p
    → transfer_release c p ≡ some d
    → release_sending c ≡ some (record d { sending = none })
unfolding release_sending
release_sending_step c d p e runs =
    subst
      (λ (q : Option ℕ).
        (elim q [
          | none ↦ some c
          | some i ↦ (do a ← transfer_release c i; some (record a { sending = none }))
        ])
        ≡ some (record d { sending = none }))
      (sym e) (rw runs refl)

-- A descriptor that was cleared has no link after a data stage is built in it.
unlinked :
    (d x : Ctx) (p pid len : ℕ) (field : List ℕ) (b : Transfer)
    → get_elem? d.transfer_pool p ≡ some (transfer_init b)
    → (made : Applied d p (λ (t : Transfer). data_stage t pid len field) x) → (q : ℕ) → p ≡ q
    → (t : Transfer) × (get_elem? (stored d p made.after_it).transfer_pool q ≡ some t)
      × (t.next ≡ none)
unfolding transfer_init
unlinked d x p pid len field b cleared made q same =
    let was : transfer_init b ≡ made.before = cc (cleared, made.found) in
    let kept : made.after_it.next ≡ made.before.next =
      (data_stage_keeps_next made.before pid len field).holds made.after_it made.maps in
    let none_before : made.before.next ≡ none = subst (λ (t : Transfer). t.next ≡ none) was refl in
    (
      made.after_it,
      subst (λ (i : ℕ). get_elem? (stored d p made.after_it).transfer_pool i ≡ some made.after_it)
          same (stored-lookup d p made.before made.after_it made.found),
      kept ∙ none_before,
    )

module _ {o : Option ℕ} {r : List ℕ} {qs : List (List ℕ)} where
  pub release_sending_runs :
      (c : Ctx)
      → Streamed c o (held c.sending) r qs
      → (d : Ctx) × (release_sending c ≡ some d)
        × Streamed d o [] r qs
        × (d.sending ≡ none)
        × (d.recving ≡ c.recving)
        × (d.stream ≡ c.stream)
        × (d.stream_out ≡ c.stream_out)
  unfolding release_sending
  release_sending_runs c h = elim (Option-cases c.sending) [
    | inl e ↦ (
      c,
      rw e refl,
      subst (λ (q : Option ℕ). Streamed c o (held q) r qs) e h,
      e,
      refl,
      refl,
      refl,
    )
    | inr (p, e) ↦
        let (d, runs, owns, beside) =
          release_runs p (subst (λ (q : Option ℕ). Streamed c o (held q) r qs) e h) in
        (
          record d { sending = none },
          release_sending_step c d p e runs,
          Owns-pool {c = d} refl refl (
              subst (λ (l : List Stream). Owns d (o ∷ received l) [] (r ∷ qs)) (sym beside.stream)
                owns),
          refl,
          beside.recving,
          beside.stream,
          beside.turn,
        )
  ]

  module _ {hand : List ℕ} where
    pub alloc_known :
        (c : Ctx)
        → Streamed c o hand r qs
        → Always (transfer_alloc c) (λ (a : Option ℕ × Ctx). Offered c o r hand qs a.0 a.1)
    alloc_known c h = elim (alloc-Answers h) [
      | inl e ↦ always_of e (record { refused = λ _. refl; given = λ p f. cc })
      | inr (p, d, e, a) ↦ always_of e (record {
        refused = λ f. cc;
        given = λ q f.
            let same : p ≡ q = cc f in
            subst (λ (i : ℕ). Allocated c (o ∷ received c.stream) hand (r ∷ qs) i d) same a;
      })
    ]

    -- Something is built in the descriptor, and the stream `k` changes, but not its list.
    built :
        (c d : Ctx) (k p : ℕ) (s t : Stream) (u : Transfer) (e : List ℕ)
        → Allocated c (o ∷ received c.stream) hand (r ∷ qs) p d
        → get_elem? c.stream k ≡ some s
        → t.received ≡ s.received
        → Streamed (set_stream (record (stored d p u) { ep_in = e }) k t) o (p ∷ hand) r qs
    built c d k p s t u e a found same =
        let lists : received (set d.stream k t) ≡ received c.stream =
          rw a.beside.stream (received-set_same c.stream k s t found same) in
        rw lists (Owns-pool refl refl (Owns-stored p u mem-cons_self a.owns))

    -- The descriptor of the reply is in a hand, beside what was there.
    pub stream_data_process-Streamed :
        (c : Ctx) (k rx_at : ℕ)
        → Streamed c o hand r qs
        → Always
            (stream_data_process c k rx_at)
            (λ (a : Option ℕ × Ctx). Streamed a.1 o (held a.0 ++ hand) r qs × SamePointers c a.1)
    unfolding stream_data_process
    stream_data_process-Streamed c k rx_at h = after (get_elem? c.stream k) λ s found.
        after (get_elem? c.transfer_pool rx_at) λ rx _.
          always_case (transfer_data_field rx) (λ _. always_some (h, (refl, refl)))
            λ sp _. after_known (alloc_known c h) λ (tr, d) offered. after tr λ p is_p.
              after_assert (not (p == rx_at)) λ _. after (get_elem? d.ep_out s.ep_out) λ pid _.
                after (reply_field s rx sp (sub32 (transfer_length rx) 3)) λ (field, last) _.
                  let owns = offered.given p is_p in
                  after_known
                    (on_transfer_stores d p (
                      token_and_data pid_out d.dev_address s.ep_out pid
                        (sub32 (transfer_length rx) 3) field))
                    λ e (u, stores). always_some (
                      rw stores (
                        built c d k p s (record s { dpi_rewind_lfsr = s.dpi_lfsr; dpi_lfsr = last })
                            u d.ep_in owns found refl,
                        (owns.beside.sending, owns.beside.recving),
                      ))

    -- A packet that is generated is in a hand, unlinked.
    pub stream_data_gen-Streamed :
        (c : Ctx) (k len : ℕ)
        → Streamed c o hand r qs
        → Always (stream_data_gen c k len) (λ (a : Option ℕ × Ctx).
          Streamed a.1 o (held a.0 ++ hand) r qs
          × SamePointers c a.1
          × ((p : ℕ)
              → a.0 ≡ some p
              → (t : Transfer) × (get_elem? a.1.transfer_pool p ≡ some t) × (t.next ≡ none)))
    unfolding stream_data_gen
    stream_data_gen-Streamed c k len h = after (get_elem? c.stream k) λ s found.
        after_known (alloc_known c h) λ (tr, d) offered.
          always_case tr
            (λ e. always_some (
              let same = sym (offered.refused e) in
              (
                subst (λ (a : Ctx). Streamed a o hand r qs) same h,
                subst (λ (a : Ctx). SamePointers c a) same (refl, refl),
                λ p f. cc,
              )))
            λ p e.
              let owns = offered.given p e in
              after (get_elem? d.ep_in s.ep_in) λ pid _.
                let (field, last) = generate len s.tst_lfsr in
                after_known (on_transfer-Applied d p (λ (t : Transfer). data_stage t pid len field))
                  λ x made. always_some (
                    rw made.stores (
                      built c d k p s (record s { tst_lfsr = last }) made.after_it
                          (set d.ep_in s.ep_in (data_toggle_advance pid)) owns found refl,
                      (owns.beside.sending, owns.beside.recving),
                      λ q f. unlinked d x p pid len field owns.before owns.cleared made q (cc f),
                    ))

  -- With `sending` at hand, or one allocated for it.
  pub ensure_sending-Streamed :
      (c : Ctx)
      → Streamed c o (held c.sending) r qs
      → Always (ensure_sending c) (λ (d : Ctx).
        (p : ℕ) × (d.sending ≡ some p) × Streamed d o (p ∷ []) r qs × (d.recving ≡ c.recving))
  unfolding ensure_sending
  ensure_sending-Streamed c h =
      always_case c.sending
        (λ e.
          after_known
            (alloc_known {hand = []} c (subst (λ (q : Option ℕ). Streamed c o (held q) r qs) e h))
            λ (tr, d) offered. after tr λ p is_p.
              let owns = offered.given p is_p in
              always_some (
                p,
                refl,
                rw owns.beside.stream (Owns-pool refl refl owns.owns),
                owns.beside.recving,
              ))
        (λ p e. always_some (p, e, subst (λ (q : Option ℕ). Streamed c o (held q) r qs) e h, refl))

pub send_token_starts :
    (c : Ctx) (p pid device endpoint : ℕ)
    → c.sending ≡ some p
    → Always
        (send_token c pid device endpoint)
        (λ (d : Ctx). (t : Transfer) × (d ≡ start_sending (stored c p t) p))
unfolding send_token
send_token_starts c p pid device endpoint e =
    subst
      (λ (q : Option ℕ).
        Always
          (on_transfer c q (λ (t : Transfer). transfer_token t pid device endpoint) >>= λ (b : Ctx).
            transfer_send b q)
          (λ (d : Ctx). (t : Transfer) × (d ≡ start_sending (stored c p t) p)))
      (sym e)
      (after_known (on_transfer_stores c p _) λ b (t, same).
        always_map (transfer_send_starts b p)
          λ d f. (t, f ∙ ap (λ (a : Ctx). start_sending a p) same))
