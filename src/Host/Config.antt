-- ===== src/Host/Config.antt =====
-- usbdpi.c and usbdpi_test.c: reading the test configuration keeps the account of the descriptors
-- while no stream holds a packet. `streams_init` forgets the lists without releasing what is on them.
use ciexpert_usbdev.Base.{
  ℕ, zero, suc, ◌+◌, ◌≡◌, refl, ◌∙◌, sym, subst, Bool, Option, none, some, List, [], ◌∷◌, ◌==◌,
  ◌||◌, get_elem?, set, has, leb, ltb, Always, always_some, always_none, always_if, always_map,
  after, after_known, after_assert, inl, inr, ◌⊎◌, All, bit_and,
}
use ciexpert_usbdev.Usb.{
  HostState, hs_startframe, hs_waitack, hs_reqdata, hs_waitdata, hs_sendack, hs_wait_pkt,
  hs_emptydata, hs_waitack2, is_bus, usb_control_data_in_data, pid_data1, max_streams, test_smoke,
  test_pin_cfg,
}
use ciexpert_usbdev.Transfer.{read, transfer_data_field}
use ciexpert_usbdev.Context.{Ctx, Stream}
use ciexpert_usbdev.Streams.{stream_init, streams_loop, streams_init}
use ciexpert_usbdev.TestSequence.{
  stream_xfr_types, streaming_test_init, is_streaming, usbdpi_test_init,
}
use ciexpert_usbdev.Control.Read.{
  parse_test_config, receive_test_config, get_test_config_at, get_test_config,
}
use ciexpert_usbdev.Service.Chains.{received, received-get_elem?, received-set_same, Queues}
use ciexpert_usbdev.Service.Effects.{SameLists, SameLists-refl}
use ciexpert_usbdev.Service.Flow.{IsOwned, IsOwned-SameLists}
use ciexpert_usbdev.Host.Account.{elsewhere, transfer_setup-IsOwned}
use ciexpert_usbdev.Host.Transfers.{
  request_data-IsOwned, acknowledge_data-IsOwned, time_out-IsOwned, wait_pkt-IsOwned,
  empty_data-IsOwned, await_status-IsOwned,
}

-- No stream holds a packet.
abbrev pub AllEmpty : List (List ℕ) → Type 0
AllEmpty qs = All (λ (q : List ℕ). q ≡ []) qs

pub empty_or_not : (qs : List (List ℕ)) → AllEmpty qs ⊎ ¬ AllEmpty qs
empty_or_not [] = inl tt
empty_or_not ([] ∷ qs) = elim (empty_or_not qs) [
  | inl e ↦ inl (refl, e)
  | inr n ↦ inr λ (_, e). n e
]
empty_or_not ((x ∷ q) ∷ qs) = inr λ (e, _). cc

-- Then every list of a stream is NULL.
abbrev pub AllNull : List (Option ℕ) → Type 0
AllNull rs = All (λ (r : Option ℕ). r ≡ none) rs

Queues-AllNull :
    (pool : _) (rs : List (Option ℕ)) (qs : List (List ℕ))
    → Queues pool rs qs
    → AllEmpty qs
    → AllNull rs
Queues-AllNull pool [] [] h e = tt
Queues-AllNull pool [] (q ∷ qs) h e = tt
Queues-AllNull pool (r ∷ rs) [] h e = absurd h
Queues-AllNull pool (r ∷ rs) (q ∷ qs) (c, h) (e, es) =
    let c' = subst (λ (l : List ℕ). Queues pool (r ∷ []) (l ∷ [])) e (c, tt) in
    (c'.0, Queues-AllNull pool rs qs h es)

pub Queues-AllEmpty :
    (pool : _) (rs : List (Option ℕ)) (qs : List (List ℕ))
    → Queues pool rs qs
    → AllNull rs
    → AllEmpty qs
Queues-AllEmpty pool rs [] h e = tt
Queues-AllEmpty pool [] (q ∷ qs) h e = absurd h
Queues-AllEmpty pool (r ∷ rs) ([] ∷ qs) (c, h) (e, es) = (refl, Queues-AllEmpty pool rs qs h es)
Queues-AllEmpty pool (r ∷ rs) ((x ∷ q) ∷ qs) ((t, at, _, _), h) (e, es) = absurd (cc (at, e))

null_at :
    (rs : List (Option ℕ)) (k : ℕ) (r : Option ℕ) → AllNull rs → get_elem? rs k ≡ some r → r ≡ none
null_at [] k r n e = cc
null_at (s ∷ rs) zero r (n, _) e = let same : s ≡ r = cc e in sym same ∙ n
null_at (s ∷ rs) (suc k) r (_, n) e = null_at rs k r n e

-- Setting up streams whose lists are NULL leaves the lists.
streams_loop_keeps :
    (left id : ℕ) (xfr_types : List ℕ) (a b c d : Bool) (streams : List Stream)
    → AllNull (received streams)
    → Always
        (streams_loop left id xfr_types a b c d streams)
        (λ (after : List Stream). received after ≡ received streams)
unfolding streams_loop stream_init
streams_loop_keeps zero id xfr_types a b c d streams n = always_some refl
streams_loop_keeps (suc left) id xfr_types a b c d streams n = after (get_elem? xfr_types id) λ x _.
    after (get_elem? streams id) λ old found.
      let null =
        null_at (received streams) id old.received n (received-get_elem? streams id old found) in
      let same : received (set streams id (stream_init id x a b c d)) ≡ received streams =
        received-set_same streams id old (stream_init id x a b c d) found (sym null) in
      always_map
        (streams_loop_keeps left (id + 1) xfr_types a b c d
          (set streams id (stream_init id x a b c d)) (subst AllNull (sym same) n))
        λ after e. e ∙ same

streams_init-SameLists :
    (ctx : Ctx) (n : ℕ) (xfr_types : List ℕ) (a b c d : Bool)
    → AllNull (received ctx.stream)
    → Always (streams_init ctx n xfr_types a b c d) (λ (r : Bool × Ctx). SameLists ctx r.1)
unfolding streams_init
streams_init-SameLists ctx n xfr_types a b c d null =
    always_if (n == 0 || ltb max_streams n) (λ _. always_some (SameLists-refl ctx))
      (λ _. after_known (streams_loop_keeps n 0 xfr_types a b c d ctx.stream null) λ s same.
        always_some
          (record { pool = refl; free = refl; sending = refl; recving = refl; lists = same }))

streaming_test_init-SameLists :
    (ctx : Ctx)
    → AllNull (received ctx.stream)
    → Always (streaming_test_init ctx) (λ (r : Bool × Ctx). SameLists ctx r.1)
unfolding streaming_test_init
streaming_test_init-SameLists ctx null = after (get_elem? ctx.test_arg 0) λ a _.
    always_if (leb (bit_and a 0xf) max_streams)
      (λ _. after (stream_xfr_types ctx (bit_and a 0xf)) λ types _.
        streams_init-SameLists ctx (bit_and a 0xf) types (has a 0x10) (has a 0x20) (has a 0x40)
          (has a 0x80) null)
      (λ _. always_some (SameLists-refl ctx))

usbdpi_test_init-SameLists :
    (ctx : Ctx) → AllNull (received ctx.stream) → Always (usbdpi_test_init ctx) (SameLists ctx)
unfolding usbdpi_test_init
usbdpi_test_init-SameLists ctx null =
    always_if (ctx.test_number == test_smoke || ctx.test_number == test_pin_cfg)
      (λ _. always_some (SameLists-refl ctx))
      (λ _.
        always_if (is_streaming ctx.test_number)
          (λ _.
            after_known (streaming_test_init-SameLists ctx null)
              λ (ok, d) same. after_assert ok λ _. always_some same)
          (λ _. always_none))

module _ {qs : List (List ℕ)} (empty : AllEmpty qs) where
  receive_test_config-IsOwned :
      (c : Ctx) → IsOwned c qs → Always (receive_test_config c) (λ (d : Ctx). IsOwned d qs)
  unfolding receive_test_config
  receive_test_config-IsOwned c h = after_assert (c.lastrxpid == pid_data1) λ _.
      after c.recving λ p _. after (get_elem? c.transfer_pool p) λ rx _.
        after (transfer_data_field rx) λ dp _. after (read rx.data_bytes dp 16) λ bytes _.
          after (parse_test_config bytes) λ (number, args) _.
            let configured : Ctx = record c { test_number = number; test_arg = args } in
            let null : AllNull (received c.stream) =
              Queues-AllNull c.transfer_pool (received c.stream) qs h.owns.queues.1 empty in
            always_map (usbdpi_test_init-SameLists configured null)
              λ d same. IsOwned-SameLists same (elsewhere refl h)

  get_test_config_at-IsOwned :
      (hs : HostState) (c : Ctx) (desc_len : ℕ)
      → IsOwned c qs
      → Always (get_test_config_at hs c desc_len) (λ (d : Ctx). IsOwned d qs)
  unfolding get_test_config_at
  get_test_config_at-IsOwned hs_startframe c desc_len h =
      transfer_setup-IsOwned c 0xc2 0x7C 0 0 desc_len h
  get_test_config_at-IsOwned hs_waitack c desc_len h = always_some (elsewhere refl h)
  get_test_config_at-IsOwned hs_reqdata c desc_len h = request_data-IsOwned c h
  get_test_config_at-IsOwned hs_waitdata c desc_len h = always_some (elsewhere refl h)
  get_test_config_at-IsOwned hs_sendack c desc_len h =
      always_if (is_bus c.bus_state usb_control_data_in_data)
        (λ _.
          after_known (receive_test_config-IsOwned c h) λ d owned. acknowledge_data-IsOwned d owned)
        (λ _. always_some (time_out-IsOwned c h))
  get_test_config_at-IsOwned hs_wait_pkt c desc_len h = always_some (wait_pkt-IsOwned c h)
  get_test_config_at-IsOwned hs_emptydata c desc_len h = empty_data-IsOwned c h
  get_test_config_at-IsOwned hs_waitack2 c desc_len h = await_status-IsOwned c h
  get_test_config_at-IsOwned _ c desc_len h = always_some h

  pub get_test_config-IsOwned :
      (c : Ctx) (desc_len : ℕ)
      → IsOwned c qs
      → Always (get_test_config c desc_len) (λ (d : Ctx). IsOwned d qs)
  unfolding get_test_config
  get_test_config-IsOwned c desc_len h =
      after c.sending λ tr _. get_test_config_at-IsOwned c.host_st c desc_len h
