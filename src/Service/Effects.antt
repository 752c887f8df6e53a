-- ===== src/Service/Effects.antt =====
-- What the functions that `streams_service` calls do to the pool and to the streams' lists.
use ciexpert_usbdev.Base.{
  ℕ, ◌+◌, ◌≡◌, refl, ◌∙◌, Bool, true, false, Option, some, List, [], ◌∷◌, length, get_elem?, Always,
  always_map, always_some, always_if, always_case, after, after_known, after_assert, ap, ◌==◌, ◌&&◌,
  ◌||◌, not, ◌-◌, u8, ◌>>>◌, u16, drop, ltb, leb, sub32, if◌then◌else◌,
}
use ciexpert_usbdev.Usb.{
  BusState, HostState, max_data, no_data_stage, pid_data0, pid_data1, type_isochronous,
}
use ciexpert_usbdev.Utils.{get_le16, get_le32}
use ciexpert_usbdev.Transfer.{
  Transfer, read, write, room, data_stage, transfer_data_start, transfer_data_end,
  transfer_data_field, transfer_data_pid, transfer_length, slice,
}
use ciexpert_usbdev.Crc.{crc16}
use ciexpert_usbdev.Context.{
  Ctx, Stream, may_send, on_transfer, start_sending, transfer_send, transfer_status,
}
use ciexpert_usbdev.Context.Send.{stored}
use ciexpert_usbdev.Streams.Packets.{
  set_stream, check_bytes, check_content, stream_data_check, accept_signature, stream_sig_check,
  sizeof_stream_signature, signed_length, stream_signature_head, stream_signature_tail,
}
use ciexpert_usbdev.Service.Chains.{received, received-set_same}

-- The pool, what is sent and received, and the streams' lists stay.
pub record SameLists (c d : Ctx) : Type 0 where
  pub pool : d.transfer_pool ≡ c.transfer_pool
  pub free : d.free ≡ c.free
  pub sending : d.sending ≡ c.sending
  pub recving : d.recving ≡ c.recving
  pub lists : received d.stream ≡ received c.stream

pub SameLists-refl : (c : Ctx) → SameLists c c
SameLists-refl c = record { pool = refl; free = refl; sending = refl; recving = refl; lists = refl }

pub SameLists-trans : {c d e : Ctx} → SameLists c d → SameLists d e → SameLists c e
SameLists-trans a b = record {
  pool = b.pool ∙ a.pool;
  free = b.free ∙ a.free;
  sending = b.sending ∙ a.sending;
  recving = b.recving ∙ a.recving;
  lists = b.lists ∙ a.lists;
}

-- States, times, turns and toggles do not matter.
pub relabelled :
    (c : Ctx) (b : BusState) (h : HostState) (w l i o : ℕ) (e : List ℕ)
    → SameLists c (record c {
      bus_state = b;
      host_st = h;
      wait = w;
      lastrxpid = l;
      stream_in = i;
      stream_out = o;
      ep_out = e;
    })
relabelled c b h w l i o e = record {
  pool = refl;
  free = refl;
  sending = refl;
  recving = refl;
  lists = refl;
}

-- A stream changes, but not its list; so may the toggles of the IN endpoints.
pub SameLists-set_stream :
    (c : Ctx) (ep_in : List ℕ) (k : ℕ) (s t : Stream)
    → get_elem? c.stream k ≡ some s
    → t.received ≡ s.received
    → SameLists c (set_stream (record c { ep_in = ep_in }) k t)
SameLists-set_stream c ep_in k s t e f = record {
  pool = refl;
  free = refl;
  sending = refl;
  recving = refl;
  lists = received-set_same c.stream k s t e f;
}

-- What `on_transfer` does to the descriptor at `p`.
pub record Applied (c : Ctx) (p : ℕ) (f : Transfer → Option Transfer) (d : Ctx) : Type 0 where
  pub before : Transfer
  pub after_it : Transfer
  pub found : get_elem? c.transfer_pool p ≡ some before
  pub maps : f before ≡ some after_it
  pub stores : d ≡ stored c p after_it

pub on_transfer-Applied :
    (c : Ctx) (p : ℕ) (f : Transfer → Option Transfer)
    → Always (on_transfer c (some p) f) (λ (d : Ctx). Applied c p f d)
unfolding on_transfer
on_transfer-Applied c p f = after (get_elem? c.transfer_pool p) λ t e.
    after (f t)
      λ u g. always_some (record { before = t; after_it = u; found = e; maps = g; stores = refl })

pub on_transfer_stores :
    (c : Ctx) (p : ℕ) (f : Transfer → Option Transfer)
    → Always (on_transfer c (some p) f) (λ (d : Ctx). (t : Transfer) × (d ≡ stored c p t))
on_transfer_stores c p f = always_map (on_transfer-Applied c p f) λ d a. (a.after_it, a.stores)

pub transfer_data_start_keeps_next :
    (t : Transfer) (pid est_size : ℕ)
    → Always (transfer_data_start t pid est_size) (λ (a : ℕ × Transfer). a.1.next ≡ t.next)
unfolding transfer_data_start
transfer_data_start_keeps_next t pid est_size =
    after_assert (pid == pid_data0 || pid == pid_data1) λ _.
      after_assert (leb est_size (room 1 t.num_bytes))
        λ _. after (write t.data_bytes t.num_bytes (pid ∷ [])) λ bytes _. always_some refl

transfer_data_end_keeps_next :
    (t : Transfer) (dp : ℕ) → Always (transfer_data_end t dp) (λ (u : Transfer). u.next ≡ t.next)
unfolding transfer_data_end
transfer_data_end_keeps_next t dp = after_assert (not (t.data_start == no_data_stage)) λ _.
    after_assert (ltb dp (max_data - 2)) λ _.
      let crc = crc16 (slice t.data_bytes (t.data_start + 1) (dp - (t.data_start + 1))) in
      after (write t.data_bytes dp (u8 crc ∷ u8 (crc >>> 8) ∷ [])) λ bytes _. always_some refl

-- Building a data stage leaves the link.
pub data_stage_keeps_next :
    (t : Transfer) (pid est_size : ℕ) (field : List ℕ)
    → Always (data_stage t pid est_size field) (λ (u : Transfer). u.next ≡ t.next)
unfolding data_stage
data_stage_keeps_next t pid est_size field =
    after_known (transfer_data_start_keeps_next t pid est_size) λ (dp, u) same.
      after (write u.data_bytes dp field) λ bytes _.
        always_map
          (transfer_data_end_keeps_next (record u { data_bytes = bytes }) (dp + length field))
          λ v kept. kept ∙ same

pub transfer_send_starts :
    (c : Ctx) (p : ℕ) → Always (transfer_send c (some p)) (λ (d : Ctx). d ≡ start_sending c p)
unfolding transfer_send
transfer_send_starts c p = after (get_elem? c.transfer_pool p) λ t _.
    after_assert (ltb 0 t.num_bytes && leb t.num_bytes max_data)
      λ _. after_assert (may_send c.sending p) λ _. always_some refl

pub transfer_status_starts :
    (c : Ctx) (p pid : ℕ)
    → Always
        (transfer_status c (some p) pid)
        (λ (d : Ctx). (t : Transfer) × (d ≡ start_sending (stored c p t) p))
unfolding transfer_status
transfer_status_starts c p pid =
    after_known (on_transfer_stores c p _)
      λ d (t, e). after_assert _ λ _. always_some (t, ap (λ (b : Ctx). start_sending b p) e)

check_content-SameLists :
    (c : Ctx) (k : ℕ) (s : Stream) (rx : Transfer) (idx num_bytes offset : ℕ) (accept : Bool)
    → get_elem? c.stream k ≡ some s
    → Always
        (check_content c k s rx idx num_bytes offset accept)
        (λ (r : Bool × Ctx). SameLists c r.1)
unfolding check_content
check_content-SameLists c k s rx idx num_bytes offset accept found =
    after (get_elem? c.ep_in s.ep_in) λ pid _. after (get_elem? rx.data_bytes 0) λ first _.
      always_if s.checking
        (λ _. after (read rx.data_bytes (idx + offset) (sub32 num_bytes offset)) λ field _.
          always_some (
            update (first == pid && accept) (first == pid && accept && _) _
              (record s { tst_lfsr = (check_bytes s.tst_lfsr field).1 }) found refl))
        (λ _. always_some (toggle (first == pid && accept) _))
  where
    toggle : (b : Bool) (e : List ℕ) → SameLists c (if b then record c { ep_in = e } else c)
    toggle true e = record {
      pool = refl;
      free = refl;
      sending = refl;
      recving = refl;
      lists = refl;
    }
    toggle false e = SameLists-refl c

    update :
        (a b : Bool) (e : List ℕ) (t : Stream)
        → get_elem? c.stream k ≡ some s
        → t.received ≡ s.received
        → let d : Ctx = if a then record c { ep_in = e } else c in
          SameLists c (if b then set_stream d k t else d)
    update a false e t found same = toggle a e
    update true true e t found same = SameLists-set_stream c e k s t found same
    update false true e t found same = SameLists-set_stream c c.ep_in k s t found same

-- The checks of a packet leave the pool and the lists.
pub stream_data_check-SameLists :
    (c : Ctx) (k rx_at offset : ℕ) (accept : Bool)
    → Always (stream_data_check c k rx_at offset accept) (λ (r : Bool × Ctx). SameLists c r.1)
unfolding stream_data_check
stream_data_check-SameLists c k rx_at offset accept = after (get_elem? c.stream k) λ s found.
    after (get_elem? c.transfer_pool rx_at) λ rx _.
      always_if (leb max_data rx.num_bytes || ltb rx.num_bytes (rx.data_start + 1 + 1 + offset))
        (λ _. always_some (SameLists-refl c))
        (λ _. after (read rx.data_bytes (rx.data_start + 1 + sub32 rx.num_bytes 3) 2) λ check _.
          after (get_le16 check) λ crc _.
            always_if
              (crc == u16 (crc16 (slice rx.data_bytes (rx.data_start + 1) (sub32 rx.num_bytes 3))))
              (λ _. check_content-SameLists c k s rx _ _ offset accept found)
              (λ _. always_some (SameLists-refl c)))

accept_signature-SameLists :
    (c : Ctx) (k : ℕ) (s : Stream) (rx : Transfer) (seq lfsr : ℕ)
    → get_elem? c.stream k ≡ some s
    → Always (accept_signature c k s rx seq lfsr) (λ (r : Bool × Ctx). SameLists c r.1)
unfolding accept_signature
accept_signature-SameLists c k s rx seq lfsr found =
    always_if (s.xfr_type == type_isochronous)
      (λ _.
        always_if (ltb seq s.tst_seq) (λ _. always_some (SameLists-refl c))
          (λ _. always_some (SameLists-set_stream c _ k s _ found refl)))
      (λ _.
        always_if (seq == s.tst_seq)
          (λ _.
            after (transfer_data_pid rx)
              λ pid _. always_some (SameLists-set_stream c _ k s _ found refl))
          (λ _. always_some (SameLists-refl c)))

pub stream_sig_check-SameLists :
    (c : Ctx) (k rx_at : ℕ)
    → Always (stream_sig_check c k rx_at) (λ (r : Bool × Ctx). SameLists c r.1)
unfolding stream_sig_check
stream_sig_check-SameLists c k rx_at = after (get_elem? c.stream k) λ s found.
    after (get_elem? c.transfer_pool rx_at) λ rx _.
      always_if (signed_length s (transfer_length rx))
        (λ _.
          always_case (transfer_data_field rx) (λ _. always_some (SameLists-refl c))
            λ at _. after (read rx.data_bytes at sizeof_stream_signature) λ sig _.
              after (get_le32 (drop 8 sig)) λ num_bytes _. after (get_le32 sig) λ head _.
                after (get_le32 (drop 12 sig)) λ tail _.
                  always_if
                    (head == stream_signature_head
                      && tail == stream_signature_tail
                      && ltb 0 num_bytes
                      && ltb num_bytes 0x10000000)
                    (λ _. after (get_le16 (drop 6 sig)) λ seq _.
                      after (get_elem? sig 4)
                        λ lfsr _. accept_signature-SameLists c k s rx seq lfsr found)
                    (λ _. always_some (SameLists-refl c)))
        (λ _. always_some (SameLists-refl c))
