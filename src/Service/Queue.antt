-- ===== src/Service/Queue.antt =====
-- The lists of received packets as first-in first-out queues: a packet joins at the end and leaves
-- at the front, and `streams_service` discards a whole queue.
use mathlib.Core.List.{Mem, mem-cons, mem-cons_self, mem-append_right, Nodup-cons, Nodup}
use mathlib.Core.Logic.Or
use ciexpert_usbdev.Base.{
  ℕ, zero, suc, ◌<◌, ◌≡◌, refl, ◌∙◌, subst, Option, none, some, List, [], ◌∷◌, ◌++◌, arith, length,
  get_elem?, set, length-set, get_elem?-set_self, get_elem?-set_ne, get_elem?-lt, set-get_elem?,
  ◌>>=◌,
}
use ciexpert_usbdev.Transfer.{Transfer}
use ciexpert_usbdev.Context.{Ctx, Stream}
use ciexpert_usbdev.Context.Send.{stored}
use ciexpert_usbdev.Context.Pool.{Chain, Chain-set, mem-used-not-free}
use ciexpert_usbdev.Streams.Packets.{set_stream}
use ciexpert_usbdev.Service.{append_received, collect_received}
use ciexpert_usbdev.Service.Chains.{
  received, received-set, received-get_elem?, queued, Queues, Queues-get, Queues-set, Queues-update,
  joined, mem-queued, queue-Nodup, queue-le, last_of, mem-last_of,
}
use ciexpert_usbdev.Service.Owned.{Owns, reordered, in_use_le, queued-Nodup, hand-not-queued}

-- The descriptor that links to `rx`.
abbrev linked : Transfer → ℕ → Transfer
linked t rx = record t { next = some rx }

-- The walk ends at the last descriptor of the chain, and links `rx` there.
append_received_runs :
    (left : ℕ) (c : Ctx) (x rx : ℕ) (xs : List ℕ)
    → Chain c.transfer_pool (some x) (x ∷ xs)
    → length xs < left
    → (t : Transfer) × (get_elem? c.transfer_pool (last_of x xs) ≡ some t)
      × (append_received left c x rx ≡ some (stored c (last_of x xs) (linked t rx)))
unfolding append_received
append_received_runs zero c x rx xs h l = absurd (omega arith)
append_received_runs (suc left) c x rx [] (t, e, found, end) l =
    (t, found, rw (found, ◌>>=◌) (rw end refl))
append_received_runs (suc left) c x rx (y ∷ ys) (t, e, found, (u, f, here, tail)) l =
    let (v, last, runs) = append_received_runs left c y rx ys (u, refl, here, tail) (omega arith) in
    (v, last, rw (found, ◌>>=◌) (rw f runs))

-- After that the chain goes on to `rx`.
append_received-Chain :
    (pool : List Transfer) (r : Option ℕ) (x rx : ℕ) (xs : List ℕ) (t u : Transfer)
    → Nodup (x ∷ xs)
    → ¬ Mem rx (x ∷ xs)
    → Chain pool r (x ∷ xs)
    → get_elem? pool rx ≡ some u
    → u.next ≡ none
    → Chain (set pool (last_of x xs) (linked t rx)) r (x ∷ xs ++ (rx ∷ []))
append_received-Chain pool r x rx [] t u n away (v, e, found, end) f z = (
  linked t rx,
  e,
  get_elem?-set_self pool x (linked t rx) (get_elem?-lt pool x v found),
  (
    u,
    refl,
    get_elem?-set_ne pool x rx (linked t rx)
          (λ (same : x ≡ rx). away (subst (λ (i : ℕ). Mem i (x ∷ [])) same mem-cons_self))
        ∙ f,
    z,
  ),
)
append_received-Chain pool r x rx (y ∷ ys) t u n away (v, e, found, tail) f z = (
  v,
  e,
  get_elem?-set_ne pool (last_of y ys) x (linked t rx) (λ (same : last_of y ys ≡ x).
        (Nodup-cons.0 n).0 (subst (λ (i : ℕ). Mem i (y ∷ ys)) same (mem-last_of y ys)))
      ∙ found,
  append_received-Chain pool v.next y rx ys t u (Nodup-cons.0 n).1
      (λ m. away (mem-cons.1 (Or.inr m))) tail f z,
)

-- A stream that holds the packets `q`.
pub record Holds (c : Ctx) (qs : List (List ℕ)) (k : ℕ) (s : Stream) (q : List ℕ) : Type 0 where
  pub stream : get_elem? c.stream k ≡ some s
  pub queue : get_elem? qs k ≡ some q
  pub chain : Chain c.transfer_pool s.received q

-- Each stream has its queue.
pub stream-Holds :
    {c : Ctx} {o : Option ℕ} {r hand : List ℕ} {qs : List (List ℕ)} (k : ℕ) (s : Stream)
    → Owns c (o ∷ received c.stream) hand (r ∷ qs)
    → get_elem? c.stream k ≡ some s
    → (q : List ℕ) × Holds c qs k s q
stream-Holds {c} {o} {r} {hand} {qs} k s h e =
    let (q, f, chain) =
      Queues-get c.transfer_pool (o ∷ received c.stream) (r ∷ qs) (suc k) s.received h.queues
        (received-get_elem? c.stream k s e) in
    (q, record { stream = e; queue = f; chain = chain })

module _ {c : Ctx} {o : Option ℕ} {r hand : List ℕ} {qs : List (List ℕ)} where
  -- An unlinked packet in a hand joins an empty queue.
  pub join_empty :
      (k rx : ℕ) (s : Stream) (u : Transfer)
      → Holds c qs k s []
      → get_elem? c.transfer_pool rx ≡ some u
      → u.next ≡ none
      → Owns c (o ∷ received c.stream) (rx ∷ hand) (r ∷ qs)
      → Owns
          (set_stream c k (record s { received = some rx }))
          (o ∷ received (set c.stream k (record s { received = some rx })))
          hand
          (r ∷ set qs k (rx ∷ []))
  join_empty k rx s u at f z h = record {
    free = h.free;
    part = record {
      size = h.part.size;
      chain = h.part.chain;
      whole = (reordered (joined (r ∷ qs) hand (suc k) rx [] at.queue) h.part).whole;
    };
    queues = rw (received-set c.stream k (record s { received = some rx })) (
        Queues-set c.transfer_pool (o ∷ received c.stream) (r ∷ qs) (suc k) (some rx) (rx ∷ [])
          (u, refl, f, z) h.queues);
  }

  -- It joins the end of another one.
  join_end :
      (k rx x : ℕ) (xs : List ℕ) (s : Stream) (t u : Transfer)
      → Holds c qs k s (x ∷ xs)
      → get_elem? c.transfer_pool rx ≡ some u
      → u.next ≡ none
      → Owns c (o ∷ received c.stream) (rx ∷ hand) (r ∷ qs)
      → Owns
          (stored c (last_of x xs) (linked t rx))
          (o ∷ received c.stream)
          hand
          (r ∷ set qs k (x ∷ xs ++ (rx ∷ [])))
  join_end k rx x xs s t u at f z h =
      let used = rx ∷ hand ++ queued (r ∷ qs) in
      let inside : Mem (last_of x xs) (queued (r ∷ qs)) =
        mem-queued (r ∷ qs) (suc k) (last_of x xs) (x ∷ xs) at.queue (mem-last_of x xs) in
      let away : ¬ Mem rx (x ∷ xs) = λ m.
        hand-not-queued rx h mem-cons_self (mem-queued (r ∷ qs) (suc k) rx (x ∷ xs) at.queue m) in
      let longer : Chain (set c.transfer_pool (last_of x xs) (linked t rx)) s.received
          (x ∷ xs ++ (rx ∷ [])) =
        append_received-Chain c.transfer_pool s.received x rx xs t u
          (queue-Nodup (r ∷ qs) (suc k) (x ∷ xs) at.queue (queued-Nodup h)) away at.chain f z in
      let same : set (received c.stream) k s.received ≡ received c.stream =
        set-get_elem? (received c.stream) k s.received
          (received-get_elem? c.stream k s at.stream) in
      record {
        free = h.free;
        part = record {
          size = length-set c.transfer_pool (last_of x xs) (linked t rx) ∙ h.part.size;
          chain =
              Chain-set c.transfer_pool (last_of x xs) (linked t rx) c.free h.free
                (mem-used-not-free h.free used (last_of x xs) h.part
                  (mem-append_right (rx ∷ hand) inside))
                h.part.chain;
          whole = (reordered (joined (r ∷ qs) hand (suc k) rx (x ∷ xs) at.queue) h.part).whole;
        };
        queues =
            subst
              (λ (l : List (Option ℕ)).
                Queues (set c.transfer_pool (last_of x xs) (linked t rx)) (o ∷ l)
                  (r ∷ set qs k (x ∷ xs ++ (rx ∷ []))))
              same
              (Queues-update c.transfer_pool (last_of x xs) (linked t rx) (o ∷ received c.stream)
                (r ∷ qs) (suc k) s.received (x ∷ xs) (x ∷ xs ++ (rx ∷ [])) (queued-Nodup h) at.queue
                (mem-last_of x xs) longer h.queues);
      }

  -- A packet is collected at the end of its stream's queue; the walk there ends.
  pub collect_received_runs :
      (k rx : ℕ) (s : Stream) (q : List ℕ) (u : Transfer)
      → Holds c qs k s q
      → get_elem? c.transfer_pool rx ≡ some u
      → u.next ≡ none
      → Owns c (o ∷ received c.stream) (rx ∷ hand) (r ∷ qs)
      → (d : Ctx) × (collect_received c k rx ≡ some d)
        × Owns d (o ∷ received d.stream) hand (r ∷ set qs k (q ++ (rx ∷ [])))
        × (d.sending ≡ c.sending)
        × (d.recving ≡ c.recving)
  unfolding collect_received
  collect_received_runs k rx s [] u at f z h = (
    set_stream c k (record s { received = some rx }),
    rw (at.stream, ◌>>=◌) (rw at.chain refl),
    join_empty k rx s u at f z h,
    refl,
    refl,
  )
  collect_received_runs k rx s (x ∷ xs) u at f z h =
      let (v, head, _, _) = at.chain in
      let chain : Chain c.transfer_pool (some x) (x ∷ xs) =
        subst (λ (p : Option ℕ). Chain c.transfer_pool p (x ∷ xs)) head at.chain in
      let (t, found, runs) =
        append_received_runs 32 c x rx xs chain
          (omega (arith, queue-le (r ∷ qs) (suc k) (x ∷ xs) at.queue, in_use_le h)) in
      (
        stored c (last_of x xs) (linked t rx),
        rw (at.stream, ◌>>=◌) (rw head runs),
        join_end k rx x xs s t u at f z h,
        refl,
        refl,
      )
