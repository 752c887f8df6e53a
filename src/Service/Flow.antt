-- ===== src/Service/Flow.antt =====
-- usbdpi_stream.c: what a call of `streams_service` does to the streams' packets.
pub mod Out
pub mod In
pub mod Packet
pub mod Reply
use ciexpert_usbdev.Base.{
  ℕ, ◌≡◌, refl, ◌∙◌, sym, subst, ap, Bool, true, false, Option, none, some, List, [], ◌∷◌, ◌++◌,
  get_elem?, set, if◌then◌else◌,
}
use ciexpert_usbdev.Context.{Ctx}
use ciexpert_usbdev.Service.Chains.{received}
use ciexpert_usbdev.Service.Owned.{Owns, Owns-pool}
use ciexpert_usbdev.Service.Effects.{SameLists}
use ciexpert_usbdev.Service.Calls.{held, Streamed}

-- Every descriptor of the pool is free, is the one that `sending` names or the one that `recving`
-- names, or is a received packet of one stream, and is only one of these. `qs[k]` are the received
-- packets of the stream `k`, the oldest first. What comes in has no link yet.
pub record IsOwned (c : Ctx) (qs : List (List ℕ)) : Type 0 where
  pub owns : Streamed c c.recving (held c.sending) (held c.recving) qs

-- A step of the queues: nothing, the oldest packet of one leaves, a packet joins the end of one, or
-- one is emptied.
pub data QueueStep (qs : List (List ℕ)) : List (List ℕ) → Type 0 where
  keeps : QueueStep qs qs
  takes :
      (k p : ℕ) (rest : List ℕ) → get_elem? qs k ≡ some (p ∷ rest) → QueueStep qs (set qs k rest)
  adds : (k p : ℕ) (q : List ℕ) → get_elem? qs k ≡ some q → QueueStep qs (set qs k (q ++ (p ∷ [])))
  empties : (k : ℕ) → QueueStep qs (set qs k [])

pub record Continues (qs : List (List ℕ)) (d : Ctx) : Type 0 where
  pub queues_after : List (List ℕ)
  pub step : QueueStep qs queues_after
  pub owned : IsOwned d queues_after

pub settled :
    {d : Ctx} {o : Option ℕ} {hand : List ℕ} {qs : List (List ℕ)}
    → d.recving ≡ o
    → held d.sending ≡ hand
    → Streamed d o hand (held o) qs
    → IsOwned d qs
settled {d} {o} {hand} {qs} e f h = record {
  owns =
      subst (λ (q : Option ℕ). Streamed d q (held d.sending) (held q) qs) (sym e)
        (subst (λ (l : List ℕ). Streamed d o l (held o) qs) (sym f) h);
}

pub IsOwned-SameLists :
    {c d : Ctx} {qs : List (List ℕ)} → SameLists c d → IsOwned c qs → IsOwned d qs
IsOwned-SameLists {c} {d} {qs} s h = settled s.recving (ap held s.sending) (
    subst (λ (l : List (Option ℕ)). Owns d (c.recving ∷ l) (held c.sending) (held c.recving ∷ qs))
      (sym s.lists) (Owns-pool s.pool s.free h.owns))

pub goes_on : {d : Ctx} {qs : List (List ℕ)} → IsOwned d qs → Continues qs d
goes_on {qs} h = record { queues_after = qs; step = keeps; owned = h }

pub still : {c d : Ctx} {qs : List (List ℕ)} → SameLists c d → IsOwned c qs → Continues qs d
still s h = goes_on (IsOwned-SameLists s h)

pub Continues-SameLists :
    {c d : Ctx} {qs : List (List ℕ)} → SameLists c d → Continues qs c → Continues qs d
Continues-SameLists s h = record {
  queues_after = h.queues_after;
  step = h.step;
  owned = IsOwned-SameLists s h.owned;
}
