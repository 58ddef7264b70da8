-- ===== src/Sync/Project.antt =====
-- `project` and `_write` of app/services/subscriptions.py: the rows that they leave.
use subscription_service.Plans.Prices.{lookup-price_id_for, price_id_for}
use subscription_service.Provider.{RemotePrice, remote_grants_access, RemoteSubscription}
use subscription_service.Models.{
  is_free, is_past_due, grants_access, Subscription, SubscriptionStatus,
}
use subscription_service.Prelude.{
  [], ◌∷◌, ◌∷◌, All, List, Bool-cases, Dict, Option, String, arith, inl, inr, is_some, none, refl,
  some, true, ℕ, ◌≡◌, ◌≢◌,
}
use subscription_service.Plans.{BillingInterval, Tier}
use subscription_service.Sync.{
  resolve_configured, belongs_to_this_service, MirroredState, project, write_state, resolve_tier,
  project_live, dunning_start,
}

-- A row that a sync may leave: the grace clock runs exactly while the row is past due, and only a
-- status that grants access carries a paid tier.
pub record IsConsistent (sub : Subscription) : Type 0 where
  pub dunning : is_some sub.past_due_since ≡ is_past_due sub.status
  pub paid : sub.tier ≢ Tier.free → grants_access sub.status ≡ true

project_paid_live :
    (remote : RemoteSubscription) (t : Option Tier × Option BillingInterval)
    → (project_live remote t).tier ≢ Tier.free
    → grants_access (project_live remote t).status ≡ true
unfolding project_live
project_paid_live remote (some tier, i) h = ground arith
project_paid_live remote (none, i) h = ground arith

project_paid :
    (prices : Dict String) (remote : Option RemoteSubscription)
    → (project prices remote).tier ≢ Tier.free
    → grants_access (project prices remote).status ≡ true
unfolding project
project_paid prices none h = absurd (h refl)
project_paid prices (some remote) h = elim (Bool-cases (is_free remote.status)) [
  | inl gone ↦ absurd (h (rw gone))
  | inr live ↦ rw live (project_paid_live remote (resolve_tier prices remote.price) (rw live at h))
]

dunning_start_iff :
    (now : ℕ) (status : SubscriptionStatus) (since : Option ℕ)
    → is_some (dunning_start now status since) ≡ is_past_due status
unfolding dunning_start
dunning_start_iff now status since = ground arith

-- Whatever row it starts from and whatever Stripe says, `_write` of a projected state leaves a
-- consistent row.
pub write_state-IsConsistent :
    (prices : Dict String) (now : ℕ) (sub : Subscription) (remote : Option RemoteSubscription)
    → IsConsistent (write_state now sub (project prices remote))
unfolding write_state
write_state-IsConsistent prices now sub remote = record {
  dunning = dunning_start_iff now (project prices remote).status sub.past_due_since;
  paid = project_paid prices remote;
}

dunning_start_again :
    (now later : ℕ) (status : SubscriptionStatus) (since : Option ℕ)
    → dunning_start later status (dunning_start now status since) ≡ dunning_start now status since
unfolding dunning_start
dunning_start_again now later status since = ground arith

-- Writing the same state again at a later time changes nothing: the grace clock does not restart.
pub write_state_again :
    (now later : ℕ) (sub : Subscription) (state : MirroredState)
    → write_state later (write_state now sub state) state ≡ write_state now sub state
unfolding write_state
write_state_again now later sub state =
    cc (dunning_start_again now later state.status sub.past_due_since)

-- a row under a sequence of timed writes
unfoldable pub write_all : List (ℕ × MirroredState) → Subscription → Subscription
write_all [] sub = sub
write_all ((now, state) ∷ writes) sub = write_all writes (write_state now sub state)

-- the clock that runs is kept by every write of a past-due state
write_all_keeps :
    (writes : List (ℕ × MirroredState)) (since : ℕ) (sub : Subscription)
    → sub.past_due_since ≡ some since
    → All (λ w. w.1.status ≡ SubscriptionStatus.past_due) writes
    → (write_all writes sub).past_due_since ≡ some since
unfolding write_all write_state dunning_start
write_all_keeps [] since sub h late = h
write_all_keeps ((now, state) ∷ writes) since sub h (now_late, late) =
    write_all_keeps writes since (write_state now sub state) (ground arith) late

-- A row that goes past due keeps the time of that first write through every further write of a
-- past-due state, so that a retried charge does not restart the grace window.
pub write_all-past_due_since :
    (first : ℕ) (state : MirroredState) (writes : List (ℕ × MirroredState)) (sub : Subscription)
    → sub.past_due_since ≡ none
    → state.status ≡ SubscriptionStatus.past_due
    → All (λ w. w.1.status ≡ SubscriptionStatus.past_due) writes
    → (write_all ((first, state) ∷ writes) sub).past_due_since ≡ some first
unfolding write_all write_state dunning_start
write_all-past_due_since first state writes sub fresh late rest =
    write_all_keeps writes first (write_state first sub state) (ground arith) rest

-- A subscription whose status grants access, on the price that checkout sells for a tier and an
-- interval, is mirrored with that tier and that interval.
pub project_purchased :
    (prices : Dict String) (tier : Tier) (interval : BillingInterval) (price : RemotePrice)
    (remote : RemoteSubscription)
    → price_id_for prices tier interval ≡ some price.id
    → remote.price ≡ some price
    → remote_grants_access remote ≡ true
    → ((project prices (some remote)).tier ≡ tier)
      × ((project prices (some remote)).billing_interval ≡ some interval)
unfolding project project_live resolve_tier resolve_configured
project_purchased prices tier interval price remote sold on live =
    let configured = lookup-price_id_for prices tier interval price.id sold in
    rw (on, configured) (ground arith)

-- A tier above free is mirrored only from a subscription whose status grants access and whose price
-- resolves to that tier, which makes it one of this service's.
pub project_owned :
    (prices : Dict String) (remote : RemoteSubscription)
    → (project prices (some remote)).tier ≢ Tier.free
    → (remote_grants_access remote ≡ true)
      × ((resolve_tier prices remote.price).0 ≡ some (project prices (some remote)).tier)
      × (belongs_to_this_service prices (some remote) ≡ true)
unfolding project project_live belongs_to_this_service
project_owned prices remote h = ground arith
