-- ===== src/Webhooks.antt =====
-- app/routers/webhooks.py: deduplication, dispatch and the failure path of one delivery. The checks
-- of the signature are Stripe's, so a delivery is what `construct_event` makes of it. Metrics, log
-- lines and the text of the stored error are left out.
pub mod Keeps
pub mod Retry
pub mod Laws
use subscription_service.Sync.Mirror.{audit_row, sync_subscription, find_customer}
use subscription_service.World.Session.{
  flush_row, commit_and_invalidate, commit, record_audit, query, rollback, provider_call,
}
use subscription_service.Provider.{BillingProvider}
use subscription_service.World.{World}
use subscription_service.Effects.{http_error, err, raise, Result, ◌>>◌, ok, ◌>>=◌, pure, Exec}
use subscription_service.Settings.{Settings}
use subscription_service.Prelude.{
  present, All, Bool, Bool-cases, Dict, IsDistinct, List, Option, Option-cases, String, [], any, ap,
  append-nil, append_assoc, arith, eq_iff, eq_refl, eqb, false, find, if◌then◌else◌, inl, inr,
  insert, insert-IsDistinct, is_some, leb, length, length-append, lookup, lookup-insert,
  lookup-remove, ltb, map, max, min, none, not, opt_eq, refl, remove, select, some, some-injective,
  subst, suc, sym, true, zero, ℕ, ◌%◌, ◌&&◌, ◌*◌, ◌++◌, ◌+◌, ◌-◌, ◌/◌, ◌<◌, ◌==◌, ◌||◌, ◌∙◌, ◌∷◌,
  ◌≡◌, ◌≢◌, ◌≤◌, ◌⊎◌,
}
use subscription_service.Models.{
  Subscription, ProcessedEvent, EventStatus, processing, processed, failed,
}

-- what the handler reads of an event
pub record WebhookEvent : Type 0 where
  pub event_id : String
  pub event_type : String
  pub customer : Option String
  pub charge : Option String

-- a request: without a signature header, with one that does not verify, or an event
pub data Delivery : Type 0 where
  unsigned forged : Delivery
  signed : WebhookEvent → Delivery

pub data Reply : Type 0 where
  duplicate handled ignored : Reply

abbrev subscription_events : List String
subscription_events =
    "checkout.session.completed" ∷ "customer.subscription.created" ∷ "customer.subscription.updated"
    ∷ "customer.subscription.deleted" ∷ "customer.subscription.paused"
    ∷ "customer.subscription.resumed" ∷ "customer.subscription.pending_update_applied"
    ∷ "customer.subscription.pending_update_expired" ∷ "invoice.paid" ∷ "invoice.payment_succeeded"
    ∷ "invoice.payment_failed" ∷ "invoice.marked_uncollectible" ∷ []

-- `event_type in SUBSCRIPTION_EVENTS` and `in DISPUTE_EVENTS`
unfoldable pub is_subscription_event : String → Bool
is_subscription_event type = any (λ t. t == type) subscription_events

unfoldable pub is_dispute_event : String → Bool
is_dispute_event type = "charge.dispute.created" == type

-- `session.get(ProcessedEvent, event_id)`
unfoldable pub find_event : String → List ProcessedEvent → Option ProcessedEvent
find_event id [] = none
find_event id (e ∷ es) = if e.event_id == id then some e else find_event id es

unfoldable pub store_event : ProcessedEvent → List ProcessedEvent → List ProcessedEvent
store_event row [] = row ∷ []
store_event row (e ∷ es) = if e.event_id == row.event_id then row ∷ es else e ∷ store_event row es

module _ {R : Type 0} where
  unfoldable pub write_event : ProcessedEvent → Exec (World R) (Unit {0})
  write_event row w =
      (ok tt, record w { db = record w.db { events = store_event row w.db.events } })

  -- other workers' events become visible
  event_rivals_commit : World R → World R
  event_rivals_commit w = record w {
    db = record w.db { events = w.db.events ++ w.rival_events };
    saved = record w.saved { events = w.saved.events ++ w.rival_events };
    rival_events = [];
  }

  -- a claimed row that was there before: a processed one is not claimed again
  reclaim : ProcessedEvent → EventStatus → Exec (World R) Bool
  reclaim row processed = pure false
  reclaim row _ = do
    write_event (record row { status = processing; error = false })
    commit
    pure true

  -- the INSERT and its commit; a concurrent delivery that inserted first owns the event
  insert_event : ProcessedEvent → Exec (World R) Bool
  unfolding event_rivals_commit
  insert_event row w =
      let w' = event_rivals_commit w in
      if is_some (find_event row.event_id w'.db.events)
      then (ok false, rollback w')
      else (do write_event row; commit; pure true) w'

  claim_found : String → String → Option ProcessedEvent → Exec (World R) Bool
  unfolding reclaim insert_event
  claim_found id type (some row) = reclaim row row.status
  claim_found id type none = insert_event (record {
    event_id = id;
    event_type = type;
    status = processing;
    error = false;
    completed_at = none;
  })

  -- `_claim`
  unfoldable pub claim : String → String → Exec (World R) Bool
  unfolding claim_found
  claim id type = do found ← query (λ db. find_event id db.events); claim_found id type found

  mark_found : EventStatus → Bool → Option ProcessedEvent → Exec (World R) (Unit {0})
  mark_found status error none w = (ok tt, w)
  mark_found status error (some row) w =
      write_event (record row { status = status; error = error; completed_at = some w.now }) w

  -- `_mark`
  unfoldable pub mark : String → EventStatus → Bool → Exec (World R) (Unit {0})
  unfolding mark_found
  mark id status error = do
    found ← query (λ db. find_event id db.events)
    mark_found status error found

  -- `mark_disputed`
  dispute_row : String → Option String → Option Subscription → Exec (World R) (Option Subscription)
  dispute_row reason event none w = (ok none, w)
  dispute_row reason event (some sub) w =
      (do
        record_audit (audit_row w.now sub sub reason event)
        flush_row (record sub { disputed_at = some w.now })
        pure (some (record sub { disputed_at = some w.now })))
        w

  unfoldable pub mark_disputed : String → Option String → Exec (World R) (Option Subscription)
  unfolding dispute_row
  mark_disputed customer event = do
    found ← find_customer customer
    dispute_row "charge.dispute.created" event found

module _ {R : Type 0} (settings : Settings) (stripe : BillingProvider R) where
  -- a subscription event, by its customer
  sync_event : WebhookEvent → Option String → Exec (World R) Bool
  sync_event e none = pure false
  sync_event e (some customer) = do
    sync_subscription settings stripe e.event_type (some e.event_id) customer
    pure true

  dispute_event : WebhookEvent → Option String → Exec (World R) Bool
  dispute_event e none = pure false
  dispute_event e (some customer) = do
    mark_disputed customer (some e.event_id)
    sync_subscription settings stripe e.event_type (some e.event_id) customer
    pure true

  -- the customer of a dispute, which may be known only by its charge
  dispute_customer : Option String → Option String → Exec (World R) (Option String)
  dispute_customer (some customer) charge = pure (some customer)
  dispute_customer none none = pure none
  dispute_customer none (some charge) = provider_call (stripe.retrieve_charge charge)

  -- `_handle`
  unfoldable pub handle : WebhookEvent → Exec (World R) Bool
  unfolding sync_event dispute_event dispute_customer
  handle e =
      if is_subscription_event e.event_type
      then sync_event e (present e.customer)
      else if is_dispute_event e.event_type
      then (do
        customer ← dispute_customer (present e.customer) (present e.charge)
        dispute_event e (present customer))
      else pure false

  -- the `try` block
  unfoldable pub process : WebhookEvent → Exec (World R) Bool
  process e = do done ← handle e; mark e.event_id processed false; commit_and_invalidate; pure done

  -- the `except` block
  fail : WebhookEvent → World R → Result Reply × World R
  fail e w = (do mark e.event_id failed true; commit; raise (http_error 500)) (rollback w)

  conclude : WebhookEvent → Result Bool × World R → Result Reply × World R
  unfolding fail
  conclude e (ok done, w) = (ok (if done then handled else ignored), w)
  conclude e (err x, w) = fail e w

  run_claimed : WebhookEvent → Bool → Exec (World R) Reply
  unfolding conclude
  run_claimed e false w = (ok duplicate, w)
  run_claimed e true w = conclude e (process e w)

  -- `stripe_webhook`
  unfoldable pub stripe_webhook : Delivery → Exec (World R) Reply
  unfolding run_claimed
  stripe_webhook unsigned = raise (http_error 400)
  stripe_webhook forged = raise (http_error 400)
  stripe_webhook (signed e) = do claimed ← claim e.event_id e.event_type; run_claimed e claimed
