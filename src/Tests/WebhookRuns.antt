-- ===== src/Tests/WebhookRuns.antt =====
-- Deliveries at work.
use subscription_service.Effects.{http_error, err, ok, Result, provider_error}
use subscription_service.Webhooks.Retry.{webhook_redelivered, afterwards, claimed_again, failed_row}
use subscription_service.Webhooks.Laws.{webhook_failure, webhook_processed, webhook_success}
use subscription_service.Provider.{RemoteSubscription, BillingProvider}
use subscription_service.World.{World}
use subscription_service.Models.{failed, processed, processing, ProcessedEvent}
use subscription_service.Webhooks.{
  mark, is_subscription_event, handle, write_event, store_event, duplicate, handled, signed,
  process, stripe_webhook, find_event, WebhookEvent, claim,
}
use subscription_service.Prelude.{String, Option, [], false, none, refl, some, true, ◌∷◌, ◌≡◌}
use subscription_service.World.Database.{clashes, find_by_customer}
use subscription_service.World.Session.{
  query, provider_call, record_audit, flush_row, commit, commit_and_invalidate,
  mark_entitlements_stale, add_mark, invalidate_all,
}
use subscription_service.Sync.Mirror.{
  sync_subscription, find_locked, find_customer, mirror, write_row, audit_if, same_snapshot,
  mark_if,
}
use subscription_service.Sync.{same_fingerprint, fingerprint, write_state, project, resolve_tier}
use subscription_service.Plans.Prices.{price_catalog}
use subscription_service.Tests.Samples.{paying, settings, stripe, world, db}

abbrev paid_event : WebhookEvent
paid_event = record {
  event_id = "evt_1";
  event_type = "invoice.paid";
  customer = some "cus_1";
  charge = none;
}

abbrev done_event : ProcessedEvent
done_event = record {
  event_id = "evt_1";
  event_type = "invoice.paid";
  status = processed;
  error = false;
  completed_at = some 1_000_000;
}

abbrev done_world : World (Option RemoteSubscription)
done_world = record world { db = record db { events = done_event ∷ [] } }

webhook_processed_example :
    stripe_webhook settings stripe (signed paid_event) done_world ≡ (ok duplicate, done_world)
unfolding find_event
webhook_processed_example = webhook_processed settings stripe paid_event done_world refl refl refl

-- a delivery whose customer's row stays locked for longer than the lock timeout
abbrev locked_world : World (Option RemoteSubscription)
locked_world = record world { locked = "cus_1" ∷ [] }

abbrev claimed_event : ProcessedEvent
claimed_event = record done_event { status = processing; completed_at = none }

webhook_failure_example :
    let claimed = (claim "evt_1" "invoice.paid" locked_world).1 in
    let raised = (process settings stripe paid_event claimed).1 in
    let (r, w') = stripe_webhook settings stripe (signed paid_event) locked_world in
    let failed_row : ProcessedEvent = record claimed_event {
      status = failed;
      error = true;
      completed_at = some raised.now;
    } in
    (r ≡ err (http_error 500))
    × (w'.db ≡ w'.saved)
    × (w'.marks ≡ [])
    × (w'.saved ≡ record raised.saved { events = store_event failed_row raised.saved.events })
unfolding claim process find_event subscription_service.Effects.◌>>=◌ query write_event commit
    handle is_subscription_event sync_subscription find_locked store_event
webhook_failure_example =
    webhook_failure settings stripe paid_event locked_world
      (claim "evt_1" "invoice.paid" locked_world).1
      (process settings stripe paid_event (claim "evt_1" "invoice.paid" locked_world).1).1 refl refl
      refl refl

webhook_success_example :
    let w' = (stripe_webhook settings stripe (signed paid_event) world).1 in
    (w'.db ≡ w'.saved) × (w'.marks ≡ [])
unfolding stripe_webhook claim process find_event subscription_service.Effects.◌>>=◌ query
    write_event commit handle is_subscription_event sync_subscription find_locked store_event
    find_customer find_by_customer provider_call mirror write_row audit_if same_snapshot
    record_audit flush_row mark_if same_fingerprint fingerprint native.Mathlib.Decide.ℕ_discrete
    write_state project resolve_tier price_catalog clashes mark commit_and_invalidate
    mark_entitlements_stale add_mark invalidate_all
webhook_success_example =
    webhook_success settings stripe paid_event world {reply = handled} refl (λ same. cc)

-- a Stripe that fails while it has nothing to list
abbrev listed :
    String
    → Option RemoteSubscription
    → Result (Option RemoteSubscription) × Option RemoteSubscription
listed customer none = (err provider_error, none)
listed customer (some sub) = (ok (some sub), some sub)

abbrev flaky : BillingProvider (Option RemoteSubscription)
flaky = record stripe { fetch_current_subscription = listed }

abbrev outage : World (Option RemoteSubscription)
outage = record world { remote = none }

webhook_redelivered_example :
    let w' = afterwards settings flaky paid_event outage 6_000_000 (some paying) in
    let raised = (process settings flaky paid_event (claim "evt_1" "invoice.paid" outage).1).1 in
    stripe_webhook settings flaky (signed paid_event) w' ≡ (
      ok handled,
      (process settings flaky paid_event
          (claimed_again (failed_row settings flaky claimed_event raised) w')).1,
    )
unfolding stripe_webhook claim process find_event subscription_service.Effects.◌>>=◌ query
    write_event commit handle is_subscription_event sync_subscription find_locked store_event
    find_customer find_by_customer provider_call mirror write_row audit_if same_snapshot
    record_audit flush_row mark_if same_fingerprint fingerprint native.Mathlib.Decide.ℕ_discrete
    write_state project resolve_tier price_catalog clashes mark commit_and_invalidate
    mark_entitlements_stale add_mark invalidate_all subscription_service.World.Session.rollback
webhook_redelivered_example =
    webhook_redelivered settings flaky paid_event outage (claim "evt_1" "invoice.paid" outage).1
      (process settings flaky paid_event (claim "evt_1" "invoice.paid" outage).1).1 6_000_000
      (some paying) {done = true} refl refl refl refl refl
