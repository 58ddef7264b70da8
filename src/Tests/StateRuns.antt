-- ===== src/Tests/StateRuns.antt =====
-- Mirroring into rows at work.
use subscription_service.Sync.Marks.{sync_unmarked}
use subscription_service.Entitlements.Resolve.{resolve_from}
use subscription_service.Sync.Idempotent.{HasRow}
use subscription_service.Sync.Mirror.{sync_subscription}
use subscription_service.Provider.{RemoteSubscription}
use subscription_service.World.{World}
use subscription_service.World.Database.{clashes, find_by_user, find_by_customer}
use subscription_service.Plans.Prices.{price_catalog}
use subscription_service.Sync.Project.{
  write_all-past_due_since, project_owned, write_all, project_purchased,
}
use subscription_service.Prelude.{Option, [], none, refl, some, true, ◌∷◌, ◌≡◌}
use subscription_service.Plans.{Tier}
use subscription_service.Models.{Subscription, SubscriptionStatus}
use subscription_service.Sync.{
  MirroredState, no_subscription, write_state, project, resolve_tier, belongs_to_this_service,
}
use subscription_service.Sync.Mirror.{
  sync_subscription, find_locked, find_customer, mirror, write_row, audit_if, same_snapshot,
  mark_if,
}
use subscription_service.World.Session.{query, provider_call, record_audit, flush_row}
use subscription_service.Sync.{same_fingerprint, fingerprint}
use subscription_service.Plans.{monthly}
use subscription_service.Plans.Prices.{price_id_for}
use subscription_service.Provider.{remote_grants_access}
use subscription_service.Tests.Samples.{settings, stripe, world, row, db, paying}

abbrev late_row : Subscription
late_row = record row {
  tier = Tier.plus;
  status = SubscriptionStatus.past_due;
  past_due_since = some 1_000_000;
}

-- a mirrored state that is past due
abbrev late_state : MirroredState
late_state = record no_subscription { tier = Tier.plus; status = SubscriptionStatus.past_due }

write_all-past_due_since_example :
    (write_all ((1_000_000, late_state) ∷ (2_000_000, late_state) ∷ []) row).past_due_since
    ≡ some 1_000_000
write_all-past_due_since_example =
    write_all-past_due_since 1_000_000 late_state ((2_000_000, late_state) ∷ []) row refl refl
      (refl, tt)

project_purchased_example :
    ((project settings.stripe_price_ids (some paying)).tier ≡ Tier.plus)
    × ((project settings.stripe_price_ids (some paying)).billing_interval ≡ some monthly)
unfolding price_id_for price_catalog
project_purchased_example =
    project_purchased settings.stripe_price_ids Tier.plus monthly
      (record { id = "price_plus"; interval = some monthly; tier = none }) paying refl refl refl

project_owned_example :
    (remote_grants_access paying ≡ true)
    × ((resolve_tier settings.stripe_price_ids paying.price).0
        ≡ some (project settings.stripe_price_ids (some paying)).tier)
    × (belongs_to_this_service settings.stripe_price_ids (some paying) ≡ true)
unfolding project resolve_tier price_catalog
project_owned_example = project_owned settings.stripe_price_ids paying (λ e. cc)

-- a row that already holds what Stripe says
abbrev settled_row : Subscription
settled_row = write_state 1_000_000 row (project settings.stripe_price_ids (some paying))

abbrev settled_world : World (Option RemoteSubscription)
settled_world = record world {
  db = record db { subscriptions = settled_row ∷ [] };
  saved = record db { subscriptions = settled_row ∷ [] };
}

settled-HasRow : HasRow "cus_1" settled_row settled_world
unfolding find_by_customer find_by_user clashes write_state project resolve_tier price_catalog
settled-HasRow = record { up = refl; unlocked = refl; unique = (refl, refl, tt); found = refl }

sync_unmarked_example :
    resolve_from settings 9_000_000 "u1"
      (sync_subscription settings stripe "invoice.paid" none "cus_1" settled_world).1.db
    ≡ resolve_from settings 9_000_000 "u1" settled_world.db
unfolding write_state project resolve_tier price_catalog clashes sync_subscription find_by_customer
    subscription_service.Effects.◌>>=◌ find_locked find_customer query provider_call mirror
    write_row audit_if same_snapshot record_audit flush_row mark_if same_fingerprint fingerprint
    native.Mathlib.Decide.ℕ_discrete
sync_unmarked_example =
    sync_unmarked settings stripe "invoice.paid" none "cus_1" settled_world settled-HasRow refl refl
      refl refl 9_000_000 "u1"
