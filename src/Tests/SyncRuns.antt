-- ===== src/Tests/SyncRuns.antt =====
-- The sync at work.
use subscription_service.Plans.Prices.{price_catalog}
use subscription_service.Plans.{Tier}
use subscription_service.Effects.{ok}
use subscription_service.Sync.Idempotent.{sync_writes, sync_idempotent, HasRow}
use subscription_service.Sync.Mirror.Sound.{IsSound}
use subscription_service.Sync.Mirror.Keeps.{sync-IsSound}
use subscription_service.Sync.Mirror.Unknown.{sync_foreign, sync_orphaned, HasNoRow}
use subscription_service.Sync.{resolve_tier, write_state, belongs_to_this_service, project}
use subscription_service.World.Database.{find_by_customer, clashes, find_by_user}
use subscription_service.Sync.Mirror.{sync_subscription}
use subscription_service.Prelude.{String, [], false, none, refl, some, ◌==◌, ◌∷◌, ◌≡◌}
use subscription_service.Tests.Samples.{
  settings, stripe, world, empty_world, row, db, paying, foreign, orphaned,
}

world-HasRow : HasRow "cus_1" row world
unfolding find_by_customer find_by_user clashes
world-HasRow = record { up = refl; unlocked = refl; unique = (refl, refl, tt); found = refl }

paid_row :
    clashes (write_state 5_000_000 row (project settings.stripe_price_ids (some paying))) (row ∷ [])
    ≡ false
unfolding clashes write_state project resolve_tier price_catalog
paid_row = refl

sync_writes_example :
    let (result, w') = sync_subscription settings stripe "invoice.paid" none "cus_1" world in
    let sub' = write_state 5_000_000 row (project settings.stripe_price_ids (some paying)) in
    (result ≡ ok (some sub'))
    × (find_by_user "u1" w'.db.subscriptions ≡ some sub')
    × ((j : String)
        → ("u1" == j) ≡ false
        → find_by_user j w'.db.subscriptions ≡ find_by_user j (row ∷ []))
    × (w'.saved ≡ db)
sync_writes_example =
    sync_writes settings stripe "invoice.paid" none "cus_1" world world-HasRow refl paid_row

-- the sync in the model gives the tier that the price names
sync_run : (project settings.stripe_price_ids (some paying)).tier ≡ Tier.plus
unfolding project resolve_tier price_catalog
sync_run = refl

sync_idempotent_example :
    let w' = (sync_subscription settings stripe "invoice.paid" none "cus_1" world).1 in
    let again =
      sync_subscription settings stripe "stripe.sync" none "cus_1"
        (record w' { now = 7_000_000 }) in
    (again.0 ≡ (sync_subscription settings stripe "invoice.paid" none "cus_1" world).0)
    × (again.1.db ≡ w'.db)
    × (again.1.marks ≡ w'.marks)
sync_idempotent_example =
    sync_idempotent settings stripe "invoice.paid" none none "cus_1" 7_000_000 world world-HasRow
      refl refl paid_row

sync-IsSound_example :
    IsSound (sync_subscription settings stripe "invoice.paid" none "cus_1" world).1.db.subscriptions
unfolding find_by_user clashes
sync-IsSound_example =
    sync-IsSound settings stripe "invoice.paid" none "cus_1" world
      (record {
        unique = (refl, refl, tt);
        consistent = (record { dunning = refl; paid = λ t. absurd (t refl) }, tt);
      })
      (record {
        unique = (refl, refl, tt);
        consistent = (record { dunning = refl; paid = λ t. absurd (t refl) }, tt);
      })

empty-HasNoRow : HasNoRow "cus_9" empty_world
unfolding find_by_customer
empty-HasNoRow = record { up = refl; unlocked = refl; absent = refl }

sync_foreign_example :
    sync_subscription settings stripe "invoice.paid" none "cus_9"
      (record empty_world { remote = some foreign })
    ≡ (ok none, record empty_world { remote = some foreign })
unfolding belongs_to_this_service resolve_tier price_catalog find_by_customer
sync_foreign_example =
    sync_foreign settings stripe "invoice.paid" none "cus_9"
      (record empty_world { remote = some foreign })
      (record { up = refl; unlocked = refl; absent = refl }) refl refl

sync_orphaned_example :
    let (result, w') =
      sync_subscription settings stripe "invoice.paid" none "cus_9"
        (record empty_world { remote = some orphaned }) in
    (result ≡ ok none) × (w'.db ≡ empty_world.db) × (w'.saved ≡ empty_world.saved) × (w'.marks ≡ [])
unfolding find_by_customer
sync_orphaned_example =
    sync_orphaned settings stripe "invoice.paid" none "cus_9"
      (record empty_world { remote = some orphaned })
      (record { up = refl; unlocked = refl; absent = refl }) refl refl refl
