-- ===== src/World.antt =====
-- What a request or a job runs in: the database session, the cache, Stripe and the clock.
-- `db` is what the session sees and `saved` is what has been committed. `rivals` are the rows that
-- other workers commit to `subscriptions` while this one is about to insert there, `rival_events`
-- and `rival_counters` those of the two other tables; `locked` are the customers whose row another
-- transaction holds for longer than the lock timeout. A call of the cache fails where the
-- next of `cache_faults` says so. An action runs at one instant, `now`.
pub mod Database
pub mod Session
use subscription_service.Prelude.{ℕ, String, Bool, List}
use subscription_service.Models.{
  Subscription, SubscriptionAudit, ProcessedEvent, UsageCounter, EntitlementGrant,
}
use subscription_service.Cache.{Cache}

pub record Db : Type 0 where
  pub subscriptions : List Subscription
  pub audit : List SubscriptionAudit
  pub events : List ProcessedEvent
  pub grants : List EntitlementGrant
  pub counters : List UsageCounter

pub record World (R : Type 0) : Type 0 where
  pub db : Db
  pub saved : Db
  pub marks : List String
  pub cache : Cache
  pub cache_faults : List Bool
  pub remote : R
  pub now : ℕ
  pub db_up : Bool
  pub locked : List String
  pub rivals : List Subscription
  pub rival_events : List ProcessedEvent
  pub rival_counters : List UsageCounter
