-- ===== src/Entitlements/Read/Laws.antt =====
-- `resolve_entitlements` under failures of the cache, and after a commit.
use subscription_service.Cache.{number, CacheValue, payload}
use subscription_service.Entitlements.Resolve.{resolve_from}
use subscription_service.Effects.{ok}
use subscription_service.World.{World}
use subscription_service.Settings.{Settings}
use subscription_service.World.Session.{
  commit_and_invalidate, entitlement_key, cache_call, query, cache_read,
}
use subscription_service.Cache
use mathlib.Core.Path.{ap₂}
use subscription_service.Prelude.{
  Option, String, [], any, arith, lookup, none, some, sym, true, ◌==◌, ◌∙◌, ◌≡◌,
}
use subscription_service.Entitlements.Read.{
  try_read, caught, after_read, answer, resolve_entitlements,
}
use subscription_service.World.Session.Commit.{
  commit_and_invalidate_lem, commit_and_invalidate-lookup,
}

module _ {R : Type 0} where
  -- reading the cache touches neither the database nor the clock
  try_read_keeps :
      (key : String) (w : World R)
      → let w' = (try_read key w).1 in (w'.db ≡ w.db) × (w'.now ≡ w.now) × (w'.db_up ≡ w.db_up)
  unfolding try_read caught cache_read cache_call
  try_read_keeps key w = ground arith

  -- a key that is not in the cache is a miss, whether or not the cache answers
  try_read_miss :
      (key : String) (w : World R) → lookup key w.cache ≡ none → (try_read key w).0 ≡ none
  unfolding try_read caught cache_read cache_call Cache.get
  try_read_miss key w absent = ground arith

  after_read_miss :
      (settings : Settings) (user_id : String) (found : Option CacheValue) (w : World R)
      → found ≡ none
      → w.db_up ≡ true
      → (after_read settings user_id (found, w)).0 ≡ ok (resolve_from settings w.now user_id w.db)
  unfolding after_read answer query
  after_read_miss settings user_id none w miss up = rw up
  after_read_miss settings user_id (some v) w miss up = cc

  -- With the database up, the answer to a miss is what the database says, whichever calls of the
  -- cache fail.
  pub resolve_entitlements_miss :
      (settings : Settings) (user_id : String) (w : World R)
      → w.db_up ≡ true
      → (try_read (entitlement_key user_id) w).0 ≡ none
      → (resolve_entitlements settings user_id w).0 ≡ ok (resolve_from settings w.now user_id w.db)
  unfolding resolve_entitlements
  resolve_entitlements_miss settings user_id w up miss =
      let seen = try_read (entitlement_key user_id) w in
      let (same_db, same_now, same_up) = try_read_keeps (entitlement_key user_id) w in
      after_read_miss settings user_id seen.0 seen.1 miss (same_up ∙ up)
      ∙ ap₂ (λ now db. ok (resolve_from settings now user_id db)) same_now same_db

  -- Once `commit_and_invalidate` has committed a write and the cache has answered, the next read of
  -- every marked user answers from the committed tables.
  pub read_after_commit :
      (settings : Settings) (user_id : String) (w : World R)
      → w.db_up ≡ true
      → w.cache_faults ≡ []
      → any (λ m. m == user_id) w.marks ≡ true
      → let w' = (commit_and_invalidate w).1 in
        (w'.saved ≡ w.db)
        × ((resolve_entitlements settings user_id w').0
            ≡ ok (resolve_from settings w.now user_id w'.saved))
  read_after_commit settings user_id w up clear listed =
      let (_, saved, same, _, now, up') = commit_and_invalidate_lem w up in
      let w' = (commit_and_invalidate w).1 in
      (
        saved,
        resolve_entitlements_miss settings user_id w' up' (
              try_read_miss (entitlement_key user_id) w'
                (commit_and_invalidate-lookup user_id w up clear listed))
            ∙ ap₂ (λ t db. ok (resolve_from settings t user_id db)) now (same ∙ sym saved),
      )
