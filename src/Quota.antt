-- ===== src/Quota.antt =====
-- app/services/quota.py: `peek`, `states`, `consume` and the durable copy of a counter. Metrics and
-- log lines are left out. A window and an upgrade tier have modules of their own.
pub mod Window
pub mod Upgrade
pub mod Durable
pub mod Consume
pub mod Outage
use subscription_service.Quota.Upgrade.{upgrade_tier_for}
use subscription_service.Quota.Window.{quota_ttl, window_for, counter_key}
use subscription_service.Entitlements.{quota_for, Entitlements}
use subscription_service.World.{World}
use subscription_service.Effects.{quota_exceeded, ok, err, Result, Exec}
use subscription_service.Models.{UsageCounter}
use subscription_service.Prelude.{
  All, Bool, Bool-cases, Dict, IsDistinct, List, Option, Option-cases, String, [], any, ap,
  append-nil, append_assoc, arith, eq_iff, eq_refl, eqb, false, find, if◌then◌else◌, inl, inr,
  insert, insert-IsDistinct, is_some, leb, length, length-append, lookup, lookup-insert,
  lookup-remove, ltb, map, max, min, none, not, opt_eq, refl, remove, select, some, some-injective,
  subst, suc, sym, true, zero, ℕ, ◌%◌, ◌&&◌, ◌*◌, ◌++◌, ◌+◌, ◌-◌, ◌/◌, ◌<◌, ◌==◌, ◌||◌, ◌∙◌, ◌∷◌,
  ◌≡◌, ◌≢◌, ◌≤◌, ◌⊎◌,
}
use mathlib.Core.Option
use subscription_service.Cache
use subscription_service.Plans.{Quota}
use subscription_service.World.Session.{cache_call}

-- the dictionary that `peek` and `consume` answer with
pub record QuotaState : Type 0 where
  pub key : String
  pub limit : Option ℕ
  pub used : ℕ
  pub remaining : Option ℕ
  pub reset_at : Option ℕ

used_state : String → Option ℕ → ℕ → ℕ → QuotaState
used_state key limit used end = record {
  key = key;
  limit = limit;
  used = used;
  remaining = Option.map (λ l. l - used) limit;
  reset_at = some end;
}

-- over the limit
unfoldable pub exceeds : Option ℕ → ℕ → Bool
exceeds none used = false
exceeds (some limit) used = ltb limit used

-- `limit` where it is known to be there
limit_of : Option ℕ → ℕ
limit_of none = 0
limit_of (some limit) = limit

unfoldable pub same_counter : String → String → ℕ → UsageCounter → Bool
same_counter user_id key start c =
    (c.user_id == user_id) && (c.key == key) && eqb c.window_start start

-- the UPDATE of `_mirror`
unfoldable pub increment : String → String → ℕ → List UsageCounter → List UsageCounter
increment user_id key start [] = []
increment user_id key start (c ∷ cs) =
    (if same_counter user_id key start c then record c { count = c.count + 1 } else c)
    ∷ increment user_id key start cs

module _ {R : Type 0} where
  -- a commit of the counters in a transaction of its own
  put_counters : List UsageCounter → World R → World R
  put_counters counters w = record w {
    db = record w.db { counters = counters };
    saved = record w.saved { counters = counters };
  }

  -- other workers' counters become visible
  counter_rivals_commit : World R → World R
  unfolding put_counters
  counter_rivals_commit w = record (put_counters (w.saved.counters ++ w.rival_counters) w) {
    rival_counters = [];
  }

  -- the INSERT; on a row that another worker has created, the UPDATE again
  insert_counter : UsageCounter → World R → World R
  unfolding put_counters
  insert_counter row w =
      if any (same_counter row.user_id row.key row.window_start) w.saved.counters
      then put_counters (increment row.user_id row.key row.window_start w.saved.counters) w
      else put_counters (w.saved.counters ++ row ∷ []) w

  -- `_mirror`: a failure is swallowed
  unfoldable pub mirror_usage : String → String → ℕ → ℕ → World R → World R
  unfolding put_counters counter_rivals_commit insert_counter
  mirror_usage user_id key start end w =
      if not w.db_up
      then w
      else if any (same_counter user_id key start) w.saved.counters
      then put_counters (increment user_id key start w.saved.counters) w
      else insert_counter
          (record {
            user_id = user_id;
            key = key;
            window_start = start;
            window_end = end;
            count = 1;
          })
          (counter_rivals_commit w)

  read_or_zero : Result ℕ × World R → ℕ × World R
  read_or_zero (ok n, w) = (n, w)
  read_or_zero (err e, w) = (0, w)

  peek_quota : String → String → Entitlements → Option Quota → World R → Option QuotaState × World R
  unfolding read_or_zero used_state
  peek_quota user_id key e none w = (none, w)
  peek_quota user_id key e (some q) w =
      let (start, end) = window_for q.window w.now e in
      let (used, w') =
        read_or_zero
          (cache_call (λ now cache. Cache.get_int now (counter_key user_id key start) cache) w) in
      (some (used_state key q.limit used end), w')

  -- `peek`
  unfoldable pub peek : String → String → Entitlements → World R → Option QuotaState × World R
  unfolding peek_quota
  peek user_id key e w = peek_quota user_id key e (quota_for key e) w

  append_state : Option QuotaState → List QuotaState × World R → List QuotaState × World R
  append_state none rest = rest
  append_state (some state) (states, w) = (state ∷ states, w)

  states_of : String → Entitlements → List Quota → World R → List QuotaState × World R
  unfolding append_state
  states_of user_id e [] w = ([], w)
  states_of user_id e (q ∷ qs) w =
      let (state, w') = peek user_id q.key e w in append_state state (states_of user_id e qs w')

  -- `states`
  unfoldable pub states : String → Entitlements → World R → List QuotaState × World R
  unfolding states_of
  states user_id e w = states_of user_id e e.quotas w

  -- what follows the increment of the counter
  count_use :
      String
      → String
      → Entitlements
      → Option ℕ
      → ℕ × ℕ
      → Result ℕ × World R
      → Result QuotaState × World R
  unfolding used_state limit_of
  count_use user_id key e limit (start, end) (err x, w) = (
    ok (record { key = key; limit = limit; used = 0; remaining = limit; reset_at = none }),
    mirror_usage user_id key start end w,
  )
  count_use user_id key e limit (start, end) (ok used, w) =
      if exceeds limit used
      then (
        err (quota_exceeded key (limit_of limit) used end e.tier (upgrade_tier_for key e.tier)),
        w,
      )
      else (ok (used_state key limit used end), mirror_usage user_id key start end w)

  -- one more unit on the counter of a window
  unfoldable pub count_up : String → String → ℕ × ℕ → Exec (World R) ℕ
  count_up user_id key (start, end) =
      cache_call
        (λ now cache. Cache.incr now (counter_key user_id key start) (quota_ttl now end) cache)

  consume_quota : String → String → Entitlements → Option Quota → Exec (World R) QuotaState
  unfolding count_use
  consume_quota user_id key e none w =
      (ok (record { key = key; limit = none; used = 0; remaining = none; reset_at = none }), w)
  consume_quota user_id key e (some q) w =
      let window = window_for q.window w.now e in
      count_use user_id key e q.limit window (count_up user_id key window w)

  -- `consume`
  unfoldable pub consume : String → String → Entitlements → Exec (World R) QuotaState
  unfolding consume_quota
  consume user_id key e w = consume_quota user_id key e (quota_for key e) w
