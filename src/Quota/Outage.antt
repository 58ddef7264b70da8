-- ===== src/Quota/Outage.antt =====
-- app/services/quota.py: `consume` while the cache fails, and the caller's own session.
use subscription_service.Quota.Durable.{mirror_usage-IsOneMore, seen_counters, IsOneMore}
use subscription_service.Quota.Window.{window_for}
use subscription_service.Plans.{Quota}
use subscription_service.Effects.{ok, err, Result}
use subscription_service.Entitlements.{quota_for, Entitlements}
use subscription_service.Quota.{
  QuotaState, exceeds, mirror_usage, consume, count_up, insert_counter, put_counters,
  counter_rivals_commit, count_use, consume_quota,
}
use subscription_service.World.{World, Db}
use subscription_service.World.Session.{cache_call}
use subscription_service.Prelude.{
  Bool, Bool-cases, List, Option, String, [], arith, inl, inr, none, refl, some, true, ℕ, ◌∙◌, ◌∷◌,
  ◌≡◌,
}

module _ {R : Type 0} where
  -- When the call of the cache fails and the database answers, a metered use is admitted and reported
  -- as not counted, whatever the limit is, and is recorded in the database exactly once.
  pub consume-fails_open :
      (user_id key : String) (e : Entitlements) (q : Quota) (faults : List Bool) (w : World R)
      → quota_for key e ≡ some q
      → w.cache_faults ≡ true ∷ faults
      → w.db_up ≡ true
      → let (r, w') = consume user_id key e w in
        let (start, end) = window_for q.window w.now e in
        let state : QuotaState = record {
          key = key;
          limit = q.limit;
          used = 0;
          remaining = q.limit;
          reset_at = none;
        } in
        (r ≡ ok state)
        × IsOneMore user_id key start (seen_counters user_id key start w) w'.saved.counters
  unfolding consume consume_quota count_use count_up cache_call
  consume-fails_open user_id key e q faults w found failing up =
      let (start, end) = window_for q.window w.now e in
      rw (found, failing)
        (
          refl,
          (mirror_usage-IsOneMore user_id key start end (record w { cache_faults = faults }) up).0,
        )

  -- what the caller's session sees, what is committed and what is marked, apart from the counters
  abbrev pub pending : World R → Db × Db × List String
  pending w = (record w.db { counters = [] }, record w.saved { counters = [] }, w.marks)

  mirror_usage-pending :
      (user_id key : String) (start end : ℕ) (w : World R)
      → pending (mirror_usage user_id key start end w) ≡ pending w
  unfolding mirror_usage insert_counter put_counters counter_rivals_commit
  mirror_usage-pending user_id key start end w = ground arith

  count_use-pending :
      (user_id key : String) (e : Entitlements) (limit : Option ℕ) (window : ℕ × ℕ)
      (p : Result ℕ × World R)
      → pending (count_use user_id key e limit window p).1 ≡ pending p.1
  unfolding count_use exceeds
  count_use-pending user_id key e limit (start, end) (err x, w) =
      mirror_usage-pending user_id key start end w
  count_use-pending user_id key e limit (start, end) (ok used, w) =
      elim (Bool-cases (exceeds limit used)) [
        | inl over ↦ rw over refl
        | inr under ↦ rw under (mirror_usage-pending user_id key start end w)
      ]

  count_up-pending :
      (user_id key : String) (window : ℕ × ℕ) (w : World R)
      → pending (count_up user_id key window w).1 ≡ pending w
  unfolding count_up cache_call
  count_up-pending user_id key window w = ground arith

  consume_quota-pending :
      (user_id key : String) (e : Entitlements) (found : Option Quota) (w : World R)
      → pending (consume_quota user_id key e found w).1 ≡ pending w
  unfolding consume_quota
  consume_quota-pending user_id key e none w = refl
  consume_quota-pending user_id key e (some q) w =
      let window = window_for q.window w.now e in
      count_use-pending user_id key e q.limit window (count_up user_id key window w)
      ∙ count_up-pending user_id key window w

  -- Admitted, refused or uncounted, a use neither commits nor rolls back what the caller's session
  -- has pending: apart from the counters, what it sees, what is committed and what is marked stay.
  pub consume-pending :
      (user_id key : String) (e : Entitlements) (w : World R)
      → pending (consume user_id key e w).1 ≡ pending w
  unfolding consume
  consume-pending user_id key e w = consume_quota-pending user_id key e (quota_for key e) w
