-- ===== src/Quota/Consume.antt =====
-- app/services/quota.py: `consume` over the uses of one window, while the cache answers.
use subscription_service.Plans.{Quota}
use subscription_service.Settings.{second}
use subscription_service.Cache.{number}
use subscription_service.Quota.Window.{window_for, quota_ttl, counter_key}
use subscription_service.World.{World}
use subscription_service.Entitlements.{quota_for, Entitlements}
use subscription_service.Effects.{err, ok, Result}
use subscription_service.Prelude.{
  All, Bool-cases, List, String, [], arith, eq_refl, if◌then◌else◌, inl, inr, length, lookup,
  lookup-insert, ltb, min, none, refl, some, subst, suc, sym, ℕ, ◌*◌, ◌+◌, ◌-◌, ◌<◌, ◌∙◌, ◌∷◌, ◌≡◌,
}
use subscription_service.Cache
use subscription_service.World.Session.{cache_call}
use subscription_service.Quota.{
  consume, QuotaState, mirror_usage, count_up, exceeds, count_use, consume_quota, insert_counter,
  put_counters, counter_rivals_commit,
}

-- the admitted among the answers
abbrev pub admitted : List (Result QuotaState) → ℕ
admitted [] = 0
admitted (ok _ ∷ rs) = suc (admitted rs)
admitted (err _ ∷ rs) = admitted rs

module _ {R : Type 0} where
  -- the answers to one use at each of these times
  unfoldable pub consume_at :
      String → String → Entitlements → List ℕ → World R → List (Result QuotaState)
  consume_at user_id key e [] w = []
  consume_at user_id key e (t ∷ ts) w =
      let (r, w') = consume user_id key e (record w { now = t }) in
      r ∷ consume_at user_id key e ts w'

  mirror_usage_keeps :
      (user_id key : String) (start end : ℕ) (w : World R)
      → let w' = mirror_usage user_id key start end w in
        (w'.cache ≡ w.cache) × (w'.cache_faults ≡ w.cache_faults)
  unfolding mirror_usage insert_counter put_counters counter_rivals_commit
  mirror_usage_keeps user_id key start end w = ground arith

  -- a live counter goes up by one and keeps its expiry
  count_up_live :
      (user_id key : String) (start end n expires : ℕ) (w : World R)
      → w.cache_faults ≡ []
      → lookup (counter_key user_id key start) w.cache ≡ some (number n, expires)
      → w.now < expires
      → let (r, w') = count_up user_id key (start, end) w in
        (r ≡ ok (n + 1))
        × (lookup (counter_key user_id key start) w'.cache ≡ some (number (n + 1), expires))
        × (w'.cache_faults ≡ [])
  unfolding count_up cache_call Cache.incr Cache.get
  count_up_live user_id key start end n expires w clear there live =
      rw (clear, there)
        (ground (
          arith,
          lookup-insert (counter_key user_id key start) (counter_key user_id key start)
              (number (n + 1), expires) w.cache,
          eq_refl (counter_key user_id key start),
        ))

  -- the first use starts the counter, with the expiry of its window
  count_up_fresh :
      (user_id key : String) (start end : ℕ) (w : World R)
      → w.cache_faults ≡ []
      → lookup (counter_key user_id key start) w.cache ≡ none
      → let (r, w') = count_up user_id key (start, end) w in
        (r ≡ ok 1)
        × (lookup (counter_key user_id key start) w'.cache
            ≡ some (number 1, w.now + quota_ttl w.now end * second))
        × (w'.cache_faults ≡ [])
  unfolding count_up cache_call Cache.incr Cache.get
  count_up_fresh user_id key start end w clear absent =
      rw (clear, absent)
        (ground (
          arith,
          lookup-insert (counter_key user_id key start) (counter_key user_id key start)
              (number 1, w.now + quota_ttl w.now end * second) w.cache,
          eq_refl (counter_key user_id key start),
        ))

  -- what a limit makes of a count
  count_use_lem :
      (user_id key : String) (e : Entitlements) (limit used start end : ℕ) (w : World R)
      → let (r, w') = count_use user_id key e (some limit) (start, end) (ok used, w) in
        (w'.cache ≡ w.cache)
        × (w'.cache_faults ≡ w.cache_faults)
        × ((rs : List (Result QuotaState))
            → admitted (r ∷ rs) ≡ (if ltb limit used then 0 else 1) + admitted rs)
  unfolding count_use exceeds
  count_use_lem user_id key e limit used start end w =
      let (a, b) = mirror_usage_keeps user_id key start end w in
      elim (Bool-cases (ltb limit used)) [
        | inl over ↦ rw over (refl, refl, λ rs. omega arith)
        | inr under ↦ rw under (a, b, λ rs. omega arith)
      ]

  -- the counter and the limit after a count, for the answers that follow
  abbrev Counts : String → ℕ → ℕ → ℕ → Result QuotaState × World R → Type 0
  Counts counter limit n expires (r, w) =
      (lookup counter w.cache ≡ some (number n, expires))
      × (w.cache_faults ≡ [])
      × ((rs : List (Result QuotaState))
          → admitted (r ∷ rs) ≡ (if ltb limit n then 0 else 1) + admitted rs)

  counted :
      (user_id key : String) (e : Entitlements) (limit n expires start end : ℕ)
      (p : Result ℕ × World R) (counter : String)
      → p.0 ≡ ok n
      → lookup counter p.1.cache ≡ some (number n, expires)
      → p.1.cache_faults ≡ []
      → Counts counter limit n expires (count_use user_id key e (some limit) (start, end) p)
  counted user_id key e limit n expires start end (ok m, w) counter same there clear =
      let (a, b, c) = count_use_lem user_id key e limit m start end w in
      let same' : m ≡ n = cc in
      (ground (arith, a, there), ground (arith, b, clear), λ rs. rw (sym same') (c rs))
  counted user_id key e limit n expires start end (err x, w) counter same there clear = cc

  consume_live :
      (user_id key : String) (e : Entitlements) (q : Quota) (limit n expires : ℕ) (w : World R)
      → quota_for key e ≡ some q
      → q.limit ≡ some limit
      → w.cache_faults ≡ []
      → let counter = counter_key user_id key (window_for q.window w.now e).0 in
        lookup counter w.cache ≡ some (number n, expires)
        → w.now < expires
        → Counts counter limit (n + 1) expires (consume user_id key e w)
  unfolding consume consume_quota
  consume_live user_id key e q limit n expires w found limited clear there live =
      let window = window_for q.window w.now e in
      let (a, b, c) = count_up_live user_id key window.0 window.1 n expires w clear there live in
      rw (found, limited)
        (counted user_id key e limit (n + 1) expires window.0 window.1
          (count_up user_id key window w) _ a b c)

  consume_fresh :
      (user_id key : String) (e : Entitlements) (q : Quota) (limit : ℕ) (w : World R)
      → quota_for key e ≡ some q
      → q.limit ≡ some limit
      → w.cache_faults ≡ []
      → let window = window_for q.window w.now e in
        lookup (counter_key user_id key window.0) w.cache ≡ none
        → Counts
            (counter_key user_id key window.0)
            limit
            1
            (w.now + quota_ttl w.now window.1 * second)
            (consume user_id key e w)
  unfolding consume consume_quota
  consume_fresh user_id key e q limit w found limited clear absent =
      let window = window_for q.window w.now e in
      let (a, b, c) = count_up_fresh user_id key window.0 window.1 w clear absent in
      rw (found, limited)
        (counted user_id key e limit 1 _ window.0 window.1 (count_up user_id key window w) _ a b c)

  consume_at_live :
      (user_id key : String) (e : Entitlements) (q : Quota) (limit start expires : ℕ) (ts : List ℕ)
      (n : ℕ) (w : World R)
      → quota_for key e ≡ some q
      → q.limit ≡ some limit
      → w.cache_faults ≡ []
      → lookup (counter_key user_id key start) w.cache ≡ some (number n, expires)
      → All (λ t. (t < expires) × ((window_for q.window t e).0 ≡ start)) ts
      → admitted (consume_at user_id key e ts w) ≡ min (length ts) (limit - n)
  unfolding consume_at
  consume_at_live user_id key e q limit start expires [] n w found limited clear there within =
      omega arith
  consume_at_live user_id key e q limit start expires (t ∷ ts) n w found limited clear there
        ((live, same), within) =
      let wt = record w { now = t } in
      let (a, b, c) =
        consume_live user_id key e q limit n expires wt found limited clear (rw same there) live in
      let p = consume user_id key e wt in
      let ih =
        consume_at_live user_id key e q limit start expires ts (n + 1) p.1 found limited b
          (subst
            (λ s. lookup (counter_key user_id key s) p.1.cache ≡ some (number (n + 1), expires))
            same a)
          within in
      c (consume_at user_id key e ts p.1) ∙ rw ih (ground arith)

  -- In a window of a quota with a limit, from its first use on, exactly as many uses are admitted as
  -- the limit says, or all of them where they are fewer; the uses stand at any times of the window
  -- at which the counter is still kept, and the cache answers.
  pub consume_at-limit :
      (user_id key : String) (e : Entitlements) (q : Quota) (limit now : ℕ) (ts : List ℕ)
      (w : World R)
      → quota_for key e ≡ some q
      → q.limit ≡ some limit
      → w.cache_faults ≡ []
      → let (start, end) = window_for q.window now e in
        lookup (counter_key user_id key start) w.cache ≡ none
        → All
            (λ t. (t < now + quota_ttl now end * second) × ((window_for q.window t e).0 ≡ start))
            ts
        → admitted (consume_at user_id key e (now ∷ ts) w) ≡ min (length (now ∷ ts)) limit
  unfolding consume_at
  consume_at-limit user_id key e q limit now ts w found limited clear absent within =
      let wt = record w { now = now } in
      let (start, end) = window_for q.window now e in
      let (a, b, c) = consume_fresh user_id key e q limit wt found limited clear absent in
      let p = consume user_id key e wt in
      let rest = consume_at_live user_id key e q limit start _ ts 1 p.1 found limited b a within in
      c (consume_at user_id key e ts p.1) ∙ rw rest (ground arith)
