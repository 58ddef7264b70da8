-- ===== src/Jobs/ExpireGrace/Once.antt =====
-- app/jobs/expire_grace.py: every row that is due is reported, no other is, and a cycle is reported
-- once.
use subscription_service.Prelude.{
  IsIn, IsIn-append, IsIn-map, IsIn-select, List, String, arith, inr, map, map-IsIn, refl, select,
  select-IsIn, subst, sym, true, ◌++◌, ◌<◌, ◌∙◌, ◌≡◌,
}
use mathlib.Core.Logic.{◌↔◌}
use subscription_service.Models.{Subscription, SubscriptionAudit}
use subscription_service.Settings.{Settings, dunning_grace}
use subscription_service.Effects.{ok}
use subscription_service.World.{World}
use subscription_service.Jobs.ExpireGrace.{expiry_row, is_candidate, expire_grace_windows}
use subscription_service.Jobs.ExpireGrace.Due.{
  IsDue, IsDue-tests_due, tests_due-IsDue, told-not-IsDue,
}
use subscription_service.Jobs.ExpireGrace.Reported.{due_rows, run_lem}

module _ {R : Type 0} (settings : Settings) where
  due_rows-IsIn :
      (w : World R) (sub : Subscription)
      → IsIn sub w.db.subscriptions
      → IsDue settings w.now w.db.audit sub
      → IsIn sub (due_rows settings w)
  due_rows-IsIn w sub listed due =
      let tests = IsDue-tests_due settings w.now w.db.audit sub due in
      IsIn-select _ sub (select is_candidate w.db.subscriptions)
        (IsIn-select is_candidate sub w.db.subscriptions listed (ground (arith, tests)))
        (ground (arith, tests))

  due_rows-IsDue :
      (w : World R) (sub : Subscription)
      → IsIn sub (due_rows settings w)
      → IsIn sub w.db.subscriptions × IsDue settings w.now w.db.audit sub
  due_rows-IsDue w sub h =
      let (candidate, expired) = select-IsIn _ sub (select is_candidate w.db.subscriptions) h in
      let (listed, fits) = select-IsIn is_candidate sub w.db.subscriptions candidate in
      (listed, tests_due-IsDue settings w.now w.db.audit sub (ground (arith, fits, expired)))

  -- a row of this user that is due for a report
  abbrev pub HasDue : World R → String → Type 0
  HasDue w user_id =
      (sub : Subscription) × IsIn sub w.db.subscriptions
      × (sub.user_id ≡ user_id)
      × IsDue settings w.now w.db.audit sub

  due_users :
      (w : World R) (user_id : String)
      → IsIn user_id (map (λ s. s.user_id) (due_rows settings w)) ↔ HasDue w user_id
  due_users w user_id = (
    λ h.
        let (sub, listed, same) =
          map-IsIn (λ (s : Subscription). s.user_id) user_id (due_rows settings w) h in
        let (inside, due) = due_rows-IsDue w sub listed in (sub, inside, same, due),
    λ h.
        let (sub, inside, same, due) = h in
        subst (λ u. IsIn u (map (λ (s : Subscription). s.user_id) (due_rows settings w))) same
          (IsIn-map (λ (s : Subscription). s.user_id) sub (due_rows settings w)
            (due_rows-IsIn w sub inside due)),
  )

  -- the report about a row that is due is committed
  told_row :
      (w : World R) (sub : Subscription)
      → w.db_up ≡ true
      → IsIn sub w.db.subscriptions
      → IsDue settings w.now w.db.audit sub
      → let w' = (expire_grace_windows settings w).1 in
        IsIn (expiry_row w.now sub) w'.db.audit × IsIn (expiry_row w.now sub) w'.saved.audit
  told_row w sub up listed due =
      let (_, same, saved) = run_lem settings w up in
      let inside = due_rows-IsIn w sub listed due in
      let told =
        IsIn-append (expiry_row w.now sub) w.db.audit _
          (inr (IsIn-map (expiry_row w.now) sub (due_rows settings w) inside)) in
      let somebody = IsIn-map (λ (s : Subscription). s.user_id) sub (due_rows settings w) inside in
      (rw same told, rw (saved sub.user_id somebody) told)

  -- Where the database answers and the grace window is not empty, a run of the job reports exactly
  -- the users with a row that is past due on a paid tier, whose grace window has ended, and about
  -- whom the trail has no report from after the row went past due. Nothing but the trail changes in
  -- the tables, and the report of each of these rows is committed. Of this run and another one, at
  -- any time, that finds the trail with all that this run left in it, and each row of a user past
  -- due since the same time as now, at most one reports that user.
  pub expire_grace_windows_once :
      (w v : World R) (user_id : String)
      → w.db_up ≡ true
      → v.db_up ≡ true
      → 0 < dunning_grace settings
      → ((row : SubscriptionAudit)
          → IsIn row (expire_grace_windows settings w).1.db.audit
          → IsIn row v.db.audit)
      → ((sub sub' : Subscription)
          → IsIn sub w.db.subscriptions
          → IsIn sub' v.db.subscriptions
          → sub.user_id ≡ user_id
          → sub'.user_id ≡ user_id
          → sub'.past_due_since ≡ sub.past_due_since)
      → let (r, w') = expire_grace_windows settings w in
        (users : List String) × (later : List String) × (rows : List SubscriptionAudit) × (r
          ≡ ok users)
        × ((u : String) → IsIn u users ↔ HasDue w u)
        × (w'.db ≡ record w.db { audit = w.db.audit ++ rows })
        × ((sub : Subscription)
            → IsIn sub w.db.subscriptions
            → IsDue settings w.now w.db.audit sub
            → IsIn (expiry_row w.now sub) w'.saved.audit)
        × ((expire_grace_windows settings v).0 ≡ ok later)
        × ¬ (IsIn user_id users × IsIn user_id later)
  unfolding expiry_row
  expire_grace_windows_once w v user_id up up' some_grace kept cycle =
      let (reports_now, same, saved) = run_lem settings w up in
      let (reports_later, _, _) = run_lem settings v up' in
      (
        _,
        _,
        _,
        reports_now,
        due_users w,
        same,
        λ sub listed due. (told_row w sub up listed due).1,
        reports_later,
        λ both.
            let (sub, listed, mine, due) = (due_users w user_id).0 both.0 in
            let (sub', listed', mine', due') = (due_users v user_id).0 both.1 in
            told-not-IsDue settings v.now v.db.audit sub' (expiry_row w.now sub)
              (cycle sub sub' listed listed' mine mine' ∙ due.began)
              (kept (expiry_row w.now sub) (told_row w sub up listed due).0) (mine ∙ sym mine') refl
              (ground (arith, due.closed, some_grace)) due',
      )
