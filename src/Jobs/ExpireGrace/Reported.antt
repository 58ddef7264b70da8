-- ===== src/Jobs/ExpireGrace/Reported.antt =====
-- app/jobs/expire_grace.py: what a run leaves behind.
use subscription_service.Prelude.{
  Bool-cases, IsIn, List, String, [], ap, append-nil, append_assoc, arith, false, inl, inr, map,
  not, refl, select, sym, true, ℕ, ◌++◌, ◌&&◌, ◌||◌, ◌∙◌, ◌∷◌, ◌≡◌,
}
use subscription_service.Models.{Subscription, SubscriptionAudit}
use subscription_service.Settings.{Settings}
use subscription_service.Effects.{◌>>◌, Result, ok, err, pure, ◌>>=◌, continue}
use subscription_service.World.{World}
use subscription_service.World.Session.{
  mark_entitlements_stale, commit_and_invalidate, record_audit,
}
use subscription_service.World.Session.Commit.{commit_and_invalidate_lem, query_up}
use subscription_service.Policy.{grace_expired}
use subscription_service.Jobs.ExpireGrace.{
  already_reported, expiry_row, is_candidate, report_all, mark_all, finish, expire_grace_windows,
}

-- the rows of a list that the loop reports
abbrev pub reported : Settings → ℕ → List SubscriptionAudit → List Subscription → List Subscription
reported settings now flushed =
    select (λ sub. grace_expired settings now sub && not (already_reported sub flushed))

module _ {R : Type 0} (settings : Settings) where
  abbrev pub with_rows : List SubscriptionAudit → World R → World R
  with_rows rows w = record w { db = record w.db { audit = w.db.audit ++ rows } }

  report_all_lem :
      (flushed : List SubscriptionAudit) (subs : List Subscription) (w : World R)
      → let due = reported settings w.now flushed subs in
        report_all settings flushed subs w
        ≡ (ok (map (λ s. s.user_id) due), with_rows (map (expiry_row w.now) due) w)
  unfolding report_all ◌>>=◌ record_audit
  report_all_lem flushed [] w =
      ap (λ (a : List SubscriptionAudit). (ok [], record w { db = record w.db { audit = a } }))
        (sym (append-nil w.db.audit))
  report_all_lem flushed (sub ∷ subs) w =
      elim (Bool-cases (not (grace_expired settings w.now sub) || already_reported sub flushed)) [
        | inl skip ↦
            let off : (grace_expired settings w.now sub && not (already_reported sub flushed))
                ≡ false =
              ground (arith, skip) in
            rw skip (rw off (report_all_lem flushed subs w))
        | inr report ↦
            let on : (grace_expired settings w.now sub && not (already_reported sub flushed))
                ≡ true =
              ground (arith, report) in
            let row = expiry_row w.now sub in
            rw report (
              rw on (
                rw (report_all_lem flushed subs (with_rows (row ∷ []) w)) (
                  ap
                    (λ (a : List SubscriptionAudit). (
                      ok (
                          sub.user_id
                          ∷ map (λ s. s.user_id) (reported settings w.now flushed subs)),
                      record w { db = record w.db { audit = a } },
                    ))
                    (append_assoc w.db.audit (row ∷ []) _))))
      ]

  -- what `finish` leaves of the tables; somebody to report is a reason to commit
  abbrev pub Finishes : List String → World R → Result (List String) → World R → Type 0
  Finishes users w r w' =
      (r ≡ ok users) × (w'.db ≡ w.db) × ((u : String) → IsIn u users → w'.saved ≡ w.db)

  mark_all_keeps :
      (users : List String) (w : World R)
      → let (r, w') = mark_all settings users w in
        (r ≡ ok tt) × (w'.db ≡ w.db) × (w'.db_up ≡ w.db_up)
  unfolding mark_all mark_entitlements_stale ◌>>=◌
  mark_all_keeps [] w = (refl, refl, refl)
  mark_all_keeps (u ∷ us) w = mark_all_keeps us _

  committed :
      (users : List String) (w v : World R) (r : Result (Unit {0}))
      → r ≡ ok tt
      → (v.db ≡ w.db)
      → (v.db_up ≡ true)
      → let (r', w') = continue r (λ _. commit_and_invalidate >> pure users) v in
        Finishes users w r' w'
  unfolding ◌>>=◌
  committed users w v (err e) back db up = cc
  committed users w v (ok _) back db up =
      let (done, saved, same, _, _, _) = commit_and_invalidate_lem v up in
      rw done (refl, same ∙ db, λ u listed. saved ∙ db)

  finish_lem :
      (users : List String) (w : World R)
      → w.db_up ≡ true
      → Finishes users w (finish settings users w).0 (finish settings users w).1
  unfolding finish ◌>>=◌
  finish_lem [] w up = (refl, refl, λ u none_listed. absurd none_listed)
  finish_lem (u ∷ us) w up =
      let (back, db, same_up) = mark_all_keeps (u ∷ us) w in
      committed (u ∷ us) w (mark_all settings (u ∷ us) w).1 _ back db (same_up ∙ up)

  -- the rows that a run in this world reports
  abbrev pub due_rows : World R → List Subscription
  due_rows w = reported settings w.now w.db.audit (select is_candidate w.db.subscriptions)

  pub run_lem :
      (w : World R)
      → w.db_up ≡ true
      → let (r, w') = expire_grace_windows settings w in
        Finishes
          (map (λ s. s.user_id) (due_rows w))
          (with_rows (map (expiry_row w.now) (due_rows w)) w)
          r
          w'
  unfolding expire_grace_windows ◌>>=◌
  run_lem w up = rw (query_up (λ db. select is_candidate db.subscriptions) w up) (
      rw (query_up (λ db. db.audit) w up) (
        rw (report_all_lem w.db.audit (select is_candidate w.db.subscriptions) w)
          (finish_lem _ _ up)))
