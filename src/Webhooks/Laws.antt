-- ===== src/Webhooks/Laws.antt =====
-- app/routers/webhooks.py: the outcomes of one delivery.
use subscription_service.World.Session.Commit.{commit_and_invalidate_done}
use subscription_service.Effects.{>>=-eq-ok, Error, Result, http_error, err, ok, ◌>>=◌}
use subscription_service.World.{World}
use subscription_service.World.Session.{commit_and_invalidate, rollback, commit, query}
use subscription_service.Provider.{BillingProvider}
use subscription_service.Settings.{Settings}
use subscription_service.Prelude.{
  Bool, Bool-cases, List, String, [], ap, arith, eq_iff, eq_refl, false, inl, inr, refl, some,
  subst, true, ◌==◌, ◌∷◌, ◌≡◌, ◌≢◌,
}
use subscription_service.Models.{ProcessedEvent, processed, failed}
use subscription_service.Webhooks.{
  write_event, duplicate, signed, find_event, store_event, claim, claim_found, reclaim, mark,
  mark_found, process, fail, conclude, run_claimed, stripe_webhook, WebhookEvent, Reply, handle,
}

pub find_event_id :
    (id : String) (es : List ProcessedEvent) (row : ProcessedEvent)
    → find_event id es ≡ some row
    → row.event_id ≡ id
unfolding find_event
find_event_id id [] row h = cc
find_event_id id (e ∷ es) row h = ground (arith, eq_iff e.event_id id, find_event_id id es row)

pub find_event-store_event :
    (row : ProcessedEvent) (es : List ProcessedEvent)
    → find_event row.event_id (store_event row es) ≡ some row
unfolding find_event store_event
find_event-store_event row [] = rw (eq_refl row.event_id)
find_event-store_event row (e ∷ es) = elim (Bool-cases (e.event_id == row.event_id)) [
  | inl same ↦ rw same (rw (eq_refl row.event_id))
  | inr other ↦ rw other (rw other (find_event-store_event row es))
]

module _ {R : Type 0} (settings : Settings) (stripe : BillingProvider R) where
  -- Where the database answers, a delivery of an event that is recorded as processed is answered
  -- `duplicate` and changes nothing.
  pub webhook_processed :
      (e : WebhookEvent) (w : World R) {row : ProcessedEvent}
      → w.db_up ≡ true
      → find_event e.event_id w.db.events ≡ some row
      → row.status ≡ processed
      → stripe_webhook settings stripe (signed e) w ≡ (ok duplicate, w)
  unfolding stripe_webhook claim claim_found reclaim run_claimed query ◌>>=◌
  webhook_processed e w up found done = rw (up, found) (rw done)

  fail_lem :
      (e : WebhookEvent) (w : World R) {row : ProcessedEvent}
      → w.db_up ≡ true
      → find_event e.event_id w.saved.events ≡ some row
      → let (r, w') = fail settings stripe e w in
        let failed_row : ProcessedEvent = record row {
          status = failed;
          error = true;
          completed_at = some w.now;
        } in
        (r ≡ err (http_error 500))
        × (w'.db ≡ w'.saved)
        × (w'.marks ≡ [])
        × (w'.saved ≡ record w.saved { events = store_event failed_row w.saved.events })
  unfolding fail mark mark_found query ◌>>=◌ commit rollback write_event
  fail_lem e w up found = rw (up, found) (refl, refl, refl, refl)

  fail-ne-ok :
      (e : WebhookEvent) (w w' : World R) (reply : Reply)
      → fail settings stripe e w ≡ (ok reply, w')
      → ⊥
  unfolding fail
  fail-ne-ok e w w' reply h =
      let (_, u, _, rest) = >>=-eq-ok (mark e.event_id failed true) _ (rollback w) h in
      let (_, v, _, last) = >>=-eq-ok commit _ u rest in cc

  -- When the `try` block of a claimed event raises, the database still answers and the claim's row
  -- is committed, the reply is a 500, the session holds exactly what has been committed, no invalidation mark is left, and what
  -- is committed is what was committed when the block raised, with the event recorded as failed.
  pub webhook_failure :
      (e : WebhookEvent) (w u v : World R) {x : Error} {row : ProcessedEvent}
      → claim e.event_id e.event_type w ≡ (ok true, u)
      → process settings stripe e u ≡ (err x, v)
      → v.db_up ≡ true
      → find_event e.event_id v.saved.events ≡ some row
      → let (r, w') = stripe_webhook settings stripe (signed e) w in
        let failed_row : ProcessedEvent = record row {
          status = failed;
          error = true;
          completed_at = some v.now;
        } in
        (r ≡ err (http_error 500))
        × (w'.db ≡ w'.saved)
        × (w'.marks ≡ [])
        × (w'.saved ≡ record v.saved { events = store_event failed_row v.saved.events })
  unfolding stripe_webhook run_claimed conclude ◌>>=◌
  webhook_failure e w u v claimed raised up found = rw claimed (rw raised (fail_lem e v up found))

  processed_commits :
      (e : WebhookEvent) (w w' : World R) (done : Bool)
      → process settings stripe e w ≡ (ok done, w')
      → (w'.db ≡ w'.saved) × (w'.marks ≡ [])
  unfolding process
  processed_commits e w w' done h =
      let (_, u, _, rest) = >>=-eq-ok (handle settings stripe e) _ w h in
      let (_, v, _, rest') = >>=-eq-ok (mark e.event_id processed false) _ u rest in
      let (_, z, committed, last) = >>=-eq-ok commit_and_invalidate _ v rest' in
      subst (λ (t : World R). (t.db ≡ t.saved) × (t.marks ≡ [])) (ap (λ p. p.1) last)
        (commit_and_invalidate_done v z committed)

  concluded_commits :
      (e : WebhookEvent) (p : Result Bool × World R) (w w' : World R) (reply : Reply)
      → process settings stripe e w ≡ p
      → conclude settings stripe e p ≡ (ok reply, w')
      → (w'.db ≡ w'.saved) × (w'.marks ≡ [])
  unfolding conclude
  concluded_commits e (ok done, v) w w' reply ran h =
      subst (λ (t : World R). (t.db ≡ t.saved) × (t.marks ≡ [])) (ap (λ p. p.1) h)
        (processed_commits e w v done ran)
  concluded_commits e (err x, v) w w' reply ran h = absurd (fail-ne-ok e v w' reply h)

  run_claimed_commits :
      (e : WebhookEvent) (b : Bool) (w w' : World R) (reply : Reply)
      → run_claimed settings stripe e b w ≡ (ok reply, w')
      → reply ≢ duplicate
      → (w'.db ≡ w'.saved) × (w'.marks ≡ [])
  unfolding run_claimed
  run_claimed_commits e false w w' reply h ne = absurd (ne (cc))
  run_claimed_commits e true w w' reply h ne = concluded_commits e _ w w' reply refl h

  -- After a delivery that is answered with success, and not as a duplicate, what the session sees is
  -- committed and no mark is left.
  pub webhook_success :
      (e : WebhookEvent) (w : World R) {w' : World R} {reply : Reply}
      → stripe_webhook settings stripe (signed e) w ≡ (ok reply, w')
      → reply ≢ duplicate
      → (w'.db ≡ w'.saved) × (w'.marks ≡ [])
  unfolding stripe_webhook
  webhook_success e w {w'} {reply} h ne =
      let (b, u, _, rest) = >>=-eq-ok (claim e.event_id e.event_type) _ w h in
      run_claimed_commits e b u w' reply rest ne
