-- ===== src/Webhooks/Retry.antt =====
-- app/routers/webhooks.py: a delivery that failed is taken up again.
use subscription_service.Prelude.{
  Bool, String, [], ap, false, if◌then◌else◌, refl, some, subst, sym, true, ℕ, ◌∙◌, ◌≡◌,
}
use subscription_service.Models.{ProcessedEvent, processing, failed}
use subscription_service.Settings.{Settings}
use subscription_service.Provider.{BillingProvider}
use subscription_service.Effects.{database_error, Error, ok, err, ◌>>=◌, continue}
use subscription_service.World.{World, Db}
use subscription_service.World.Session.{commit}
use subscription_service.World.Session.Commit.{query_up}
use subscription_service.Webhooks.{
  WebhookEvent, handled, ignored, signed, claim, claim_found, reclaim, write_event, find_event,
  store_event, process, conclude, run_claimed, stripe_webhook,
}
use subscription_service.Webhooks.Laws.{find_event_id, find_event-store_event, webhook_failure}

module _ {R : Type 0} where
  commit_up :
      (w : World R) → w.db_up ≡ true → commit w ≡ (ok tt, record w { saved = w.db; marks = [] })
  unfolding commit
  commit_up w up =
      ap
        (λ b. if b then (ok tt, record w { saved = w.db; marks = [] }) else (err database_error, w))
        up

  -- what claiming a known event leaves
  abbrev pub claimed_again : ProcessedEvent → World R → World R
  claimed_again row w =
      let again : ProcessedEvent = record row { status = processing; error = false } in
      let db' = record w.db { events = store_event again w.db.events } in
      record w { db = db'; saved = db'; marks = [] }

  reclaim_lem :
      (row : ProcessedEvent) (w : World R)
      → row.status ≡ failed
      → w.db_up ≡ true
      → reclaim row row.status w ≡ (ok true, claimed_again row w)
  unfolding reclaim write_event ◌>>=◌
  reclaim_lem row w fails up = rw fails (
      ap (λ p. continue p.0 (λ _ s. (ok true, s)) p.1)
        (commit_up
          (record w {
            db = record w.db {
              events = store_event (record row { status = processing; error = false }) w.db.events;
            };
          })
          up))

  claim_failed :
      (id type : String) (row : ProcessedEvent) (w : World R)
      → find_event id w.db.events ≡ some row
      → row.status ≡ failed
      → w.db_up ≡ true
      → claim id type w ≡ (ok true, claimed_again row w)
  unfolding claim claim_found ◌>>=◌
  claim_failed id type row w found fails up =
      rw (query_up (λ db. find_event id db.events) w up) (rw found (reclaim_lem row w fails up))

module _ {R : Type 0} (settings : Settings) (stripe : BillingProvider R) where
  retried :
      (e : WebhookEvent) (row : ProcessedEvent) (w v : World R) {done : Bool}
      → find_event e.event_id w.db.events ≡ some row
      → row.status ≡ failed
      → w.db_up ≡ true
      → process settings stripe e (claimed_again row w) ≡ (ok done, v)
      → stripe_webhook settings stripe (signed e) w ≡ (ok (if done then handled else ignored), v)
  unfolding stripe_webhook run_claimed conclude ◌>>=◌
  retried e row w v found fails up ran =
      rw (claim_failed e.event_id e.event_type row w found fails up) (rw ran refl)

  -- the event of a delivery, recorded as failed
  abbrev pub failed_row : ProcessedEvent → World R → ProcessedEvent
  failed_row row v = record row { status = failed; error = true; completed_at = some v.now }

  -- what a delivery left, at a later time, with Stripe in any state, when the database answers
  abbrev pub afterwards : WebhookEvent → World R → ℕ → R → World R
  afterwards e w later r = record (stripe_webhook settings stripe (signed e) w).1 {
    now = later;
    remote = r;
    db_up = true;
  }

  -- After a delivery whose handling raised, where the database answered and the claim's row was
  -- committed, a later delivery of the event, at any time and in any state of Stripe, is taken up
  -- again: where the database answers then and the handling goes through, it is answered with
  -- success and not as a duplicate.
  pub webhook_redelivered :
      (e : WebhookEvent) (w u v : World R) {x : Error} {row : ProcessedEvent} (later : ℕ) (r : R)
      {done : Bool} {v' : World R}
      → claim e.event_id e.event_type w ≡ (ok true, u)
      → process settings stripe e u ≡ (err x, v)
      → v.db_up ≡ true
      → find_event e.event_id v.saved.events ≡ some row
      → process settings stripe e (claimed_again (failed_row row v) (afterwards e w later r))
        ≡ (ok done, v')
      → stripe_webhook settings stripe (signed e) (afterwards e w later r)
        ≡ (ok (if done then handled else ignored), v')
  webhook_redelivered e w u v {row = row} later r {v' = v'} claimed raised up found ran =
      let (_, same, _, saved) = webhook_failure settings stripe e w u v claimed raised up found in
      let named = find_event_id e.event_id v.saved.events row found in
      let kept =
        subst
          (λ id.
            find_event id (store_event (failed_row row v) v.saved.events) ≡ some (failed_row row v))
          named (find_event-store_event (failed_row row v) v.saved.events) in
      retried e (failed_row row v) (afterwards e w later r) v'
        (subst (λ (d : Db). find_event e.event_id d.events ≡ some (failed_row row v))
          (sym (same ∙ saved)) kept)
        refl refl ran
