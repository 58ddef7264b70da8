-- ===== src/Webhooks/Keeps.antt =====
-- app/routers/webhooks.py under the invariant of the service.
use subscription_service.Provider.{BillingProvider}
use subscription_service.World.Session.{rollback, commit}
use subscription_service.Service.Calm.{
  flush_row-Calm, commit_and_invalidate-Calm, commit-Calm, provider_call-Calm, sync-Calm,
  raise-Calm, record_audit-Calm, Triple-fact, query-Calm, find_customer-Calm, rollback-IsCalm,
  Calm-of, Found, pure-Calm, IsCalm, Calm,
}
use subscription_service.Settings.{Settings}
use subscription_service.Models.{
  failed, processed, processing, Subscription, EventStatus, ProcessedEvent,
}
use subscription_service.Prelude.{
  Bool, Bool-cases, Option, String, false, inl, inr, is_some, none, refl, some, true,
}
use subscription_service.Effects.{err, ok, Result, ◌>>◌, pure}
use subscription_service.Effects.Triple.{Triple-keeps, Triple-end, Triple-bind, Triple-if}
use subscription_service.World.{World}
use subscription_service.Webhooks.{
  WebhookEvent, Delivery, unsigned, forged, signed, write_event, event_rivals_commit, reclaim,
  insert_event, claim_found, claim, mark_found, mark, dispute_row, mark_disputed, sync_event,
  dispute_event, dispute_customer, handle, process, fail, conclude, run_claimed, stripe_webhook,
  find_event, is_subscription_event, is_dispute_event,
}

module _ {R : Type 0} where
  write_event-Calm : (row : ProcessedEvent) → Calm (write_event {R = R} row)
  unfolding write_event
  write_event-Calm row = Calm-of (write_event row) (λ w. (refl, refl, refl))

  written-Calm : (row : ProcessedEvent) → Calm (write_event {R = R} row >> (commit >> pure true))
  written-Calm row =
      Triple-bind _ _ (write_event-Calm row) λ _. Triple-bind _ _ commit-Calm λ _. pure-Calm true

  reclaim-Calm : (row : ProcessedEvent) (status : EventStatus) → Calm (reclaim {R = R} row status)
  unfolding reclaim
  reclaim-Calm row processing = written-Calm _
  reclaim-Calm row processed = pure-Calm false
  reclaim-Calm row failed = written-Calm _

  event_rivals_commit-IsCalm : (w : World R) → IsCalm w → IsCalm (event_rivals_commit w)
  unfolding event_rivals_commit
  event_rivals_commit-IsCalm w h = record {
    table = h.table;
    committed = h.committed;
    alone = h.alone;
  }

  insert_event-Calm : (row : ProcessedEvent) → Calm (insert_event {R = R} row)
  unfolding insert_event
  insert_event-Calm row = Triple-keeps IsCalm (insert_event row) λ w h.
      let w' = event_rivals_commit w in
      let h' = event_rivals_commit-IsCalm w h in
      elim (Bool-cases (is_some (find_event row.event_id w'.db.events))) [
        | inl taken ↦ rw taken (rollback-IsCalm w' h')
        | inr new ↦ rw new (Triple-end IsCalm _ w' (written-Calm row) h')
      ]

  claim_found-Calm :
      (id type : String) (found : Option ProcessedEvent) → Calm (claim_found {R = R} id type found)
  unfolding claim_found
  claim_found-Calm id type none = insert_event-Calm _
  claim_found-Calm id type (some row) = reclaim-Calm row row.status

  claim-Calm : (id type : String) → Calm (claim {R = R} id type)
  unfolding claim
  claim-Calm id type = Triple-bind _ _ (query-Calm _) λ found. claim_found-Calm id type found

  mark_found-Calm :
      (status : EventStatus) (error : Bool) (found : Option ProcessedEvent)
      → Calm (mark_found {R = R} status error found)
  unfolding mark_found
  mark_found-Calm status error none = Triple-keeps IsCalm _ (λ w h. h)
  mark_found-Calm status error (some row) =
      Triple-keeps IsCalm _ (λ w h. Triple-end IsCalm _ w (write_event-Calm _) h)

  mark-Calm' :
      (id : String) (status : EventStatus) (error : Bool) → Calm (mark {R = R} id status error)
  unfolding mark
  mark-Calm' id status error =
      Triple-bind _ _ (query-Calm _) λ found. mark_found-Calm status error found

  dispute_row-Calm :
      (reason : String) (event : Option String) (found : Option Subscription)
      → Found found
      → Calm (dispute_row {R = R} reason event found)
  unfolding dispute_row
  dispute_row-Calm reason event none c = Triple-keeps IsCalm _ (λ w h. h)
  dispute_row-Calm reason event (some sub) c = Triple-keeps IsCalm _ λ w h.
      Triple-end IsCalm _ w
        (Triple-bind _ _ (record_audit-Calm _) λ _.
          Triple-bind _ _
            (flush_row-Calm _ (record { dunning = (c sub refl).dunning; paid = (c sub refl).paid }))
            λ _. pure-Calm _)
        h

  mark_disputed-Calm :
      (customer : String) (event : Option String) → Calm (mark_disputed {R = R} customer event)
  unfolding mark_disputed
  mark_disputed-Calm customer event =
      Triple-bind _ _ (find_customer-Calm customer)
        λ found. Triple-fact (dispute_row-Calm _ event found)

module _ {R : Type 0} (settings : Settings) (stripe : BillingProvider R) where
  sync_event-Calm :
      (e : WebhookEvent) (customer : Option String) → Calm (sync_event settings stripe e customer)
  unfolding sync_event
  sync_event-Calm e none = pure-Calm false
  sync_event-Calm e (some customer) =
      Triple-bind _ _ (sync-Calm settings stripe _ _ customer) λ _. pure-Calm true

  dispute_event-Calm :
      (e : WebhookEvent) (customer : Option String)
      → Calm (dispute_event settings stripe e customer)
  unfolding dispute_event
  dispute_event-Calm e none = pure-Calm false
  dispute_event-Calm e (some customer) =
      Triple-bind _ _ (mark_disputed-Calm customer _)
        λ _. Triple-bind _ _ (sync-Calm settings stripe _ _ customer) λ _. pure-Calm true

  dispute_customer-Calm :
      (customer charge : Option String) → Calm (dispute_customer settings stripe customer charge)
  unfolding dispute_customer
  dispute_customer-Calm (some customer) charge = pure-Calm _
  dispute_customer-Calm none none = pure-Calm none
  dispute_customer-Calm none (some charge) = provider_call-Calm _

  handle-Calm : (e : WebhookEvent) → Calm (handle settings stripe e)
  unfolding handle
  handle-Calm e =
      Triple-if (is_subscription_event e.event_type) _ _ (λ _. sync_event-Calm e _)
        λ _.
          Triple-if (is_dispute_event e.event_type) _ _
            (λ _. Triple-bind _ _ (dispute_customer-Calm _ _) λ customer. dispute_event-Calm e _)
            λ _. pure-Calm false

  process-Calm : (e : WebhookEvent) → Calm (process settings stripe e)
  unfolding process
  process-Calm e = Triple-bind _ _ (handle-Calm e) λ done.
      Triple-bind _ _ (mark-Calm' e.event_id _ _)
        λ _. Triple-bind _ _ commit_and_invalidate-Calm λ _. pure-Calm done

  fail-IsCalm : (e : WebhookEvent) (w : World R) → IsCalm w → IsCalm (fail settings stripe e w).1
  unfolding fail
  fail-IsCalm e w h =
      Triple-end IsCalm _ (rollback w)
        (Triple-bind _ _ (mark-Calm' e.event_id _ _)
          λ _. Triple-bind _ _ commit-Calm λ _. raise-Calm _)
        (rollback-IsCalm w h)

  conclude-IsCalm :
      (e : WebhookEvent) (r : Result Bool) (w : World R)
      → IsCalm w
      → IsCalm (conclude settings stripe e (r, w)).1
  unfolding conclude
  conclude-IsCalm e (ok done) w h = h
  conclude-IsCalm e (err x) w h = fail-IsCalm e w h

  run_claimed-Calm : (e : WebhookEvent) (b : Bool) → Calm (run_claimed settings stripe e b)
  unfolding run_claimed
  run_claimed-Calm e true =
      Triple-keeps IsCalm _ λ w h. conclude-IsCalm e _ _ (Triple-end IsCalm _ w (process-Calm e) h)
  run_claimed-Calm e false = Triple-keeps IsCalm _ (λ w h. h)

  pub stripe_webhook-Calm : (d : Delivery) → Calm (stripe_webhook settings stripe d)
  unfolding stripe_webhook
  stripe_webhook-Calm unsigned = raise-Calm _
  stripe_webhook-Calm forged = raise-Calm _
  stripe_webhook-Calm (signed e) =
      Triple-bind _ _ (claim-Calm e.event_id e.event_type) λ claimed. run_claimed-Calm e claimed
