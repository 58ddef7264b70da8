-- ===== src/Jobs/Reconcile/Notify.antt =====
-- app/jobs/reconcile.py: the mail about the orphans of a run and the marks that say it was sent.
-- `send` is the notifier (app/notify.py), which may raise; none where no mail is configured.
pub mod Keeps
pub mod Told
use subscription_service.Prelude.{
  refl, ◌≡◌, ◌≡◌, Bool, List, Option, String, [], eqb, if◌then◌else◌, is_some, length, none, not,
  present, some, ◌++◌, ◌∷◌,
}
use text.Mathlib.Text.{starts_with}
use Prim.Native.String.{◌++◌ as append}
use subscription_service.Effects.{Exec, Result, ok, err}
use subscription_service.World.{World}
use subscription_service.Decimal.{decimal}
use subscription_service.Settings.{Settings}
use subscription_service.Provider.{BillingProvider}
use subscription_service.World.Session.{provider_call}
use subscription_service.Timestamps.{iso_text}
use subscription_service.Jobs.Reconcile.Report.{Orphan, Run, notified_at}

-- an orphan that nobody has been told about
unfoldable pub is_pending : Orphan → Bool
is_pending o = not (is_some (present o.notified))

unfoldable pub pending : List Orphan → List Orphan
pending [] = []
pending (o ∷ os) = if is_pending o then o ∷ pending os else pending os

unfoldable pub ids_of : List Orphan → List String
ids_of [] = []
ids_of (o ∷ os) = o.stripe_subscription_id ∷ ids_of os

-- texts one after the other, and lines with a line break between them
texts : List String → String
texts [] = ""
texts (t ∷ ts) = append t (texts ts)

join_lines : List String → String
join_lines [] = ""
join_lines (l ∷ []) = l
join_lines (l ∷ ls) = append l (append "\n" (join_lines ls))

-- an f-string of a text that may be none
or_none : Option String → String
or_none none = "None"
or_none (some t) = t

orphan_lines : String → Orphan → List String
unfolding texts or_none
orphan_lines dashboard o =
    let ending = if o.cancel_at_period_end then "cancels at period end" else "renews" in
    texts ("- " ∷ o.stripe_subscription_id ∷ ": " ∷ o.status ∷ ", " ∷ ending ∷ [])
    ∷ texts (
        "  customer "
        ∷ o.stripe_customer_id
        ∷ ", user "
        ∷ o.user_id
        ∷ ", found "
        ∷ or_none o.orphaned
        ∷ [])
    ∷ texts ("  " ∷ dashboard ∷ "subscriptions/" ∷ o.stripe_subscription_id ∷ [])
    ∷ ""
    ∷ []

all_lines : String → List Orphan → List String
unfolding orphan_lines
all_lines dashboard [] = []
all_lines dashboard (o ∷ os) = orphan_lines dashboard o ++ all_lines dashboard os

-- `_orphan_email`: the subject and the body.
unfoldable pub orphan_email : Settings → List Orphan → String × String
unfolding texts join_lines all_lines
orphan_email settings orphans =
    let test_mode = starts_with settings.stripe_secret_key "sk_test_" in
    let n = length orphans in
    let are = if eqb n 1 then " is" else "s are" in
    let dashboard = append "https://dashboard.stripe.com/" (if test_mode then "test/" else "") in
    let subject = texts (
      "[subscription-service/"
      ∷ settings.environment
      ∷ "] "
      ∷ decimal n
      ∷ " subscription"
      ∷ are
      ∷ " still charging a deleted account"
      ∷ []) in
    let intro =
      "Stripe can still charge the subscriptions below, but the Supabase account"
      ∷ "each belongs to no longer exists, so nobody can sign in to use or cancel it." ∷ ""
      ∷ "Decide for each: cancel it, refund it, or restore the account." ∷ "" ∷ [] in
    let outro =
      "Each is marked in Stripe (metadata orphaned_at, orphan_notified_at), and"
      ∷ "this is the only email about it. The nightly reconcile log keeps listing"
      ∷ "it under ORPHANED until it ends." ∷ [] in
    (subject, join_lines (intro ++ all_lines dashboard orphans ++ outro))

-- the pending orphans with the mark
unfoldable pub told : String → List Orphan → List Orphan
told sent [] = []
told sent (o ∷ os) = (if is_pending o then record o { notified = some sent } else o) ∷ told sent os

module _ {R : Type 0} (settings : Settings) (stripe : BillingProvider R) where
  -- the marks in Stripe; one that fails is left out, and the loop goes on
  unfoldable pub mark_notified : String → List String → World R → World R
  mark_notified sent [] w = w
  mark_notified sent (id ∷ ids) w =
      mark_notified sent ids
        (provider_call (stripe.set_subscription_metadata id ((notified_at, sent) ∷ [])) w).1

  unsent : Run R → Run R
  unsent run = record run {
    report = record run.report { unnotified = ids_of (pending run.report.orphaned) };
  }

  -- the message was accepted
  sent_all : Run R → Run R
  sent_all run =
      let sent = iso_text run.world.now in
      let ids = ids_of (pending run.report.orphaned) in
      record {
        report = record run.report {
          orphaned = told sent run.report.orphaned;
          notified = run.report.notified ++ ids;
        };
        world = mark_notified sent ids run.world;
      }

  after_send : Run R → Result (Unit {0}) × World R → Run R
  unfolding unsent sent_all
  after_send run (ok _, w) = sent_all (record run { world = w })
  after_send run (err e, w) = unsent (record run { world = w })

  notify_pending : List Orphan → Option (String → String → Exec R (Unit {0})) → Run R → Run R
  unfolding after_send
  notify_pending [] notifier run = run
  notify_pending (o ∷ os) none run = unsent run
  notify_pending (o ∷ os) (some send) run =
      let (subject, body) = orphan_email settings (o ∷ os) in
      after_send run (provider_call (send subject body) run.world)

  -- `_notify`
  unfoldable pub notify : Option (String → String → Exec R (Unit {0})) → Run R → Run R
  unfolding notify_pending
  notify notifier run = notify_pending (pending run.report.orphaned) notifier run

  after_send-checked :
      (run : Run R) (r : Result (Unit {0})) (w : World R)
      → (after_send run (r, w)).report.checked ≡ run.report.checked
  unfolding after_send unsent sent_all
  after_send-checked run (ok _) w = refl
  after_send-checked run (err e) w = refl

  notify_pending-checked :
      (os : List Orphan) (notifier : Option (String → String → Exec R (Unit {0}))) (run : Run R)
      → (notify_pending os notifier run).report.checked ≡ run.report.checked
  unfolding notify_pending unsent
  notify_pending-checked [] notifier run = refl
  notify_pending-checked (o ∷ os) none run = refl
  notify_pending-checked (o ∷ os) (some send) run = after_send-checked run _ _

  -- the mail changes nothing about what was counted
  pub notify-checked :
      (notifier : Option (String → String → Exec R (Unit {0}))) (run : Run R)
      → (notify notifier run).report.checked ≡ run.report.checked
  unfolding notify
  notify-checked notifier run = notify_pending-checked (pending run.report.orphaned) notifier run
