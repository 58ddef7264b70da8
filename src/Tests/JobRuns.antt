-- ===== src/Tests/JobRuns.antt =====
-- The jobs at work.
use subscription_service.Prelude.{
  IsIn, sym, ◌∙◌, ap, inl, inr, Bool, List, Option, String, [], arith, false, if◌then◌else◌, none,
  refl, some, true, ◌==◌, ◌∷◌, ◌≡◌,
}
use subscription_service.Plans.{Tier}
use subscription_service.Models.{SubscriptionStatus, Subscription, SubscriptionAudit}
use subscription_service.Effects.{ok}
use subscription_service.World.{World}
use subscription_service.Provider.{BillingProvider, RemoteSubscription, SubscriptionPage}
use subscription_service.Jobs.ExpireGrace.{expire_grace_windows, expiry_row}
use subscription_service.Jobs.ExpireGrace.Once.{HasDue, expire_grace_windows_once}
use subscription_service.Jobs.ExpireGrace.Due.{IsDue}
use mathlib.Core.Logic.{◌↔◌}
use subscription_service.Jobs.Reconcile.{check_items}
use subscription_service.Jobs.Reconcile.Report.{Run, Orphan, ReconcileReport, empty_report}
use subscription_service.Jobs.Reconcile.Isolation.{IsSettled, check_items-IsSettled}
use subscription_service.Jobs.Reconcile.ReadOnly.{IsReadOnly}
use subscription_service.Jobs.Reconcile.Walk.{reconcile}
use subscription_service.Jobs.Reconcile.Walk.Pages.{IsNext, IsPaged, reconcile-visits}
use subscription_service.Jobs.Reconcile.Walk.DryRun.{reconcile_dry_run}
use subscription_service.Tests.Samples.{settings, stripe, world, row, db, paying, foreign}

-- two subscriptions, one to a page
abbrev second_sub : RemoteSubscription
second_sub = record foreign { id = "sub_2"; customer_id = some "cus_2" }

abbrev page_after : Option String → SubscriptionPage
page_after none = record { items = paying ∷ []; has_more = true }
page_after (some id) = record {
  items = if id == "sub_1" then second_sub ∷ [] else [];
  has_more = false;
}

abbrev paged : BillingProvider (Option RemoteSubscription)
paged = record stripe { list_subscriptions_page = λ after r. (ok (page_after after), r) }

abbrev ids_after : Option String → List String
ids_after none = "sub_1" ∷ "sub_2" ∷ []
ids_after (some id) = if id == "sub_1" then "sub_2" ∷ [] else []

-- the second subscription is the last one, after the first
last_page :
    (b : Bool)
    → IsNext ids_after (if b then "sub_2" ∷ [] else []) (if b then second_sub ∷ [] else []) false
last_page true = refl
last_page false = refl

paged-IsPaged : IsPaged paged ids_after
unfolding subscription_service.Jobs.Reconcile.Walk.last_id
paged-IsPaged = record { answers = answered }
  where
    answered :
        (after : Option String) (r : Option RemoteSubscription)
        → (page : SubscriptionPage) × (r' : Option RemoteSubscription)
          × (paged.list_subscriptions_page after r ≡ (ok page, r'))
          × IsNext ids_after (ids_after after) page.items page.has_more
    answered none r = (page_after none, r, refl, refl)
    answered (some id) r = (page_after (some id), r, refl, last_page (id == "sub_1"))

reconcile-visits_example :
    (report : ReconcileReport) × (w' : World (Option RemoteSubscription)) × (reconcile settings
        paged
        (λ ids. some [])
        false
        3
        none
        world
      ≡ some (ok report, w'))
    × (report.checked ≡ 2)
reconcile-visits_example =
    reconcile-visits settings paged (λ ids. some []) false ids_after paged-IsPaged 3 none world
      (omega arith)

paged-IsReadOnly : IsReadOnly paged
paged-IsReadOnly = record { listing = λ after r. refl; customer = λ id r. refl }

-- a dry run over both pages
dry :
    (report : ReconcileReport) × (w' : World (Option RemoteSubscription)) × (reconcile settings
        paged
        (λ ids. some [])
        true
        3
        none
        world
      ≡ some (ok report, w'))
    × (report.checked ≡ 2)
dry =
    reconcile-visits settings paged (λ ids. some []) true ids_after paged-IsPaged 3 none world
      (omega arith)

reconcile_dry_run_example : dry.1 ≡ world
reconcile_dry_run_example =
    reconcile_dry_run settings paged (λ ids. some []) 3 none world paged-IsReadOnly refl refl dry.2

check_items-IsSettled_example : IsSettled (
    check_items settings stripe
      (λ ids. some [])
      false
      (paying ∷ second_sub ∷ [])
      (record { report = empty_report; world = world }))
check_items-IsSettled_example =
    check_items-IsSettled settings stripe (λ ids. some []) false (paying ∷ second_sub ∷ [])
      (record { report = empty_report; world = world })
      (record { committed = refl; unmarked = refl })

-- a row whose window closed
abbrev late_row : Subscription
late_row = record row {
  tier = Tier.plus;
  status = SubscriptionStatus.past_due;
  past_due_since = some 1_000_000;
}

abbrev late_world : World (Option RemoteSubscription)
late_world = record world {
  db = record db { subscriptions = late_row ∷ [] };
  saved = record db { subscriptions = late_row ∷ [] };
  now = 900_000_000_000;
}

-- the night after the first run
abbrev next_night : World (Option RemoteSubscription)
next_night = record late_world {
  db = record (expire_grace_windows settings late_world).1.db { subscriptions = late_row ∷ [] };
  now = 990_000_000_000;
}

since_of : (sub : Subscription) → IsIn sub (late_row ∷ []) → sub.past_due_since ≡ some 1_000_000
since_of sub (inl same) = ap (λ (s : Subscription). s.past_due_since) same
since_of sub (inr h) = absurd h

expire_grace_windows_once_example :
    let (r, w') = expire_grace_windows settings late_world in
    (users : List String) × (later : List String) × (rows : List SubscriptionAudit) × (r ≡ ok users)
    × ((u : String) → IsIn u users ↔ HasDue settings late_world u)
    × (w'.db ≡ record late_world.db { audit = rows })
    × ((sub : Subscription)
        → IsIn sub (late_row ∷ [])
        → IsDue settings 900_000_000_000 [] sub
        → IsIn (expiry_row 900_000_000_000 sub) w'.saved.audit)
    × ((expire_grace_windows settings next_night).0 ≡ ok later)
    × ¬ (IsIn "u1" users × IsIn "u1" later)
expire_grace_windows_once_example =
    expire_grace_windows_once settings late_world next_night "u1" refl refl (omega arith)
      (λ row h. h)
      (λ sub sub' listed listed' mine mine'. since_of sub' listed' ∙ sym (since_of sub listed))

-- an orphan that nobody has been told about, and a mail that is not delivered
abbrev lost : Orphan
lost = record {
  user_id = "u1";
  stripe_customer_id = "cus_1";
  stripe_subscription_id = "sub_1";
  status = "active";
  cancel_at_period_end = false;
  orphaned = some "2026-01-01";
  notified = none;
}

abbrev lost_run : Run (Option RemoteSubscription)
lost_run = record { report = record empty_report { orphaned = lost ∷ [] }; world = world }
