-- ===== src/Jobs/Reconcile/Walk/Pages.antt =====
-- app/jobs/reconcile.py: the loop over the pages ends, and visits every subscription.
use subscription_service.Effects.{ok, Result, Exec}
use subscription_service.Jobs.Reconcile.Notify.{notify-checked, notify}
use subscription_service.Prelude.{
  Bool, List, Option, String, [], ap, arith, false, if◌then◌else◌, length, length-append,
  length-map, map, last, none, refl, some, suc, true, zero, ℕ, ◌++◌, ◌+◌, ◌<◌, ◌∙◌, ◌∷◌, ◌≡◌,
}
use subscription_service.World.{World}
use subscription_service.World.Session.{provider_call}
use subscription_service.Settings.{Settings}
use subscription_service.Provider.{BillingProvider, RemoteSubscription, SubscriptionPage}
use subscription_service.Jobs.Reconcile.Report.{Run, ReconcileReport, on_world, empty_report}
use subscription_service.Jobs.Reconcile.{check_items}
use subscription_service.Jobs.Reconcile.Counts.{check_items-checked}
use subscription_service.Jobs.Reconcile.Walk.{
  walk, walk_page, walk_items, last_id, finish, reconcile,
}

-- a page lists the next of the subscriptions, and all of them where it says that no more follow
abbrev pub IsNext :
    (Option String → List String) → List String → List RemoteSubscription → Bool → Type 0
IsNext rest left [] more = left ≡ []
IsNext rest left (remote ∷ items) more =
    left
    ≡ map (λ s. s.id) (remote ∷ items)
      ++ (if more then rest (last (map (λ s. s.id) (remote ∷ items))) else [])

-- Stripe's documented pagination: every call is answered, with the subscriptions after the cursor
pub record IsPaged {R : Type 0} (stripe : BillingProvider R) (rest : Option String → List String)
    : Type 0 where
  pub answers :
      (after : Option String) (r : R)
      → (page : SubscriptionPage) × (r' : R) × (stripe.list_subscriptions_page after r
          ≡ (ok page, r'))
        × IsNext rest (rest after) page.items page.has_more

module _ {R : Type 0} (settings : Settings) (stripe : BillingProvider R)
    (missing : List String → Option (List String)) (dry_run : Bool)
    (rest : Option String → List String) where
  -- the walk ends, with so many more subscriptions checked
  abbrev Visits : ℕ → Run R → Option (Result (Unit {0}) × Run R) → Type 0
  Visits n run end =
      (run' : Run R) × (end ≡ some (ok tt, run')) × (run'.report.checked ≡ run.report.checked + n)

  last_items :
      (items : List RemoteSubscription) (run : Run R) (left : List String)
      → left ≡ map (λ s. s.id) items ++ []
      → (check_items settings stripe missing dry_run items run).report.checked
        ≡ run.report.checked + length left
  last_items items run left h = rw h (
      omega (
        arith,
        check_items-checked settings stripe missing dry_run items run,
        length-append (map (λ s. s.id) items) [],
        length-map (λ (s : RemoteSubscription). s.id) items,
      ))

  -- the cursor of the next page is the last identifier of this one
  last_id-last :
      (remote : RemoteSubscription) (items : List RemoteSubscription)
      → last (map (λ (s : RemoteSubscription). s.id) (remote ∷ items)) ≡ some (last_id remote items)
  unfolding last_id
  last_id-last remote [] = refl
  last_id-last remote (next ∷ items) = last_id-last next items

  walk_items-Visits :
      (next : String → Run R → Option (Result (Unit {0}) × Run R)) (fuel : ℕ)
      (items : List RemoteSubscription) (more : Bool) (left : List String) (run : Run R)
      → IsNext rest left items more
      → length left < suc fuel
      → ((last : String) (run' : Run R)
          → length (rest (some last)) < fuel
          → Visits (length (rest (some last))) run' (next last run'))
      → Visits (length left) run (walk_items settings stripe missing dry_run next items more run)
  unfolding walk_items
  walk_items-Visits next fuel [] more left run h enough k = (run, refl, rw h (omega arith))
  walk_items-Visits next fuel (remote ∷ items) false left run h enough k = (
    check_items settings stripe missing dry_run (remote ∷ items) run,
    refl,
    last_items (remote ∷ items) run left h,
  )
  walk_items-Visits next fuel (remote ∷ items) true left run h enough k =
      let page = remote ∷ items in
      let tail = rest (some (last_id remote items)) in
      let checked = check_items settings stripe missing dry_run page run in
      let next_page =
        h
        ∙ ap (λ l. map (λ (s : RemoteSubscription). s.id) page ++ rest l)
            (last_id-last remote items) in
      let size =
        ap length next_page ∙ length-append (map (λ (s : RemoteSubscription). s.id) page) tail in
      let same = length-map (λ (s : RemoteSubscription). s.id) page in
      let (run', ended, count) =
        k (last_id remote items) checked (omega (arith, size, same, enough)) in
      (
        run',
        ended,
        omega (
          arith,
          count,
          size,
          same,
          check_items-checked settings stripe missing dry_run page run,
        ),
      )

  walk-Visits :
      IsPaged stripe rest
      → (fuel : ℕ) (after : Option String) (run : Run R) → length (rest after) < fuel
      → Visits (length (rest after)) run (walk settings stripe missing dry_run fuel after run)
  unfolding walk walk_page on_world provider_call
  walk-Visits paged zero after run enough = absurd (omega (arith, enough))
  walk-Visits paged (suc fuel) after run enough =
      let (page, r', answered, follows) = paged.answers after run.world.remote in
      rw answered (
        walk_items-Visits (λ last run'. walk settings stripe missing dry_run fuel (some last) run')
          fuel page.items page.has_more (rest after)
          (record run { world = record run.world { remote = r' } }) follows enough
          λ last run' enough'. walk-Visits paged fuel (some last) run' enough')

  told-checked :
      (b : Bool) (notifier : Option (String → String → Exec R (Unit {0}))) (run : Run R)
      → (if b then run else notify settings stripe notifier run).report.checked ≡ run.report.checked
  told-checked true notifier run = refl
  told-checked false notifier run = notify-checked settings stripe notifier run

  finish-checked :
      (notifier : Option (String → String → Exec R (Unit {0}))) (run : Run R)
      → (report : ReconcileReport) × (w' : World R) × (finish settings stripe missing dry_run
            notifier
            (ok tt, run)
          ≡ (ok report, w'))
        × (report.checked ≡ run.report.checked)
  unfolding finish
  finish-checked notifier run = (_, _, refl, told-checked dry_run notifier run)

  -- Where Stripe answers every call for a page with the subscriptions that follow the cursor, a run
  -- with more fuel than there are subscriptions ends with a report, in which every one of them is
  -- counted as checked, whatever the check of each of them did.
  pub reconcile-visits :
      IsPaged stripe rest
      → (fuel : ℕ) (notifier : Option (String → String → Exec R (Unit {0}))) (w : World R)
      → length (rest none) < fuel
      → (report : ReconcileReport) × (w' : World R) × (reconcile settings stripe missing dry_run
            fuel notifier w
          ≡ some (ok report, w'))
        × (report.checked ≡ length (rest none))
  unfolding reconcile
  reconcile-visits paged fuel notifier w enough =
      let start : Run R = record { report = empty_report; world = w } in
      let (run', ended, count) = walk-Visits paged fuel none start enough in
      let (report, w', done, kept) = finish-checked notifier run' in
      (report, w', rw ended (ap some done), omega (arith, kept, count))
