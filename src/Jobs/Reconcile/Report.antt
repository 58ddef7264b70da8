-- ===== src/Jobs/Reconcile/Report.antt =====
-- app/jobs/reconcile.py: the report of a run, and the world of a run, which carries it.
use subscription_service.Plans.{Tier}
use subscription_service.Models.{SubscriptionStatus}
use subscription_service.Effects.{Exec, ok}
use subscription_service.World.{World}
use subscription_service.Prelude.{Bool, List, Option, String, [], ℕ, ◌∷◌}

abbrev pub notified_at : String
notified_at = "orphan_notified_at"

pub record Orphan : Type 0 where
  pub user_id : String
  pub stripe_customer_id : String
  pub stripe_subscription_id : String
  pub status : String
  pub cancel_at_period_end : Bool
  pub orphaned : Option String
  pub notified : Option String

pub record Mismatch : Type 0 where
  pub user_id : String
  pub stripe_customer_id : String
  pub local_tier : Tier
  pub local_status : SubscriptionStatus
  pub stripe_tier : Tier
  pub stripe_status : String

pub record ReconcileReport : Type 0 where
  pub checked : ℕ
  pub mismatched : ℕ
  pub repaired : ℕ
  pub failed : List String
  pub ignored : ℕ
  pub unknown_customers : List String
  pub details : List Mismatch
  pub orphaned : List Orphan
  pub orphaned_closed : ℕ
  pub notified : List String
  pub unnotified : List String

-- the report at the start of a run
abbrev pub empty_report : ReconcileReport
empty_report = record {
  checked = 0;
  mismatched = 0;
  repaired = 0;
  failed = [];
  ignored = 0;
  unknown_customers = [];
  details = [];
  orphaned = [];
  orphaned_closed = 0;
  notified = [];
  unnotified = [];
}

-- the world of a run, with the report that it fills
pub record Run (R : Type 0) : Type 0 where
  pub report : ReconcileReport
  pub world : World R

module _ {R : Type 0} where
  -- an action on the world, and one on the report
  unfoldable pub on_world : {A : Type 0} → Exec (World R) A → Exec (Run R) A
  on_world m run = let (r, w') = m run.world in (r, record run { world = w' })

  unfoldable pub tally : (ReconcileReport → ReconcileReport) → Exec (Run R) (Unit {0})
  tally f run = (ok tt, record run { report = f run.report })

unfoldable pub code_of : List String → List String → ℕ
code_of [] [] = 0
code_of [] (id ∷ ids) = 1
code_of (customer ∷ customers) unnotified = 1

-- the exit code of `main`
unfoldable pub exit_code : ReconcileReport → ℕ
unfolding code_of
exit_code report = code_of report.failed report.unnotified
