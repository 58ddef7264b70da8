-- ===== src/Jobs/Reconcile/Notify/Told.antt =====
-- app/jobs/reconcile.py: no orphan is dropped in silence.
use subscription_service.Prelude.{All, List, is_some, true, ◌≡◌, ◌⊎◌}
use subscription_service.World.{World}
use subscription_service.Settings.{Settings}
use subscription_service.Jobs.Reconcile.Report.{Orphan, ReconcileReport, exit_code}
use subscription_service.Jobs.Reconcile.Notify.{pending, ids_of}

-- somebody has been told about the orphan
abbrev pub IsTold : Orphan → Type 0
IsTold o = is_some o.notified ≡ true

-- everybody of these is told about, or the job fails and lists those who are not
abbrev pub ToldOrListed : List Orphan → ReconcileReport → Type 0
ToldOrListed os report =
    All IsTold report.orphaned
    ⊎ ((report.unnotified ≡ ids_of (pending os)) × (exit_code report ≡ 1))
