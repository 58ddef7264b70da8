-- ===== src/Tests.antt =====
-- Runs of the model on small inputs, and the theorems applied at them.
pub mod Samples
mod SyncRuns
mod ReadRuns
mod StateRuns
mod QuotaRuns
mod RateRuns
mod WebhookRuns
mod PlanRuns
mod StripeRuns
mod JobRuns
mod AdminRuns
mod ServiceRuns
mod CacheRuns
