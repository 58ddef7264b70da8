-- ===== src/Entitlements.antt =====
-- app/services/entitlements.py: the value that the read path answers with.
pub mod Resolve
pub mod Read
use subscription_service.Prelude.{ℕ, String, Bool, Option, List, find, ◌==◌}
use subscription_service.Plans.{Tier, Features, Quota}
use subscription_service.Models.{SubscriptionStatus}

pub data Source : Type 0 where
  subscription grant default : Source

pub record Entitlements : Type 0 where
  pub user_id : String
  pub tier : Tier
  pub display_name : String
  pub status : SubscriptionStatus
  pub source : Source
  pub features : Features
  pub quotas : List Quota
  pub current_period_start : Option ℕ
  pub current_period_end : Option ℕ
  pub cancel_at_period_end : Bool
  pub grace_ends_at : Option ℕ

-- `Entitlements.quota`
unfoldable pub quota_for : String → Entitlements → Option Quota
quota_for key e = find (λ q. q.key == key) e.quotas
