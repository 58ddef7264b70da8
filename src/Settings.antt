-- ===== src/Settings.antt =====
-- app/config.py: the settings that the modelled code reads.
use subscription_service.Prelude.{ℕ, String, Bool, ◌*◌, Dict}

pub record Settings : Type 0 where
  pub stripe_price_ids : Dict String
  pub dunning_grace_days : ℕ
  pub entitlement_cache_ttl : ℕ
  pub trial_period_days : ℕ
  pub contact_sales_per_hour : ℕ
  pub contact_sales_per_day : ℕ
  pub trust_proxy_headers : Bool
  pub automatic_tax : Bool
  pub stripe_portal_configuration_id : String
  pub checkout_success_url : String
  pub checkout_cancel_url : String
  pub portal_return_url : String
  pub environment : String
  pub stripe_secret_key : String

-- a second, in the microseconds of the model's times
abbrev pub second : ℕ
second = 1_000_000

abbrev pub one_day : ℕ
one_day = 86_400_000_000

-- `Settings.dunning_grace`
abbrev pub dunning_grace : Settings → ℕ
dunning_grace settings = settings.dunning_grace_days * one_day
