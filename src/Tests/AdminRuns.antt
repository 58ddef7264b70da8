-- ===== src/Tests/AdminRuns.antt =====
-- The operations of support at work.
use subscription_service.Prelude.{[], none, refl, ◌∷◌, ◌≡◌, ◌≤◌}
use subscription_service.Plans.{Tier, tier_rank}
use subscription_service.Effects.{ok}
use subscription_service.Entitlements.{Entitlements}
use subscription_service.Entitlements.Read.{resolve_entitlements}
use subscription_service.Admin.{GrantOrder, new_grant, create_grant}
use subscription_service.Admin.Grants.{create_grant-read}
use subscription_service.Tests.Samples.{settings, world}

abbrev order : GrantOrder
order = record {
  user_id = "u1";
  tier = Tier.pro;
  reason = "apology";
  expires_at = none;
  created_by = "support";
}

create_grant-read_example :
    let (r, w') = create_grant "g1" order world in
    (r ≡ ok (new_grant "g1" order))
    × (w'.saved.grants ≡ new_grant "g1" order ∷ [])
    × ((e : Entitlements) × ((resolve_entitlements settings "u1" w').0 ≡ ok e)
        × (tier_rank Tier.pro ≤ tier_rank e.tier))
unfolding subscription_service.Entitlements.Resolve.unexpired
create_grant-read_example = create_grant-read settings "g1" order world refl refl refl refl
