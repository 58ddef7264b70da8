-- ===== src/Admin/Grants.antt =====
-- app/routers/admin.py: a grant and the next read of its user.
use subscription_service.Prelude.{
  Bool-cases, List, String, [], any, ap, eq_refl, false, inl, inr, none, refl, some, subst, true, ℕ,
  ◌++◌, ◌==◌, ◌∷◌, ◌≡◌, ◌≤◌,
}
use subscription_service.Plans.{Tier, same_tier, tier_rank}
use subscription_service.Models.{EntitlementGrant}
use subscription_service.Settings.{Settings}
use subscription_service.Effects.{pure, Exec, ok, pure, ◌>>=◌}
use subscription_service.World.{World}
use subscription_service.World.Session.{
  add_mark, record_audit, mark_entitlements_stale, commit_and_invalidate,
}
use subscription_service.World.Session.Commit.{query_up, commit_and_invalidate_lem}
use subscription_service.Entitlements.{Entitlements}
use subscription_service.Entitlements.Read.{resolve_entitlements}
use subscription_service.Entitlements.Read.Laws.{read_after_commit}
use subscription_service.Entitlements.Resolve.{is_active, unexpired, resolve_from}
use subscription_service.Entitlements.Resolve.Tiers.{NoneAbove}
use subscription_service.Entitlements.Resolve.Laws.{resolve_from_highest}
use subscription_service.Admin.{GrantOrder, new_grant, put_grants, create_grant, grant_audit}

any-add_mark : (u : String) (ms : List String) → any (λ m. m == u) (add_mark u ms) ≡ true
unfolding add_mark
any-add_mark u [] = rw (eq_refl u) refl
any-add_mark u (m ∷ ms) = elim (Bool-cases (m == u)) [
  | inl same ↦ rw same (rw same refl)
  | inr other ↦ rw other (rw other (any-add_mark u ms))
]

NoneAbove-last :
    (now : ℕ) (user_id : String) (t : Tier) (gs : List EntitlementGrant) (g : EntitlementGrant)
    → NoneAbove now user_id t (gs ++ g ∷ [])
    → is_active now user_id g ≡ true
    → tier_rank g.tier ≤ tier_rank t
NoneAbove-last now user_id t [] g (h, _) active = h active
NoneAbove-last now user_id t (g' ∷ gs) g (_, h) active = NoneAbove-last now user_id t gs g h active

new_grant-active :
    (now : ℕ) (id : String) (order : GrantOrder)
    → unexpired now order.expires_at ≡ true
    → is_active now order.user_id (new_grant id order) ≡ true
unfolding is_active new_grant
new_grant-active now id order h = rw (eq_refl order.user_id, h) refl

then_pure :
    {S A B : Type 0} (m : Exec S A) (b : B) (s : S) {a : A}
    → (m s).0 ≡ ok a
    → (m >>= λ _. pure b) s ≡ (ok b, (m s).1)
unfolding ◌>>=◌
then_pure m b s h = rw h refl

module _ {R : Type 0} where
  -- the world that the operation commits
  abbrev granted : String → GrantOrder → World R → World R
  granted id order w = record w {
    db = record w.db {
      grants = w.db.grants ++ new_grant id order ∷ [];
      audit =
          w.db.audit
          ++ grant_audit w.now order.user_id none (some order.tier) "admin.grant_created" ∷ [];
    };
    marks = add_mark order.user_id w.marks;
  }

  create_grant_lem :
      (id : String) (order : GrantOrder) (w : World R)
      → w.db_up ≡ true
      → same_tier order.tier Tier.free ≡ false
      → create_grant id order w
        ≡ (ok (new_grant id order), (commit_and_invalidate (granted id order w)).1)
  unfolding create_grant put_grants record_audit mark_entitlements_stale ◌>>=◌
  create_grant_lem id order w up paid =
      let (done, _, _, _, _, _) = commit_and_invalidate_lem (granted id order w) up in
      rw paid (
        rw (query_up (λ db. db.grants) w up)
          (then_pure commit_and_invalidate (new_grant id order) _ done))

  -- Where the database and the cache answer, a grant of a tier above free that has not yet expired is committed, and
  -- the next read of its user answers a tier at least as high.
  pub create_grant-read :
      (settings : Settings) (id : String) (order : GrantOrder) (w : World R)
      → w.db_up ≡ true
      → w.cache_faults ≡ []
      → same_tier order.tier Tier.free ≡ false
      → unexpired w.now order.expires_at ≡ true
      → let (r, w') = create_grant id order w in
        (r ≡ ok (new_grant id order))
        × (w'.saved.grants ≡ w.db.grants ++ new_grant id order ∷ [])
        × ((e : Entitlements) × ((resolve_entitlements settings order.user_id w').0 ≡ ok e)
            × (tier_rank order.tier ≤ tier_rank e.tier))
  unfolding new_grant
  create_grant-read settings id order w up clear paid fresh =
      let v = granted id order w in
      let (saved, read) =
        read_after_commit settings order.user_id v up clear (any-add_mark order.user_id w.marks) in
      let w' = (commit_and_invalidate v).1 in
      let e = resolve_from settings w.now order.user_id w'.saved in
      let (_, above, _, _, _) = resolve_from_highest settings w.now order.user_id w'.saved in
      let kept = ap (λ db. db.grants) saved in
      rw (create_grant_lem id order w up paid) (
        refl,
        kept,
        (
          e,
          read,
          NoneAbove-last w.now order.user_id e.tier w.db.grants (new_grant id order)
              (subst (λ gs. NoneAbove w.now order.user_id e.tier gs) kept above)
              (new_grant-active w.now id order fresh),
        ),
      )
