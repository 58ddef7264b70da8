-- ===== src/World/Session/Commit.antt =====
-- What `commit_and_invalidate` of app/services/entitlements.py leaves behind.
use subscription_service.Effects.{ok, err, database_error}
use subscription_service.World.{World, Db}
use subscription_service.Cache
use subscription_service.Prelude.{
  sym, ap, false, Bool-cases, List, String, [], any, arith, eq_iff, eq_refl, if◌then◌else◌, inl,
  inr, lookup, lookup-remove, none, refl, true, ◌==◌, ◌∙◌, ◌∷◌, ◌≡◌, ◌⊎◌,
}
use subscription_service.World.Session.{
  query, commit, commit_and_invalidate, entitlement_key, cache_call, invalidate_entitlements,
  invalidate_all, drain,
}

-- a statement that reads, where the database answers
pub query_up :
    {R A : Type 0} (read : Db → A) (w : World R)
    → w.db_up ≡ true
    → query read w ≡ (ok (read w.db), w)
unfolding query
query_up read w up = ap (λ b. if b then (ok (read w.db), w) else (err database_error, w)) up

module _ {R : Type 0} where
  -- a delete touches nothing but the cache and its schedule of failures
  invalidate_keeps :
      (u : String) (w : World R)
      → let w' = (invalidate_entitlements u w).1 in
        (w'.db ≡ w.db)
        × (w'.saved ≡ w.saved)
        × (w'.marks ≡ w.marks)
        × (w'.now ≡ w.now)
        × (w'.db_up ≡ w.db_up)
  unfolding invalidate_entitlements cache_call
  invalidate_keeps u w = ground arith

  pub invalidate_all_keeps :
      (users : List String) (w : World R)
      → let w' = invalidate_all users w in
        (w'.db ≡ w.db)
        × (w'.saved ≡ w.saved)
        × (w'.marks ≡ w.marks)
        × (w'.now ≡ w.now)
        × (w'.db_up ≡ w.db_up)
  unfolding invalidate_all
  invalidate_all_keeps [] w = (refl, refl, refl, refl, refl)
  invalidate_all_keeps (u ∷ users) w =
      let (a, b, c, d, e) = invalidate_all_keeps users (invalidate_entitlements u w).1 in
      let (a', b', c', d', e') = invalidate_keeps u w in (a ∙ a', b ∙ b', c ∙ c', d ∙ d', e ∙ e')

  invalidate-lookup :
      (u k : String) (w : World R)
      → w.cache_faults ≡ []
      → (lookup k (invalidate_entitlements u w).1.cache
          ≡ (if entitlement_key u == k then none else lookup k w.cache))
        × ((invalidate_entitlements u w).1.cache_faults ≡ [])
  unfolding invalidate_entitlements cache_call Cache.delete
  invalidate-lookup u k w clear = ground (arith, lookup-remove (entitlement_key u) k w.cache)

  own_key :
      (u j : String) (w : World R)
      → (u == j) ≡ true
      → (if entitlement_key u == entitlement_key j
          then none
          else lookup (entitlement_key j) w.cache)
        ≡ none
  own_key u j w same = rw ((eq_iff u j).0 same) (rw (eq_refl (entitlement_key j)))

  -- what is gone from the cache stays gone, and every user on the list is gone
  pub invalidate_all-lookup :
      (users : List String) (j : String) (w : World R)
      → w.cache_faults ≡ []
      → any (λ m. m == j) users ≡ true ⊎ lookup (entitlement_key j) w.cache ≡ none
      → lookup (entitlement_key j) (invalidate_all users w).cache ≡ none
  unfolding invalidate_all
  invalidate_all-lookup [] j w clear (inl h) = cc
  invalidate_all-lookup [] j w clear (inr h) = h
  invalidate_all-lookup (u ∷ users) j w clear h =
      invalidate_all-lookup users j (invalidate_entitlements u w).1
        (invalidate-lookup u (entitlement_key j) w clear).1
        (elim h [
          | inl listed ↦ elim (Bool-cases (u == j)) [
            | inl same ↦
                inr ((invalidate-lookup u (entitlement_key j) w clear).0 ∙ own_key u j w same)
            | inr other ↦ inl (rw other at listed)
          ]
          | inr gone ↦ inr (ground (arith, (invalidate-lookup u (entitlement_key j) w clear).0))
        ])

  -- Where the database answers, `commit_and_invalidate` saves what the session sees, leaves no mark
  -- and does not raise, whichever deletes of the cache fail.
  pub commit_and_invalidate_lem :
      (w : World R)
      → w.db_up ≡ true
      → let (r, w') = commit_and_invalidate w in
        (r ≡ ok tt)
        × (w'.saved ≡ w.db)
        × (w'.db ≡ w.db)
        × (w'.marks ≡ [])
        × (w'.now ≡ w.now)
        × (w'.db_up ≡ true)
  unfolding commit_and_invalidate commit drain
  commit_and_invalidate_lem w up = rw up (
      let (a, b, c, d, e) =
        invalidate_all_keeps w.marks (record w { saved = w.db; marks = []; db_up = true }) in
      (refl, b, a, c, d, e))

  pub commit_and_invalidate-lookup :
      (j : String) (w : World R)
      → w.db_up ≡ true
      → w.cache_faults ≡ []
      → any (λ m. m == j) w.marks ≡ true
      → lookup (entitlement_key j) (commit_and_invalidate w).1.cache ≡ none
  unfolding commit_and_invalidate commit drain
  commit_and_invalidate-lookup j w up clear listed = rw up (
      invalidate_all-lookup w.marks j (record w { saved = w.db; marks = []; db_up = true }) clear
        (inl listed))

  refused : (w w' : World R) → w.db_up ≡ false → commit_and_invalidate w ≡ (ok tt, w') → ⊥
  unfolding commit_and_invalidate commit drain
  refused w w' down h = ground arith

  -- A commit that returned is one that went through.
  pub commit_and_invalidate_done :
      (w w' : World R)
      → commit_and_invalidate w ≡ (ok tt, w')
      → (w'.db ≡ w'.saved) × (w'.marks ≡ [])
  commit_and_invalidate_done w w' h = elim (Bool-cases w.db_up) [
    | inl up ↦
        let (_, saved, same, clear, _, _) = commit_and_invalidate_lem w up in
        let end : (commit_and_invalidate w).1 ≡ w' = ap (λ p. p.1) h in
        (
          ap (λ u. u.db) (sym end) ∙ same ∙ sym saved ∙ ap (λ u. u.saved) end,
          ap (λ u. u.marks) (sym end) ∙ clear,
        )
    | inr down ↦ absurd (refused w w' down h)
  ]
