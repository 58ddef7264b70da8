-- ===== src/Entitlements/Read/Copies.antt =====
-- The two copies of an answer that `resolve_entitlements` of app/services/entitlements.py leaves in
-- the cache.
use subscription_service.Prelude.{
  Bool-cases, Option-cases, String, ap, arith, eq_iff, eq_refl, inl, inr, insert, lookup,
  lookup-insert, lookup-remove, ltb, none, refl, remove, some, sym, ℕ, ◌<◌, ◌==◌, ◌∙◌, ◌≡◌, ◌≤◌,
  ◌⊎◌,
}
use subscription_service.Cache
use subscription_service.Cache.{Cache, CacheValue, number, payload}
use subscription_service.Entitlements.{Entitlements}
use subscription_service.World.Session.{entitlement_key, stale_key}

pub get_live :
    (now : ℕ) (key : String) (cache : Cache) (x : CacheValue) (until : ℕ)
    → lookup key cache ≡ some (x, until)
    → now < until
    → Cache.get now key cache ≡ (some x, cache)
unfolding Cache.get
get_live now key cache x until held live = rw held (ground (arith, live))

pub get_dead :
    (now : ℕ) (key : String) (cache : Cache) (x : CacheValue) (until : ℕ)
    → lookup key cache ≡ some (x, until)
    → until ≤ now
    → Cache.get now key cache ≡ (none, remove key cache)
unfolding Cache.get
get_dead now key cache x until held dead = rw held (ground (arith, dead))

pub get_absent :
    (now : ℕ) (key : String) (cache : Cache)
    → lookup key cache ≡ none
    → Cache.get now key cache ≡ (none, cache)
unfolding Cache.get
get_absent now key cache absent = rw absent refl

pub absent_after :
    (now : ℕ) (key : String) (cache : Cache)
    → (Cache.get now key cache).0 ≡ none
    → lookup key (Cache.get now key cache).1 ≡ none
absent_after now key cache miss = elim (Option-cases (lookup key cache)) [
  | inl absent ↦ rw (get_absent now key cache absent) absent
  | inr ((x, t), held) ↦ elim (Bool-cases (ltb now t)) [
    | inl live ↦ let hit = rw (get_live now key cache x t held (ground (arith, live))) at miss in cc
    | inr dead ↦
        rw (get_dead now key cache x t held (ground (arith, dead)))
          (lookup-remove key key cache ∙ rw (eq_refl key) refl)
  ]
]

-- The two copies of an answer: one that serves a while, which may be gone, and one for outages.
pub record IsKept (user_id : String) (e : Entitlements) (until : ℕ) (cache : Cache) : Type 0 where
  pub fresh :
      (lookup (entitlement_key user_id) cache ≡ none)
      ⊎ ((t : ℕ) × (lookup (entitlement_key user_id) cache ≡ some (payload e, t)))
  pub stale : lookup (stale_key user_id) cache ≡ some (payload e, until)

pub inserted :
    (key : String) (v : CacheValue × ℕ) (cache : Cache) → lookup key (insert key v cache) ≡ some v
inserted key v cache = lookup-insert key key v cache ∙ rw (eq_refl key) refl

pub insert-IsKept :
    (user_id : String) (e : Entitlements) (until : ℕ) (cache : Cache)
    → (lookup (entitlement_key user_id) cache ≡ none)
      ⊎ ((t : ℕ) × (lookup (entitlement_key user_id) cache ≡ some (payload e, t)))
    → IsKept user_id e until (insert (stale_key user_id) (payload e, until) cache)
insert-IsKept user_id e until cache fresh = record {
  fresh =
      let found =
        lookup-insert (stale_key user_id) (entitlement_key user_id) (payload e, until) cache in
      elim (Bool-cases (stale_key user_id == entitlement_key user_id)) [
        | inl same ↦ inr (until, found ∙ rw same refl)
        | inr other ↦ elim fresh [
          | inl absent ↦ inl (found ∙ rw other absent)
          | inr (t, held) ↦ inr (t, found ∙ rw other held)
        ]
      ];
  stale = inserted (stale_key user_id) (payload e, until) cache;
}

-- dropping the one copy does not drop the other
pub stale_stays :
    (user_id : String) (e : Entitlements) (until t now : ℕ) (cache : Cache)
    → lookup (entitlement_key user_id) cache ≡ some (payload e, t)
    → lookup (stale_key user_id) cache ≡ some (payload e, until)
    → t ≤ now
    → now < until
    → lookup (stale_key user_id) (remove (entitlement_key user_id) cache) ≡ some (payload e, until)
stale_stays user_id e until t now cache fresh stale dead live =
    lookup-remove (entitlement_key user_id) (stale_key user_id) cache
    ∙ elim (Bool-cases (entitlement_key user_id == stale_key user_id)) [
      | inl same ↦
          let one =
            sym fresh
            ∙ ap (λ k. lookup k cache)
                ((eq_iff (entitlement_key user_id) (stale_key user_id)).0 same)
            ∙ stale in
          absurd (ground (arith, one, dead, live))
      | inr other ↦ rw other stale
    ]

pub still-IsKept :
    (user_id : String) (e : Entitlements) (until : ℕ) (cache cache' : Cache)
    → IsKept user_id e until cache
    → lookup (stale_key user_id) cache' ≡ lookup (stale_key user_id) cache
    → (lookup (entitlement_key user_id) cache' ≡ lookup (entitlement_key user_id) cache)
      ⊎ (lookup (entitlement_key user_id) cache' ≡ none)
    → IsKept user_id e until cache'
still-IsKept user_id e until cache cache' kept stale (inl same) = record {
  fresh = elim kept.fresh [
    | inl absent ↦ inl (same ∙ absent)
    | inr (t, held) ↦ inr (t, same ∙ held)
  ];
  stale = stale ∙ kept.stale;
}
still-IsKept user_id e until cache cache' kept stale (inr gone) = record {
  fresh = inl gone;
  stale = stale ∙ kept.stale;
}
