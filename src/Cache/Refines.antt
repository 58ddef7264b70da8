-- ===== src/Cache/Refines.antt =====
-- app/cache.py: the in-memory backend implements a store that forgets nothing.
use subscription_service.Prelude.{
  Bool-cases, List, Option, String, [], ap, arith, eq_iff, false, inl, inr, insert, leb, lookup,
  lookup-insert, lookup-remove, none, refl, remove, some, some-injective, subst, sym, ℕ, ◌*◌, ◌+◌,
  ◌==◌, ◌∙◌, ◌∷◌, ◌≡◌, ◌≤◌,
}
use mathlib.Core.Path.{ap₂}
use subscription_service.Settings.{second}
use subscription_service.Cache.{
  CacheValue, number, payload, Cache, get, set, delete, incr, bump, live_entry, drop_expired,
  expiry_of,
}
use subscription_service.Cache.Calls.{
  CacheCall, reading, writing, dropping, counting, Told, found, Entries, put, live, value_in,
  spec_count, spec, told_read, told_count, backend, run_backend, run_spec,
}

-- they hold the same live entries
abbrev Agree : ℕ → Cache → Entries → Type 0
Agree now cache entries = (k : String) → live now (lookup k cache) ≡ live now (entries k)

live-later :
    (now later : ℕ) (entry : Option (CacheValue × ℕ))
    → now ≤ later
    → live later (live now entry) ≡ live later entry
live-later now later none h = refl
live-later now later (some (v, ends)) h = ground arith

Agree-later :
    (now later : ℕ) (cache : Cache) (entries : Entries)
    → now ≤ later
    → Agree now cache entries
    → Agree later cache entries
Agree-later now later cache entries h agree k =
    sym (live-later now later (lookup k cache) h)
    ∙ ap (live later) (agree k)
    ∙ live-later now later (entries k) h

Agree-insert :
    (now : ℕ) (k : String) (entry : CacheValue × ℕ) (cache : Cache) (entries : Entries)
    → Agree now cache entries
    → Agree now (insert k entry cache) (put k (some entry) entries)
Agree-insert now k entry cache entries agree j = elim (Bool-cases (k == j)) [
  | inl same ↦ rw lookup-insert (rw same refl)
  | inr other ↦ rw lookup-insert (rw other (agree j))
]

Agree-remove :
    (now : ℕ) (k : String) (cache : Cache) (entries : Entries)
    → Agree now cache entries
    → Agree now (remove k cache) (put k none entries)
Agree-remove now k cache entries agree j = elim (Bool-cases (k == j)) [
  | inl same ↦ rw lookup-remove (rw same refl)
  | inr other ↦ rw lookup-remove (rw other (agree j))
]

value_in-live :
    (now : ℕ) (entry : Option (CacheValue × ℕ)) → live_entry now entry ≡ value_in (live now entry)
unfolding live_entry
value_in-live now none = refl
value_in-live now (some (v, ends)) = ground arith

dropped :
    (now : ℕ) (k j : String) (cache : Cache) (entry : Option (CacheValue × ℕ))
    → lookup k cache ≡ entry
    → live now (lookup j (drop_expired now k entry cache)) ≡ live now (lookup j cache)
unfolding drop_expired
dropped now k j cache none h = refl
dropped now k j cache (some (v, ends)) h = elim (Bool-cases (leb ends now)) [
  | inl over ↦ elim (Bool-cases (k == j)) [
    | inl same ↦
        let here : lookup j cache ≡ some (v, ends) =
          subst (λ i. lookup i cache ≡ some (v, ends)) ((eq_iff k j).0 same) h in
        rw over (rw lookup-remove (rw (same, here) (rw over refl)))
    | inr other ↦ rw over (rw lookup-remove (rw other refl))
  ]
  | inr ahead ↦ rw ahead refl
]

-- reading drops at most an entry that has ended
Agree-drop :
    (now : ℕ) (k : String) (cache : Cache) (entries : Entries)
    → Agree now cache entries
    → Agree now (drop_expired now k (lookup k cache) cache) entries
Agree-drop now k cache entries agree j = dropped now k j cache (lookup k cache) refl ∙ agree j

unended_entry :
    (now ends : ℕ) (v : CacheValue) (entry : Option (CacheValue × ℕ))
    → live now entry ≡ some (v, ends)
    → (entry ≡ some (v, ends)) × (leb ends now ≡ false)
unended_entry now ends v none h = cc
unended_entry now ends v (some (u, t)) h = elim (Bool-cases (leb t now)) [
  | inl over ↦ let gone = rw over at h in cc
  | inr ahead ↦
      let same = some-injective _ _ (rw ahead at h) in
      (ap some same, subst (λ (e : CacheValue × ℕ). leb e.1 now ≡ false) same ahead)
]

-- the answers agree, and so do the stores after them
abbrev Refined : ℕ → Told × Cache → Told × Entries → Type 0
Refined now (a, cache) (b, entries) = (a ≡ b) × Agree now cache entries

count-Refined :
    (now : ℕ) (k : String) (ttl : ℕ) (cache : Cache) (entries : Entries)
    (entry : Option (CacheValue × ℕ))
    → live now (lookup k cache) ≡ entry
    → Agree now cache entries
    → Refined now (told_count (incr now k ttl cache)) (spec_count now k ttl entry entries)
unfolding told_count incr get bump spec_count expiry_of drop_expired
count-Refined now k ttl cache entries none h agree =
    rw (value_in-live now (lookup k cache) ∙ ap value_in h) (
      refl,
      Agree-insert now k (number 1, now + ttl * second) _ entries
          (Agree-drop now k cache entries agree),
    )
count-Refined now k ttl cache entries (some (number n, ends)) h agree =
    let (here, ahead) = unended_entry now ends (number n) (lookup k cache) h in
    rw (value_in-live now (lookup k cache) ∙ ap value_in h) (
      rw here
        (rw ahead (rw here (refl, Agree-insert now k (number (n + 1), ends) cache entries agree))))
count-Refined now k ttl cache entries (some (payload e, ends)) h agree =
    rw (value_in-live now (lookup k cache) ∙ ap value_in h)
      (refl, Agree-drop now k cache entries agree)

backend-Refined :
    (now : ℕ) (call : CacheCall) (cache : Cache) (entries : Entries)
    → Agree now cache entries
    → Refined now (backend now call cache) (spec now call entries)
unfolding backend spec told_read get set delete
backend-Refined now (reading k) cache entries agree = (
  ap found (value_in-live now (lookup k cache) ∙ ap value_in (agree k)),
  Agree-drop now k cache entries agree,
)
backend-Refined now (writing k v ttl) cache entries agree =
    (refl, Agree-insert now k (v, now + ttl * second) cache entries agree)
backend-Refined now (dropping k) cache entries agree =
    (refl, Agree-remove now k cache entries agree)
backend-Refined now (counting k ttl) cache entries agree =
    count-Refined now k ttl cache entries (live now (entries k)) (agree k) agree

-- no call is made before the one in front of it
abbrev pub IsOrdered : ℕ → List (ℕ × CacheCall) → Type 0
IsOrdered now [] = Unit
IsOrdered now ((later, call) ∷ calls) = (now ≤ later) × IsOrdered later calls

runs_alike :
    (now : ℕ) (calls : List (ℕ × CacheCall)) (cache : Cache) (entries : Entries)
    → IsOrdered now calls
    → Agree now cache entries
    → run_backend calls cache ≡ run_spec calls entries
unfolding run_backend run_spec
runs_alike now [] cache entries ordered agree = refl
runs_alike now ((later, call) ∷ calls) cache entries (h, ordered) agree =
    let (same, agree') =
      backend-Refined later call cache entries (Agree-later now later cache entries h agree) in
    ap₂ ◌∷◌ same (runs_alike later calls _ _ ordered agree')

-- Whatever is asked of an empty cache in whatever order, at times that do not run backwards, the
-- callers are told what the specification says, which keeps an entry for each key and never removes
-- one that has ended.
pub run_backend-run_spec :
    (calls : List (ℕ × CacheCall))
    → IsOrdered 0 calls
    → run_backend calls [] ≡ run_spec calls (λ k. none)
run_backend-run_spec calls ordered = runs_alike 0 calls [] (λ k. none) ordered (λ k. refl)
