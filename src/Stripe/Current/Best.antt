-- ===== src/Stripe/Current/Best.antt =====
-- Which subscription `_current` chooses.
use subscription_service.Stripe.Current.{is_text, status_priority, current, has_status, first_with}
use subscription_service.Stripe.Current.{created_at}
use subscription_service.Prelude.{
  some-injective, eq_iff, eq_refl, ap, ◌∙◌, Bool-cases, List, Option-cases, String, [], arith,
  false, inl, inr, ltb, none, some, sym, true, ℕ, ◌∷◌, ◌≡◌, ◌≤◌, ◌⊎◌,
}
use subscription_service.Stripe.Current.{latest, newest, by_priority}
use subscription_service.Json.{get_key, text, ◌>>=◌, nil, cons, Json, Values}

abbrev pub InValues : Json → Values → Type 0
InValues sub nil = ⊥
InValues sub (cons v vs) = (v ≡ sub) ⊎ InValues sub vs

abbrev pub AllValues : (Json → Type 0) → Values → Type 0
AllValues P nil = Unit {0}
AllValues P (cons v vs) = P v × AllValues P vs

-- the best of a list by these statuses: it has the first status that any of the list has, or, where
-- none has any, it was created last
abbrev pub IsBest : List String → Json → Values → Type 0
IsBest [] sub subs =
    (last : ℕ) × (created_at sub ≡ some last)
    × AllValues (λ s. (t : ℕ) × (created_at s ≡ some t) × (t ≤ last)) subs
IsBest (name ∷ names) sub subs =
    (has_status name sub ≡ some true)
    ⊎ (AllValues (λ s. has_status name s ≡ some false) subs × IsBest names sub subs)

first_with-some :
    (name : String) (subs : Values) {sub : Json}
    → first_with name subs ≡ some (some sub)
    → InValues sub subs × (has_status name sub ≡ some true)
unfolding first_with ◌>>=◌
first_with-some name nil h = cc
first_with-some name (cons v vs) {sub} h = ground (arith, first_with-some name vs {sub = sub})

first_with-none :
    (name : String) (subs : Values)
    → first_with name subs ≡ some none
    → AllValues (λ s. has_status name s ≡ some false) subs
unfolding first_with ◌>>=◌
first_with-none name nil h = tt
first_with-none name (cons v vs) h = ground (arith, first_with-none name vs)

-- the last of those seen so far
abbrev IsLatest : Json → ℕ → Values → Json → Type 0
IsLatest best at subs sub =
    (last : ℕ) × (created_at sub ≡ some last)
    × (at ≤ last)
    × AllValues (λ s. (t : ℕ) × (created_at s ≡ some t) × (t ≤ last)) subs
    × ((sub ≡ best) ⊎ InValues sub subs)

latest_lem :
    (best : Json) (at : ℕ) (subs : Values) {sub : Json}
    → created_at best ≡ some at
    → latest best at subs ≡ some sub
    → IsLatest best at subs sub
unfolding latest ◌>>=◌
latest_lem best at nil {sub} b h = (at, cc, omega arith, tt, inl (cc))
latest_lem best at (cons v vs) {sub} b h = elim (Option-cases (created_at v)) [
  | inl e ↦ let raised = rw e at h in cc
  | inr (t, e) ↦ elim (Bool-cases (ltb at t)) [
    | inl later ↦
        let h' = rw later at (rw e at h) in
        let (last, c, le, all, place) = latest_lem v t vs e h' in
        (
          last,
          c,
          ground (arith, later),
          ((t, e, le), all),
          inr (elim place [ inl same ↦ inl (sym same) | inr there ↦ inr there ]),
        )
    | inr earlier ↦
        let h' = rw earlier at (rw e at h) in
        let (last, c, le, all, place) = latest_lem best at vs b h' in
        (
          last,
          c,
          le,
          ((t, e, ground (arith, earlier)), all),
          elim place [ inl same ↦ inl same | inr there ↦ inr (inr there) ],
        )
  ]
]

newest-IsBest :
    (subs : Values) {sub : Json} → newest subs ≡ some sub → InValues sub subs × IsBest [] sub subs
unfolding newest ◌>>=◌
newest-IsBest nil h = cc
newest-IsBest (cons v vs) {sub} h = elim (Option-cases (created_at v)) [
  | inl e ↦ let raised = rw e at h in cc
  | inr (t, e) ↦
      let (last, c, le, all, place) = latest_lem v t vs e (rw e at h) in
      (
        elim place [ inl same ↦ inl (sym same) | inr there ↦ inr there ],
        (last, c, ((t, e, le), all)),
      )
]

by_priority-IsBest :
    (names : List String) (subs : Values) {sub : Json}
    → by_priority names subs ≡ some sub
    → InValues sub subs × IsBest names sub subs
unfolding by_priority ◌>>=◌
by_priority-IsBest [] subs h = newest-IsBest subs h
by_priority-IsBest (name ∷ names) subs {sub} h = elim (Option-cases (first_with name subs)) [
  | inl e ↦ let raised = rw e at h in cc
  | inr (some s, e) ↦
      let h' = rw e at h in
      let same : s ≡ sub = cc in
      let (there, has) = first_with-some name subs e in
      (rw (sym same) there, inl (rw (sym same) has))
  | inr (none, e) ↦
      let (there, best) = by_priority-IsBest names subs (rw e at h) in
      (there, inr (first_with-none name subs e, best))
]

-- The subscription that `_current` answers is one of the list, and has the first status of
-- `_STATUS_PRIORITY` that any of them has, or, where they are all over, was created last.
pub current-IsBest :
    (subs : Values) {sub : Json}
    → current subs ≡ some sub
    → InValues sub subs × IsBest status_priority sub subs
unfolding current
current-IsBest subs h = by_priority-IsBest status_priority subs h

is_text-eq : (name : String) (j : Json) → is_text name j ≡ true → j ≡ text name
unfolding is_text
is_text-eq name (text s) h = ap text ((eq_iff s name).0 h)
is_text-eq name Json.null h = cc
is_text-eq name (Json.boolean b) h = cc
is_text-eq name (Json.number n) h = cc
is_text-eq name (Json.fraction s) h = cc
is_text-eq name (Json.array vs) h = cc
is_text-eq name (Json.object fs) h = cc

-- the status of a payload that has it
pub has_status-text :
    (name : String) (sub : Json)
    → has_status name sub ≡ some true
    → get_key "status" sub ≡ some (text name)
unfolding has_status ◌>>=◌ is_text
has_status-text name sub h = elim (Option-cases (get_key "status" sub)) [
  | inl e ↦ let raised = rw e at h in cc
  | inr (j, e) ↦
      let found : some (is_text name j) ≡ some true = rw e at h in
      e ∙ ap some (is_text-eq name j (some-injective _ _ found))
]

pub text-has_status :
    (name : String) (sub : Json)
    → get_key "status" sub ≡ some (text name)
    → has_status name sub ≡ some true
unfolding has_status ◌>>=◌ is_text
text-has_status name sub h = rw h (rw (eq_refl name))
