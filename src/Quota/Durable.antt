-- ===== src/Quota/Durable.antt =====
-- app/services/quota.py: `_mirror` and the table of counters.
use subscription_service.Quota.{insert_counter, put_counters, counter_rivals_commit}
use subscription_service.World.{World}
use subscription_service.Quota.{mirror_usage, increment, same_counter}
use subscription_service.Models.{UsageCounter}
use subscription_service.Prelude.{
  inr, inl, Bool-cases, eq_refl, Bool, List, String, [], any, arith, eq_iff, eqb, false,
  if◌then◌else◌, refl, true, ℕ, ◌&&◌, ◌++◌, ◌+◌, ◌==◌, ◌∷◌, ◌≡◌,
}

-- the count of a window that the table holds
abbrev pub recorded : String → String → ℕ → List UsageCounter → ℕ
recorded user_id key start [] = 0
recorded user_id key start (c ∷ cs) =
    if same_counter user_id key start c then c.count else recorded user_id key start cs

-- the same counter
abbrev pub is_counter : String → String → ℕ → String → String → ℕ → Bool
is_counter u k s user_id key start = (u == user_id) && (k == key) && eqb s start

recorded-increment :
    (user_id key : String) (start : ℕ) (cs : List UsageCounter)
    → any (same_counter user_id key start) cs ≡ true
    → recorded user_id key start (increment user_id key start cs)
      ≡ recorded user_id key start cs + 1
unfolding increment same_counter
recorded-increment user_id key start [] h = cc
recorded-increment user_id key start (c ∷ cs) h =
    ground (arith, recorded-increment user_id key start cs)

recorded-increment_other :
    (u k user_id key : String) (s start : ℕ) (cs : List UsageCounter)
    → is_counter u k s user_id key start ≡ false
    → recorded user_id key start (increment u k s cs) ≡ recorded user_id key start cs
unfolding increment same_counter
recorded-increment_other u k user_id key s start [] h = refl
recorded-increment_other u k user_id key s start (c ∷ cs) h = grind (
  arith,
  recorded-increment_other u k user_id key s start cs,
  eq_iff c.user_id u,
  eq_iff c.user_id user_id,
  eq_iff u user_id,
  eq_iff c.key k,
  eq_iff c.key key,
  eq_iff k key,
)

recorded-append :
    (user_id key : String) (start : ℕ) (cs : List UsageCounter) (row : UsageCounter)
    → any (same_counter user_id key start) cs ≡ false
    → recorded user_id key start (cs ++ row ∷ [])
      ≡ (if same_counter user_id key start row then row.count else 0)
unfolding same_counter
recorded-append user_id key start [] row h = refl
recorded-append user_id key start (c ∷ cs) row h =
    ground (arith, recorded-append user_id key start cs row)

recorded_none :
    (user_id key : String) (start : ℕ) (cs : List UsageCounter)
    → any (same_counter user_id key start) cs ≡ false
    → recorded user_id key start cs ≡ 0
unfolding same_counter
recorded_none user_id key start [] h = refl
recorded_none user_id key start (c ∷ cs) h = ground (arith, recorded_none user_id key start cs)

recorded-append_other :
    (user_id key : String) (start : ℕ) (cs : List UsageCounter) (row : UsageCounter)
    → same_counter user_id key start row ≡ false
    → recorded user_id key start (cs ++ row ∷ []) ≡ recorded user_id key start cs
unfolding same_counter
recorded-append_other user_id key start [] row h = rw h
recorded-append_other user_id key start (c ∷ cs) row h =
    ground (arith, recorded-append_other user_id key start cs row h)

-- `after` is `before` with one more use of a counter
abbrev pub IsOneMore : String → String → ℕ → List UsageCounter → List UsageCounter → Type 0
IsOneMore user_id key start before after =
    (recorded user_id key start after ≡ recorded user_id key start before + 1)
    × ((u k : String) (s : ℕ)
        → is_counter user_id key start u k s ≡ false
        → recorded u k s after ≡ recorded u k s before)

increment-IsOneMore :
    (user_id key : String) (start : ℕ) (cs : List UsageCounter)
    → any (same_counter user_id key start) cs ≡ true
    → IsOneMore user_id key start cs (increment user_id key start cs)
increment-IsOneMore user_id key start cs h = (
  recorded-increment user_id key start cs h,
  λ u k s other. recorded-increment_other user_id key u k start s cs other,
)

append-IsOneMore :
    (row : UsageCounter) (cs : List UsageCounter)
    → row.count ≡ 1
    → any (same_counter row.user_id row.key row.window_start) cs ≡ false
    → IsOneMore row.user_id row.key row.window_start cs (cs ++ row ∷ [])
unfolding same_counter
append-IsOneMore row cs one h = (
  rw
      (
        recorded-append row.user_id row.key row.window_start cs row h,
        recorded_none row.user_id row.key row.window_start cs h,
      )
      (ground (arith, eq_refl row.user_id, eq_refl row.key, one)),
  λ u k s other. recorded-append_other u k s cs row other,
)

module _ {R : Type 0} where
  -- the committed table that the copy is added to: that of other workers where the row was not there
  abbrev pub seen_counters : String → String → ℕ → World R → List UsageCounter
  seen_counters user_id key start w =
      if any (same_counter user_id key start) w.saved.counters
      then w.saved.counters
      else w.saved.counters ++ w.rival_counters

  -- Where the database answers, `_mirror` commits exactly one more use of this counter and leaves
  -- every other counter as it was, whether the row was there, was not, or was created by another
  -- worker in between; it leaves the rest of the committed tables, what the caller's session has
  -- pending, and the marks as they were.
  pub mirror_usage-IsOneMore :
      (user_id key : String) (start end : ℕ) (w : World R)
      → w.db_up ≡ true
      → let w' = mirror_usage user_id key start end w in
        IsOneMore user_id key start (seen_counters user_id key start w) w'.saved.counters
        × (w'.saved ≡ record w.saved { counters = w'.saved.counters })
        × (w'.db ≡ record w.db { counters = w'.saved.counters })
        × (w'.marks ≡ w.marks)
  unfolding mirror_usage insert_counter put_counters counter_rivals_commit
  mirror_usage-IsOneMore user_id key start end w up =
      elim (Bool-cases (any (same_counter user_id key start) w.saved.counters)) [
        | inl there ↦
            rw (up, there)
              (increment-IsOneMore user_id key start w.saved.counters there, refl, refl, refl)
        | inr new ↦
            elim (Bool-cases
              (any (same_counter user_id key start) (w.saved.counters ++ w.rival_counters))) [
                | inl lost ↦
                    rw (up, new)
                      (rw lost (increment-IsOneMore user_id key start _ lost, refl, refl, refl))
                | inr free ↦
                    rw (up, new) (rw free (append-IsOneMore _ _ refl free, refl, refl, refl))
              ]
      ]
