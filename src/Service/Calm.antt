-- ===== src/Service/Calm.antt =====
-- The invariant of the service, and the actions that every operation is made of.
use subscription_service.Prelude.{
  false, true, Bool, All, Bool-cases, List, Option, String, [], ap, append-nil, arith, find, inl,
  inr, refl, some, subst, sym, ◌++◌, ◌∙◌, ◌∷◌, ◌≡◌,
}
use subscription_service.Models.{Subscription, SubscriptionAudit}
use subscription_service.Settings.{Settings}
use subscription_service.Provider.{BillingProvider}
use subscription_service.Effects.{Error, raise, raise_if, Exec, Result, ok, err, pure}
use subscription_service.Effects.Triple.{
  Triple-raise, Triple, Triple-keeps, Triple-end, Triple-pure,
}
use subscription_service.World.{World, Db}
use subscription_service.World.Database.{find_by_user, find_by_customer}
use subscription_service.World.Database.Writes.{find_by_user-All, find_by_customer-All}
use subscription_service.World.Session.{
  drain, query, flush_row, record_audit, mark_entitlements_stale, commit, rollback,
  commit_and_invalidate, drain, provider_call, invalidate_all, invalidate_entitlements, cache_call,
}
use subscription_service.Sync.Project.{IsConsistent}
use subscription_service.Sync.Mirror.{sync_subscription, get_subscription, find_customer}
use subscription_service.Sync.Mirror.Sound.{IsSound, flush_row-IsSoundDb, query-Triple}
use subscription_service.Sync.Mirror.Keeps.{sync-IsSound}
use subscription_service.Sync.Mirror.Quiet.{sync-Quiet, IsQuiet}

-- What the session sees and what is committed are sound tables, and no other worker is about to
-- insert a row.
pub record IsCalm {R : Type 0} (w : World R) : Type 0 where
  pub table : IsSound w.db.subscriptions
  pub committed : IsSound w.saved.subscriptions
  pub alone : w.rivals ≡ []

-- a row that is read is consistent
abbrev pub Found : Option Subscription → Type 0
Found found = (sub : Subscription) → found ≡ some sub → IsConsistent sub

module _ {R : Type 0} where
  abbrev pub Calm : {A : Type 0} → Exec (World R) A → Type 0
  Calm m = Triple IsCalm (λ _. IsCalm) IsCalm m

  -- a known fact, as a precondition
  pub Triple-fact :
      {A C : Type 0} {P E : World R → Type 0} {Q : A → World R → Type 0} {m : Exec (World R) A}
      → (C → Triple P Q E m)
      → Triple (λ w. P w × C) Q E m
  Triple-fact k = record { at = λ w h. (k h.1).at w h.0 }

  -- an action that leaves the table of subscriptions, here and committed, and the other workers
  pub Calm-of :
      {A : Type 0} (m : Exec (World R) A)
      → ((w : World R)
          → ((m w).1.db.subscriptions ≡ w.db.subscriptions)
            × ((m w).1.saved ≡ w.saved)
            × ((m w).1.rivals ≡ w.rivals))
      → Calm m
  Calm-of m same = Triple-keeps IsCalm m λ w h.
      let (rows, saved, rivals) = same w in
      record { table = rw rows h.table; committed = rw saved h.committed; alone = rivals ∙ h.alone }

  pub pure-Calm : {A : Type 0} (a : A) → Calm (pure a)
  pure-Calm a = Triple-pure a (λ w h. h)

  pub raise-Calm : {A : Type 0} (e : Error) → Calm (raise {S = World R} {A = A} e)
  raise-Calm e = Triple-raise e (λ w h. h)

  pub raise_if-Calm : (b : Bool) (e : Error) → Calm (raise_if {S = World R} b e)
  raise_if-Calm true e = raise-Calm e
  raise_if-Calm false e = pure-Calm tt

  pub query-Calm : {A : Type 0} (read : Db → A) → Calm (query read)
  query-Calm read = query-Triple IsCalm read

  pub provider_call-Calm : {A : Type 0} (call : Exec R A) → Calm (provider_call call)
  unfolding provider_call
  provider_call-Calm call = Calm-of (provider_call call) (λ w. (refl, refl, refl))

  pub record_audit-Calm : (row : SubscriptionAudit) → Calm (record_audit row)
  unfolding record_audit
  record_audit-Calm row = Calm-of (record_audit row) (λ w. (refl, refl, refl))

  pub mark-Calm : (user_id : String) → Calm (mark_entitlements_stale user_id)
  unfolding mark_entitlements_stale
  mark-Calm user_id = Calm-of (mark_entitlements_stale user_id) (λ w. (refl, refl, refl))

  flush_row_rest :
      (sub : Subscription) (w : World R)
      → ((flush_row sub w).1.saved ≡ w.saved) × ((flush_row sub w).1.rivals ≡ w.rivals)
  unfolding flush_row
  flush_row_rest sub w = ground arith

  pub flush_row-Calm : (sub : Subscription) → IsConsistent sub → Calm (flush_row sub)
  flush_row-Calm sub c = Triple-keeps IsCalm (flush_row sub) λ w h.
      let (saved, rivals) = flush_row_rest sub w in
      record {
        table = (flush_row-IsSoundDb sub w c (record { table = h.table })).table;
        committed = rw saved h.committed;
        alone = rivals ∙ h.alone;
      }

  commit-IsCalm : (w : World R) → IsCalm w → IsCalm (commit w).1
  unfolding commit
  commit-IsCalm w h = elim (Bool-cases w.db_up) [
    | inl up ↦ simp up (record { table = h.table; committed = h.table; alone = h.alone })
    | inr down ↦ simp down h
  ]

  pub commit-Calm : Calm (commit {R = R})
  commit-Calm = Triple-keeps IsCalm commit commit-IsCalm

  pub rollback-IsCalm : (w : World R) → IsCalm w → IsCalm (rollback w)
  unfolding rollback
  rollback-IsCalm w h = record { table = h.committed; committed = h.committed; alone = h.alone }

  invalidate-Calm : (user_id : String) → Calm (invalidate_entitlements {R = R} user_id)
  unfolding invalidate_entitlements cache_call
  invalidate-Calm user_id = Calm-of (invalidate_entitlements user_id) (λ w. ground arith)

  invalidate_all-IsCalm :
      (users : List String) (w : World R) → IsCalm w → IsCalm (invalidate_all users w)
  unfolding invalidate_all
  invalidate_all-IsCalm [] w h = h
  invalidate_all-IsCalm (u ∷ us) w h =
      invalidate_all-IsCalm us _ (Triple-end IsCalm _ w (invalidate-Calm u) h)

  drain-IsCalm :
      (users : List String) (r : Result (Unit {0})) (w : World R)
      → IsCalm w
      → IsCalm (drain users (r, w)).1
  unfolding drain
  drain-IsCalm users (ok _) w h = invalidate_all-IsCalm users w h
  drain-IsCalm users (err e) w h = h

  pub commit_and_invalidate-Calm : Calm (commit_and_invalidate {R = R})
  unfolding commit_and_invalidate
  commit_and_invalidate-Calm = Triple-keeps IsCalm commit_and_invalidate λ w h.
      drain-IsCalm w.marks _ _
        (commit-IsCalm _ (record { table = h.table; committed = h.committed; alone = h.alone }))

  read_row-Calm :
      (find : List Subscription → Option Subscription)
      → ((rows : List Subscription) → All IsConsistent rows → Found (find rows))
      → Triple {S = World R} IsCalm
          (λ found w. IsCalm w × Found found)
          IsCalm
          (query (λ db. find db.subscriptions))
  unfolding query
  read_row-Calm find kept = record {
    at = λ w h. elim (Bool-cases w.db_up) [
      | inl up ↦ simp up (h, kept w.db.subscriptions h.table.consistent)
      | inr down ↦ simp down h
    ];
  }

  pub get_subscription-Calm :
      (user_id : String)
      → Triple {S = World R} IsCalm
          (λ found w. IsCalm w × Found found)
          IsCalm
          (get_subscription user_id)
  unfolding get_subscription
  get_subscription-Calm user_id =
      read_row-Calm (find_by_user user_id)
        (λ rows all sub e. find_by_user-All IsConsistent user_id rows sub all e)

  pub find_customer-Calm :
      (customer : String)
      → Triple {S = World R} IsCalm
          (λ found w. IsCalm w × Found found)
          IsCalm
          (find_customer customer)
  unfolding find_customer
  find_customer-Calm customer =
      read_row-Calm (find_by_customer customer)
        (λ rows all sub e. find_by_customer-All IsConsistent customer rows sub all e)

pub sync-Calm :
    {R : Type 0} (settings : Settings) (stripe : BillingProvider R) (reason : String)
    (event : Option String) (customer : String)
    → Calm (sync_subscription settings stripe reason event customer)
sync-Calm settings stripe reason event customer = Triple-keeps IsCalm _ λ w h.
    let quiet =
      Triple-end (IsQuiet w.saved) _ w (sync-Quiet settings stripe w.saved reason event customer)
        (record { committed = refl; alone = h.alone }) in
    let rows = ap (λ rs. w.db.subscriptions ++ rs) h.alone ∙ append-nil w.db.subscriptions in
    record {
      table =
          sync-IsSound settings stripe reason event customer w h.table
            (subst IsSound (sym rows) h.table);
      committed = subst (λ (d : Db). IsSound d.subscriptions) (sym quiet.committed) h.committed;
      alone = quiet.alone;
    }
