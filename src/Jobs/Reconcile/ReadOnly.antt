-- ===== src/Jobs/Reconcile/ReadOnly.antt =====
-- app/jobs/reconcile.py with `dry_run`: the check of one subscription.
use subscription_service.Sync.Mirror.{orphaned_at}
use subscription_service.Prelude.{
  Bool, List, Option, String, [], ap, arith, false, if◌then◌else◌, is_some, none, not, present,
  refl, some, true, ◌&&◌, ◌∙◌, ◌∷◌, ◌≡◌,
}
use subscription_service.Effects.{Exec, Result, ok, err, pure, continue, ◌>>◌, ◌>>=◌}
use subscription_service.Effects.Triple.{Triple, Triple-pure, Triple-if, Triple-bind, Triple-keeps}
use subscription_service.World.{World}
use subscription_service.World.Session.{query, provider_call}
use subscription_service.Models.{Subscription}
use subscription_service.Settings.{Settings}
use subscription_service.Provider.{BillingProvider, RemoteSubscription}
use subscription_service.Sync.{belongs_to_this_service}
use subscription_service.Sync.Mirror.Sound.{query_world}
use subscription_service.Jobs.Reconcile.Report.{Run, ReconcileReport, on_world, tally}
use subscription_service.Jobs.Reconcile.{
  agrees, user_of, user_id_of, named_user, has_marks, notified_at, account_state, orphan_mark,
  clear_marks, record_orphan, repair, compare_row, settle, reconcile_ours, reconcile_one,
}

-- Stripe's calls that read leave it as it is
pub record IsReadOnly {R : Type 0} (stripe : BillingProvider R) : Type 0 where
  pub listing : (after : Option String) (r : R) → (stripe.list_subscriptions_page after r).1 ≡ r
  pub customer : (id : String) (r : R) → (stripe.retrieve_customer id r).1 ≡ r

-- the world of the run is this one
pub record IsAt {R : Type 0} (w : World R) (run : Run R) : Type 0 where
  pub same : run.world ≡ w

module _ {R : Type 0} (w : World R) where
  abbrev pub Stays : {A : Type 0} → Exec (Run R) A → Type 0
  Stays m = Triple (IsAt w) (λ _. IsAt w) (IsAt w) m

  pub on_world-Stays :
      {A : Type 0} (m : Exec (World R) A) → ((v : World R) → (m v).1 ≡ v) → Stays (on_world m)
  unfolding on_world
  on_world-Stays m h =
      Triple-keeps (IsAt w) (on_world m) (λ run at_w. record { same = h run.world ∙ at_w.same })

  tally-Stays : (f : ReconcileReport → ReconcileReport) → Stays (tally f)
  unfolding tally
  tally-Stays f = Triple-keeps (IsAt w) (tally f) (λ run h. record { same = h.same })

  pub pure-Stays : {A : Type 0} (a : A) → Stays (pure a)
  pure-Stays a = Triple-pure a (λ run h. h)

module _ {R : Type 0} (settings : Settings) (stripe : BillingProvider R)
    (missing : List String → Option (List String)) (reads : IsReadOnly stripe) where
  pub provider_call_world :
      {A : Type 0} (call : Exec R A) (v : World R)
      → ((r : R) → (call r).1 ≡ r)
      → (provider_call call v).1 ≡ v
  unfolding provider_call
  provider_call_world call v h = ap (λ r. record v { remote = r }) (h v.remote)

  account_state_world :
      (user_id : Option String) (v : World R)
      → (account_state settings stripe missing true user_id v).1 ≡ v
  unfolding account_state ◌>>=◌ query
  account_state_world none v = refl
  account_state_world (some user_id) v = ground arith

  provider_then_pure :
      {A B : Type 0} (call : Exec R A) (f : A → B) (v : World R)
      → ((r : R) → (call r).1 ≡ r)
      → ((provider_call call >>= λ a. pure (f a)) v).1 ≡ v
  unfolding ◌>>=◌
  provider_then_pure call f v h = after (provider_call call v).0 ∙ provider_call_world call v h
    where
      after :
          (r : Result _)
          → (continue r (λ a. pure (f a)) (provider_call call v).1).1 ≡ (provider_call call v).1
      after (ok a) = refl
      after (err e) = refl

  named_user_world :
      (customer : String) (user_id : Option String) (v : World R)
      → (named_user settings stripe missing true customer user_id v).1 ≡ v
  unfolding named_user
  named_user_world customer (some user_id) v = refl
  named_user_world customer none v =
      provider_then_pure (stripe.retrieve_customer customer) (λ found. found.user_id) v
        (reads.customer customer)

  user_of_world :
      (local : Option Subscription) (remote : RemoteSubscription) (customer : String) (v : World R)
      → (user_of settings stripe missing true local remote customer v).1 ≡ v
  unfolding user_of user_id_of
  user_of_world none remote customer v = named_user_world customer _ v
  user_of_world (some local) remote customer v = refl

  orphan_mark_world :
      (remote : RemoteSubscription) (since : Option String) (v : World R)
      → (orphan_mark settings stripe missing true remote since v).1 ≡ v
  unfolding orphan_mark
  orphan_mark_world remote (some since) v = refl
  orphan_mark_world remote none v = refl

  clear_marks_world :
      (remote : RemoteSubscription) (known : Option Bool) (v : World R)
      → (clear_marks settings stripe missing true remote known v).1 ≡ v
  unfolding clear_marks
  clear_marks_world remote (some false) v = kept (has_marks remote)
    where
      kept :
          (b : Bool)
          → ((if b && not true
                then provider_call (
                    stripe.set_subscription_metadata remote.id
                      ((orphaned_at, "") ∷ (notified_at, "") ∷ []))
                else pure tt)
              v).1
            ≡ v
      kept true = refl
      kept false = refl
  clear_marks_world remote (some true) v = refl
  clear_marks_world remote none v = refl

module _ {R : Type 0} (settings : Settings) (stripe : BillingProvider R)
    (missing : List String → Option (List String)) (reads : IsReadOnly stripe) (w : World R) where
  record_orphan-Stays :
      (remote : RemoteSubscription) (customer user_id : String)
      → Stays w (record_orphan settings stripe missing true remote customer user_id)
  unfolding record_orphan
  record_orphan-Stays remote customer user_id =
      Triple-if remote.ended _ _ (λ _. tally-Stays w _)
        λ _.
          Triple-bind _ _
            (on_world-Stays w _ (orphan_mark_world settings stripe missing reads remote _))
            λ since. tally-Stays w _

  compare_row-Stays :
      (local : Option Subscription) (remote : RemoteSubscription) (customer : String)
      → Stays w (compare_row settings stripe missing true local remote customer)
  unfolding compare_row repair
  compare_row-Stays none remote customer = Triple-bind _ _ (tally-Stays w _) λ _. pure-Stays w false
  compare_row-Stays (some local) remote customer =
      Triple-if (agrees settings.stripe_price_ids local remote) _ _ (λ _. pure-Stays w false)
        λ _. Triple-bind _ _ (tally-Stays w _) λ _. pure-Stays w false

  compared-Stays :
      (known : Option Bool) (local : Option Subscription) (remote : RemoteSubscription)
      (customer : String)
      → Stays w (
          on_world (clear_marks settings stripe missing true remote known)
          >> compare_row settings stripe missing true local remote customer)
  compared-Stays known local remote customer =
      Triple-bind _ _
        (on_world-Stays w _ (clear_marks_world settings stripe missing reads remote known))
        λ _. compare_row-Stays local remote customer

  settle-Stays :
      (local : Option Subscription) (remote : RemoteSubscription) (customer : String)
      (user_id : Option String) (known : Option Bool)
      → Stays w (settle settings stripe missing true local remote customer user_id known)
  unfolding settle
  settle-Stays local remote customer (some user_id) (some true) =
      Triple-bind _ _ (record_orphan-Stays remote customer user_id) λ _. pure-Stays w false
  settle-Stays local remote customer (some user_id) (some false) =
      compared-Stays (some false) local remote customer
  settle-Stays local remote customer (some user_id) none = compared-Stays none local remote customer
  settle-Stays local remote customer none known = compared-Stays known local remote customer

  pub reconcile_one-Stays :
      (remote : RemoteSubscription) (customer : String)
      → Stays w (reconcile_one settings stripe missing true remote customer)
  unfolding reconcile_one reconcile_ours
  reconcile_one-Stays remote customer =
      Triple-bind _ _ (on_world-Stays w _ (query_world _)) λ local.
        Triple-if
          (not (is_some local)
            && not (belongs_to_this_service settings.stripe_price_ids (some remote)))
          _ _ (λ _. Triple-bind _ _ (tally-Stays w _) λ _. pure-Stays w false)
          λ _.
            Triple-bind _ _
              (on_world-Stays w _
                (user_of_world settings stripe missing reads local remote customer))
              λ user_id.
                Triple-bind _ _
                  (on_world-Stays w _ (account_state_world settings stripe missing reads _))
                  λ known. settle-Stays local remote customer (present user_id) known
