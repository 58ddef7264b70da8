-- ===== src/Sync/Mirror/Keeps.antt =====
-- `sync_subscription_from_stripe` on every path: an existing row, a new one, a lost race, a raise.
use subscription_service.Sync.{belongs_to_this_service}
use subscription_service.Provider.{RemoteSubscription, BillingProvider}
use subscription_service.Settings.{Settings}
use subscription_service.Effects.{ok, Exec, err, Result}
use subscription_service.World.{World}
use subscription_service.World.Session.{provider_call}
use subscription_service.Models.{Subscription}
use subscription_service.Prelude.{Option, String, lookup, none, some, ◌++◌, ◌==◌}
use subscription_service.Sync.Mirror.{
  sync_subscription, sync_found, orphaned_at, is_marked, mirror, claim_row, find_locked, adopt_user,
  adopt, sync_found,
}
use subscription_service.Sync.Project.{write_state-IsConsistent}
use subscription_service.Effects.Triple.{
  Triple-after, OnOutcome, Triple, Triple-pure, Triple-if, Triple-bind,
}
use subscription_service.Sync.Mirror.Sound.{
  IsSound, IsSoundDb, IsSoundWithRivals, claim_row-Triple, write_row-Triple, find_locked_world,
}

module _ {R : Type 0} (settings : Settings) (stripe : BillingProvider R) where
  mirror-Triple :
      (reason : String) (event : Option String) (sub : Subscription)
      (remote : Option RemoteSubscription)
      → Triple {S = World R} IsSoundDb
          (λ _. IsSoundDb)
          IsSoundDb
          (mirror settings stripe reason event sub remote)
  unfolding mirror
  mirror-Triple reason event sub remote = record {
    at = λ w h.
        (write_row-Triple _ _ _ _
            (write_state-IsConsistent settings.stripe_price_ids w.now sub remote)).at
          w h;
  }

  adopt_user-Triple :
      (reason : String) (event : Option String) (customer : String) (remote : RemoteSubscription)
      (user : Option String)
      → Triple {S = World R} IsSoundWithRivals
          (λ _. IsSoundDb)
          IsSoundDb
          (adopt_user settings stripe reason event customer remote user)
  unfolding adopt_user
  adopt_user-Triple reason event customer remote none =
      Triple-pure none (λ w h. record { table = h.table })
  adopt_user-Triple reason event customer remote (some user_id) =
      Triple-if (user_id == "") _ _ (λ _. Triple-pure none (λ w h. record { table = h.table }))
        λ _.
          Triple-if (is_marked (lookup orphaned_at remote.metadata)) _ _
            (λ _. Triple-pure none (λ w h. record { table = h.table }))
            λ _.
              Triple-bind (claim_row customer user_id) _ (claim_row-Triple customer user_id)
                λ sub. mirror-Triple reason event sub (some remote)

  provider_outcome :
      {A : Type 0} (r : Result A) (remote' : R) (w : World R)
      → IsSoundWithRivals w
      → OnOutcome (λ _. IsSoundWithRivals) IsSoundDb r (record w { remote = remote' })
  provider_outcome (ok a) remote' w h = record { table = h.table; with_rivals = h.with_rivals }
  provider_outcome (err e) remote' w h = record { table = h.table }

  provider_call-Triple :
      {A : Type 0} (call : Exec R A)
      → Triple {S = World R} IsSoundWithRivals
          (λ _. IsSoundWithRivals)
          IsSoundDb
          (provider_call call)
  unfolding provider_call
  provider_call-Triple call = record {
    at = λ w h. provider_outcome (call w.remote).0 (call w.remote).1 w h;
  }

  adopt-Triple :
      (reason : String) (event : Option String) (customer : String)
      (remote : Option RemoteSubscription)
      → Triple {S = World R} IsSoundWithRivals
          (λ _. IsSoundDb)
          IsSoundDb
          (adopt settings stripe reason event customer remote)
  unfolding adopt
  adopt-Triple reason event customer none = Triple-pure none (λ w h. record { table = h.table })
  adopt-Triple reason event customer (some remote) =
      Triple-if (belongs_to_this_service settings.stripe_price_ids (some remote)) _ _
        (λ _.
          Triple-bind (provider_call (stripe.retrieve_customer customer)) _
            (provider_call-Triple (stripe.retrieve_customer customer))
            λ found. adopt_user-Triple reason event customer remote found.user_id)
        (λ _. Triple-pure none (λ w h. record { table = h.table }))

  sync_found-Triple :
      (reason : String) (event : Option String) (customer : String) (found : Option Subscription)
      → Triple {S = World R} IsSoundWithRivals
          (λ _. IsSoundDb)
          IsSoundDb
          (sync_found settings stripe reason event customer found)
  unfolding sync_found
  sync_found-Triple reason event customer none =
      Triple-bind (provider_call (stripe.fetch_current_subscription customer)) _
        (provider_call-Triple (stripe.fetch_current_subscription customer))
        λ remote. adopt-Triple reason event customer remote
  sync_found-Triple reason event customer (some sub) =
      Triple-bind (provider_call (stripe.fetch_current_subscription customer)) _
        (provider_call-Triple (stripe.fetch_current_subscription customer))
        λ remote. record {
          at = λ w h. (mirror-Triple reason event sub remote).at w (record { table = h.table });
        }

  locked_outcome :
      (r : Result (Option Subscription)) (w : World R)
      → IsSoundWithRivals w
      → OnOutcome (λ _. IsSoundWithRivals) IsSoundDb r w
  locked_outcome (ok a) w h = h
  locked_outcome (err e) w h = record { table = h.table }

  find_locked-Triple' :
      (customer : String)
      → Triple {S = World R} IsSoundWithRivals
          (λ _. IsSoundWithRivals)
          IsSoundDb
          (find_locked customer)
  find_locked-Triple' customer = record {
    at = λ w h. rw (find_locked_world customer w) (locked_outcome (find_locked customer w).0 w h);
  }

  -- From a table that satisfies the constraints and holds consistent rows only, alone and with the
  -- rows that other workers are about to commit, every sync ends in such a table, whether it
  -- returns or raises.
  pub sync-IsSound :
      (reason : String) (event : Option String) (customer : String) (w : World R)
      → IsSound w.db.subscriptions
      → IsSound (w.db.subscriptions ++ w.rivals)
      → IsSound (sync_subscription settings stripe reason event customer w).1.db.subscriptions
  unfolding sync_subscription
  sync-IsSound reason event customer w h k =
      (Triple-after IsSoundDb (sync_subscription settings stripe reason event customer) w
        sync-Triple (record { table = h; with_rivals = k })).table
    where
      sync-Triple :
          Triple IsSoundWithRivals
            (λ _. IsSoundDb)
            IsSoundDb
            (sync_subscription settings stripe reason event customer)
      sync-Triple =
          Triple-bind (find_locked customer) _ (find_locked-Triple' customer)
            λ found. sync_found-Triple reason event customer found
