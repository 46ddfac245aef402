-- ===== src/Users/Admin/Allowed.antt =====
-- What an action that goes through may rely on.
use bunmail.Prelude.{◌≡◌, refl, String, Bool, true, false, Option, none, some, if◌then◌else◌}
use bunmail.Dict.{get}
use bunmail.Users.Roles.{AccountAction, AccountRefusal, actor_inactive, account_action_refusal}
use bunmail.Users.Tables.{Account, Tables}
use bunmail.Users.Admin.{Result, party, unless, on_target, as_actor, run_account_action}

-- The rows after an action have `P` if those before it have, and those after a change that the
-- policy allows.
module _ {ℓ} (P : Tables → Type ℓ) (t : Tables) (h : P t) (action : AccountAction)
    (actor_id target_id : String) where
  pub unless-keeps :
      (reason : Option AccountRefusal) (done : Result)
      → (reason ≡ none → P done.0)
      → P (unless t reason done).0
  unless-keeps (some reason) done keeps = h
  unless-keeps none done keeps = keeps refl

  pub test_keeps :
      (b : Bool) (x y : Result) → P x.0 → P y.0 → P (if◌then◌else◌ {A = Result} b x y).0
  test_keeps true x y hx hy = hx
  test_keeps false x y hx hy = hy

  abbrev pub Allowed : Account → Account → Type 0
  Allowed actor target =
      (get t.accounts actor_id ≡ some actor)
      × (actor.disabled ≡ false)
      × (get t.accounts target_id ≡ some target)
      × (account_action_refusal action (party actor_id actor) (party target_id target) ≡ none)

  disabled-keeps :
      (off : Bool) (done : Result)
      → (off ≡ false → P done.0)
      → P (if off then (t, some actor_inactive) else done).0
  disabled-keeps true done keeps = h
  disabled-keeps false done keeps = keeps refl

  module _ (mutate : Account → Account → Result)
      (keeps : (actor target : Account) → Allowed actor target → P (mutate actor target).0) where
    on_target-keeps :
        (actor : Account)
        → get t.accounts actor_id ≡ some actor
        → actor.disabled ≡ false
        → (found : Option Account) → get t.accounts target_id ≡ found
        → P (on_target t action (party actor_id actor) target_id found (mutate actor)).0
    on_target-keeps actor here on none there = h
    on_target-keeps actor here on (some target) there =
        unless-keeps (account_action_refusal action (party actor_id actor) (party target_id target))
          (mutate actor target) (λ passed. keeps actor target (here, on, there, passed))

    as_actor-keeps :
        (found : Option Account)
        → get t.accounts actor_id ≡ found
        → P (as_actor t action actor_id found target_id mutate).0
    as_actor-keeps none here = h
    as_actor-keeps (some actor) here =
        disabled-keeps actor.disabled
          (on_target t action (party actor_id actor) target_id (get t.accounts target_id)
            (mutate actor))
          (λ on. on_target-keeps actor here on (get t.accounts target_id) refl)

    pub run_account_action-keeps : P (run_account_action t action actor_id target_id mutate).0
    unfolding run_account_action
    run_account_action-keeps = as_actor-keeps (get t.accounts actor_id) refl
