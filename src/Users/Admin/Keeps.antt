-- ===== src/Users/Admin/Keeps.antt =====
-- What the changes of the rows keep, the calls keep.
use bunmail.Prelude.{
  ℕ, ◌≡◌, ◌∷◌, String, Bool, true, false, not, none, some, if◌then◌else◌, str_eq, Option-cases, inl,
  inr,
}
use bunmail.Dict.{get}
use bunmail.Users.Roles.{
  UserRole, owner, admin, role_eq, AccountAction, change_role, reset_password, deactivate,
  reactivate, transfer_ownership, remove, rate_limited, wrong_password, confirm_mismatch,
  sso_link_without_second_factor, account_action_refusal, invite_role_of,
}
use bunmail.Users.Roles.Ranks.{
  account_action_refusal-ranks, account_action_refusal-owner,
  account_action_refusal-transfer_ownership, invite_role_of-owner,
}
use bunmail.Users.Tables.{Mint, Account, Tables, revoke_resets_for}
use bunmail.Users.Invites.{accept_invitation}
use bunmail.Users.Reset.{complete_password_reset}
use bunmail.Users.Admin.{
  Result, party, run_account_action, set_role, change_account_role, deactivated, deactivate_account,
  reactivated, reactivate_account, removed, remove_account, transferred, hand_over,
  transfer_ownership_to, issue_password_reset, removal_confirmed,
}
use bunmail.Users.Admin.Allowed.{unless-keeps, test_keeps, run_account_action-keeps}
use bunmail.Users.Admin.Steps.{
  AdminStep, by_change_role, by_deactivate, by_reactivate, by_remove, by_transfer, by_reset,
  by_acceptance, by_completion, AdminSteps, steps_keep,
}

-- The changes, each with what the policy has checked before it.
pub record Kept {ℓ} (P : Tables → Type ℓ) : Type ℓ where
  pub set_role_keeps :
      (t : Tables)
      → P t
      → (id : String) (a : Account) → get t.accounts id ≡ some a
      → role_eq a.role owner ≡ false
      → (role : UserRole) → role_eq role owner ≡ false
      → P (set_role t id a role).0
  pub deactivated_keeps :
      (t : Tables)
      → P t
      → (id : String) (a : Account) → get t.accounts id ≡ some a
      → role_eq a.role owner ≡ false
      → P (deactivated t id)
  pub reactivated_keeps :
      (t : Tables)
      → P t
      → (id : String) (a : Account) → get t.accounts id ≡ some a
      → role_eq a.role owner ≡ false
      → P (reactivated t id)
  pub removed_keeps :
      (t : Tables)
      → P t
      → (id : String) (a : Account) → get t.accounts id ≡ some a
      → role_eq a.role owner ≡ false
      → P (removed t id)
  pub transferred_keeps :
      (t : Tables)
      → P t
      → (i k : String) (a b : Account) → get t.accounts i ≡ some a
      → get t.accounts k ≡ some b
      → str_eq i k ≡ false
      → role_eq a.role owner ≡ true
      → role_eq b.role admin ≡ true
      → P (transferred t i k)
  pub reset_issued_keeps :
      (t : Tables)
      → P t
      → (i k : String) (a b : Account) → get t.accounts i ≡ some a
      → get t.accounts k ≡ some b
      → a.disabled ≡ false
      → account_action_refusal reset_password (party i a) (party k b) ≡ none
      → (mint : Mint)
      → P (record t {
        resets =
            record {
              id = mint.token_id;
              user_id = k;
              invited_by = some i;
              token_hash = mint.hash;
              expires_at = mint.expires;
            }
            ∷ revoke_resets_for t.resets k;
      })
  pub accepted_keeps :
      (t : Tables)
      → P t
      → (now : ℕ) (seen : Tables) (hash user_id : String)
      → P (accept_invitation now seen t hash user_id).0
  pub completed_keeps :
      (t : Tables)
      → P t
      → (now : ℕ) (seen : Tables) (hash : String) → P (complete_password_reset now seen t hash).0

module _ {ℓ} (P : Tables → Type ℓ) (changes : Kept P) (t : Tables) (h : P t) where
  -- Every action that the policy allows.
  module _ (action : AccountAction) (actor_id target_id : String)
      (mutate : Account → Account → Result) where
    kept :
        ((actor target : Account)
          → get t.accounts actor_id ≡ some actor
          → actor.disabled ≡ false
          → get t.accounts target_id ≡ some target
          → role_eq target.role owner ≡ false
          → account_action_refusal action (party actor_id actor) (party target_id target) ≡ none
          → P (mutate actor target).0)
        → P (run_account_action t action actor_id target_id mutate).0
    kept keeps =
        run_account_action-keeps P t h action actor_id target_id mutate
          (λ actor target (here, on, there, passed).
            keeps actor target here on there
              (account_action_refusal-owner action (party actor_id actor) (party target_id target)
                passed)
              passed)

  change_account_role_keeps :
      (actor_id target_id raw : String) → P (change_account_role t actor_id target_id raw).0
  unfolding change_account_role
  change_account_role_keeps actor_id target_id raw = elim (Option-cases (invite_role_of raw)) [
    | inl bad ↦ rw (bad, change_account_role) h
    | inr (role, good) ↦
        rw (good, change_account_role)
          (kept change_role actor_id target_id (λ actor target. set_role t target_id target role)
            (λ actor target here on there was passed.
              changes.set_role_keeps t h target_id target there was role
                (invite_role_of-owner raw role good)))
  ]

  deactivate_account_keeps :
      (actor_id target_id : String) → P (deactivate_account t actor_id target_id).0
  unfolding deactivate_account
  deactivate_account_keeps actor_id target_id =
      kept deactivate actor_id target_id (λ actor target. (deactivated t target_id, none))
        (λ actor target here on there was passed.
          changes.deactivated_keeps t h target_id target there was)

  reactivate_account_keeps :
      (actor_id target_id : String) → P (reactivate_account t actor_id target_id).0
  unfolding reactivate_account
  reactivate_account_keeps actor_id target_id =
      kept reactivate actor_id target_id (λ actor target. (reactivated t target_id, none))
        (λ actor target here on there was passed.
          changes.reactivated_keeps t h target_id target there was)

  issue_password_reset_keeps :
      (actor_id target_id : String) (mint : Mint)
      → P (issue_password_reset t actor_id target_id mint).0
  unfolding issue_password_reset
  issue_password_reset_keeps actor_id target_id mint =
      kept reset_password actor_id target_id
        (λ actor target. (
          record t {
            resets =
                record {
                  id = mint.token_id;
                  user_id = target_id;
                  invited_by = some actor_id;
                  token_hash = mint.hash;
                  expires_at = mint.expires;
                }
                ∷ revoke_resets_for t.resets target_id;
          },
          none,
        ))
        (λ actor target here on there was passed.
          changes.reset_issued_keeps t h actor_id target_id actor target here there on passed mint)

  module _ (trim to_lower_case : String → String) where
    remove_account_keeps :
        (actor_id target_id confirm : String)
        → P (remove_account trim to_lower_case t actor_id target_id confirm).0
    unfolding remove_account
    remove_account_keeps actor_id target_id confirm =
        kept remove actor_id target_id
          (λ actor target.
            if not (removal_confirmed trim to_lower_case confirm target.email)
            then (t, some confirm_mismatch)
            else (removed t target_id, none))
          (λ actor target here on there was passed.
            test_keeps P t h remove actor_id target_id
              (not (removal_confirmed trim to_lower_case confirm target.email))
              (t, some confirm_mismatch) (removed t target_id, none) h
              (changes.removed_keeps t h target_id target there was))

  module _ (sso_only : String → Bool) where
    hand_over_keeps : (actor_id target_id : String) → P (hand_over sso_only t actor_id target_id).0
    hand_over_keeps actor_id target_id =
        kept transfer_ownership actor_id target_id
          (λ actor target.
            if sso_only target_id
            then (t, some sso_link_without_second_factor)
            else (transferred t actor_id target_id, none))
          (λ a b here on there was passed.
            test_keeps P t h transfer_ownership actor_id target_id (sso_only target_id)
              (t, some sso_link_without_second_factor) (transferred t actor_id target_id, none) h
              (let (is_owner, is_admin, is_on) =
                  account_action_refusal-transfer_ownership (party actor_id a) (party target_id b)
                    passed in
                changes.transferred_keeps t h actor_id target_id a b here there
                  (account_action_refusal-ranks transfer_ownership (party actor_id a)
                    (party target_id b) passed).1
                  is_owner is_admin))

    transfer_ownership_to_keeps :
        (seen : Tables) (actor_id target_id : String) (limited verified : Bool)
        → P (transfer_ownership_to sso_only seen t actor_id target_id limited verified).0
    unfolding transfer_ownership_to
    transfer_ownership_to_keeps seen actor_id target_id limited verified =
        let done = hand_over sso_only t actor_id target_id in
        let second = if not verified then (t, some wrong_password) else done in
        unless-keeps P t h transfer_ownership actor_id target_id
          (run_account_action seen transfer_ownership actor_id target_id (λ actor target.
            (seen, if sso_only target_id then some sso_link_without_second_factor else none))).1
          (if limited then (t, some rate_limited) else second)
          (λ e.
            test_keeps P t h transfer_ownership actor_id target_id limited (t, some rate_limited)
              second h
              (test_keeps P t h transfer_ownership actor_id target_id (not verified)
                (t, some wrong_password) done h (hand_over_keeps actor_id target_id)))

module _ (trim to_lower_case : String → String) (sso_only : String → Bool) where
  step_keeps {ℓ} :
      (P : Tables → Type ℓ)
      → Kept P
      → (t u : Tables) → AdminStep trim to_lower_case sso_only t u
      → P t
      → P u
  step_keeps P changes t _ (by_change_role a b role) h =
      change_account_role_keeps P changes t h a b role
  step_keeps P changes t _ (by_deactivate a b) h = deactivate_account_keeps P changes t h a b
  step_keeps P changes t _ (by_reactivate a b) h = reactivate_account_keeps P changes t h a b
  step_keeps P changes t _ (by_remove a b c) h =
      remove_account_keeps P changes t h trim to_lower_case a b c
  step_keeps P changes t _ (by_transfer s a b l v) h =
      transfer_ownership_to_keeps P changes t h sso_only s a b l v
  step_keeps P changes t _ (by_acceptance n s a b) h = changes.accepted_keeps t h n s a b
  step_keeps P changes t _ (by_completion n s a) h = changes.completed_keeps t h n s a
  step_keeps P changes t _ (by_reset a b r) h = issue_password_reset_keeps P changes t h a b r

  -- What every change keeps, any number of calls of the actions keep.
  pub AdminSteps-keep {ℓ} :
      (P : Tables → Type ℓ)
      → Kept P
      → (t u : Tables) → AdminSteps trim to_lower_case sso_only t u
      → P t
      → P u
  AdminSteps-keep P changes t u steps h =
      steps_keep trim to_lower_case sso_only P (step_keeps P changes) t u steps h
