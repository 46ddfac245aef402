-- ===== src/Users/Admin/OneOwner.antt =====
-- The number of owners, under every step.
use bunmail.Prelude.{
  none, some, true, false, Option-cases, Option, List, not, filter, ℕ, ℕ, ◌≡◌, refl, ◌∙◌, String,
  Bool, true, false, some, str_eq, arith,
}
use bunmail.Dict.{count, get, Distinct, count-delete, delete-Distinct}
use bunmail.Users.Roles.{UserRole, owner, admin, role_eq}
use bunmail.Users.Tables.{Account, Tables, update_account}
use bunmail.Users.Tables.{Invite, ResetLink}
use bunmail.Users.Invites.{
  first, acceptable, find_live_invitation, insert_account, open_account, spend, accept_live,
  accept_invitation,
}
use bunmail.Users.Reset.{usable_reset, reset_done, complete_seen, complete_password_reset}
use bunmail.Users.Admin.{set_role, deactivated, reactivated, removed, transferred}
use bunmail.Users.Admin.Keeps.{Kept, AdminSteps-keep}
use bunmail.Users.Admin.Steps.{AdminSteps}
use bunmail.Users.Admin.Owners.{
  is_owner, owners, HasOwners, update_account-Distinct, count-update_account_other, count-transfer,
}

module _ (n : ℕ) (t : Tables) (h : HasOwners n t) where
  set_role-HasOwners :
      (target_id : String) (target : Account) (role : UserRole)
      → get t.accounts target_id ≡ some target
      → is_owner target ≡ false
      → role_eq role owner ≡ false
      → HasOwners n (set_role t target_id target role).0
  unfolding set_role owners HasOwners
  set_role-HasOwners target_id target role there was is = ground (
    arith,
    h.0,
    h.1,
    update_account-Distinct t.accounts target_id (λ a. record a { role = role }) h.0,
    count-update_account_other t.accounts target_id (λ a. record a { role = role }) target there was
        is,
  )

  disabling-HasOwners :
      (id : String) (a : Account) (off : Bool) (u : Tables)
      → get t.accounts id ≡ some a
      → is_owner a ≡ false
      → u.accounts ≡ update_account t.accounts id (λ b. record b { disabled = off })
      → HasOwners n u
  unfolding owners HasOwners
  disabling-HasOwners id a off u there was same = rw same (
    update_account-Distinct t.accounts id (λ b. record b { disabled = off }) h.0,
    count-update_account_other t.accounts id (λ b. record b { disabled = off }) a there was was
        ∙ h.1,
  )

  removed-HasOwners :
      (id : String) (a : Account)
      → get t.accounts id ≡ some a
      → is_owner a ≡ false
      → HasOwners n (removed t id)
  unfolding removed owners HasOwners
  removed-HasOwners id a there was = (
    delete-Distinct t.accounts id h.0,
    ground (arith, h.1, count-delete is_owner t.accounts id a h.0 there),
  )

  transferred-HasOwners :
      (i k : String) (a b : Account)
      → get t.accounts i ≡ some a
      → get t.accounts k ≡ some b
      → str_eq i k ≡ false
      → is_owner a ≡ true
      → is_owner b ≡ false
      → HasOwners n (transferred t i k)
  unfolding transferred owners HasOwners
  transferred-HasOwners i k a b here there apart was is = (
    update_account-Distinct (update_account t.accounts i (λ c. record c { role = admin })) k
        (λ c. record c { role = owner })
        (update_account-Distinct t.accounts i (λ c. record c { role = admin }) h.0),
    count-transfer t.accounts i k a b here there apart was is ∙ h.1,
  )

module _ (n : ℕ) (t : Tables) (h : HasOwners n t) where
  spend-HasOwners :
      (unspent : List Invite) (user_id : String) (found : Option Invite)
      → HasOwners n (spend t unspent user_id found).0
  unfolding open_account insert_account HasOwners owners count
  spend-HasOwners unspent user_id none = h
  spend-HasOwners unspent user_id (some spent) = ground (arith, h)

  accept_live-HasOwners :
      (now : ℕ) (hash user_id : String) (target : Option Invite)
      → HasOwners n (accept_live now t hash user_id target).0
  unfolding HasOwners owners
  accept_live-HasOwners now hash user_id none = h
  accept_live-HasOwners now hash user_id (some target) = ground (
    arith,
    h,
    spend-HasOwners (filter (λ i. not (acceptable now t.accounts hash i)) t.invites) user_id
        (first (acceptable now t.accounts hash) t.invites),
  )

  accept_invitation-HasOwners :
      (now : ℕ) (seen : Tables) (hash user_id : String)
      → HasOwners n (accept_invitation now seen t hash user_id).0
  unfolding accept_invitation
  accept_invitation-HasOwners now seen hash user_id =
      accept_live-HasOwners now hash user_id (find_live_invitation now seen hash)

  complete_seen-HasOwners :
      (now : ℕ) (hash : String) (link : Option ResetLink)
      → HasOwners n (complete_seen now t hash link).0
  unfolding reset_done HasOwners owners
  complete_seen-HasOwners now hash none = h
  complete_seen-HasOwners now hash (some link) =
      ground (arith, h, Option-cases (first (usable_reset now t.accounts hash) t.resets))

  complete_password_reset-HasOwners :
      (now : ℕ) (seen : Tables) (hash : String)
      → HasOwners n (complete_password_reset now seen t hash).0
  unfolding complete_password_reset
  complete_password_reset-HasOwners now seen hash =
      complete_seen-HasOwners now hash (first (usable_reset now seen.accounts hash) seen.resets)

HasOwners-Kept : (n : ℕ) → Kept (HasOwners n)
unfolding deactivated reactivated HasOwners owners
HasOwners-Kept n = record {
  set_role_keeps = λ t h id a there was role is. set_role-HasOwners n t h id a role there was is;
  deactivated_keeps =
      λ t h id a there was. disabling-HasOwners n t h id a true (deactivated t id) there was refl;
  reactivated_keeps =
      λ t h id a there was. disabling-HasOwners n t h id a false (reactivated t id) there was refl;
  removed_keeps = λ t h id a there was. removed-HasOwners n t h id a there was;
  transferred_keeps = λ t h i k a b here there apart was_owner was_admin.
      transferred-HasOwners n t h i k a b here there apart was_owner (ground arith);
  reset_issued_keeps = λ t h i k a b here there on passed mint. h;
  accepted_keeps =
      λ t h now seen hash user_id. accept_invitation-HasOwners n t h now seen hash user_id;
  completed_keeps = λ t h now seen hash. complete_password_reset-HasOwners n t h now seen hash;
}

module _ (trim to_lower_case : String → String) (sso_only : String → Bool) where
  -- After any calls of the account actions, acceptances and completed resets, in any order and with any answers, there are as many
  -- owners as before, where no id stands twice among the accounts.
  pub owners-AdminSteps :
      (t u : Tables)
      → Distinct t.accounts
      → AdminSteps trim to_lower_case sso_only t u
      → owners u ≡ owners t
  unfolding HasOwners
  owners-AdminSteps t u d steps =
      (AdminSteps-keep trim to_lower_case sso_only (HasOwners (owners t))
        (HasOwners-Kept (owners t)) t u steps (d, refl)).1
