-- ===== src/Users/Admin.antt =====
-- src/modules/users/services/user-admin.service.ts, user-admin-action.service.ts and
-- user-admin-transfer.service.ts: the account actions. Each runs in one transaction, under one
-- lock. Parameters: which accounts have a single sign-on link without a second factor, the ids of
-- new rows, and how text is trimmed and lower-cased. Audit events and log lines are left out.
pub mod Allowed
pub mod Steps
pub mod Keeps
pub mod Owners
pub mod OneOwner
pub mod Rows
pub mod Sound
use bunmail.Prelude.{
  String, Bool, true, false, not, ◌&&◌, List, [], ◌∷◌, Option, none, some, if◌then◌else◌, str_eq,
  filter, map,
}
use bunmail.Dict.{Dict, get, set, delete}
use bunmail.Users.Roles.{
  UserRole, owner, admin, member, role_eq, invite_role_of, AccountAction, change_role,
  reset_password, deactivate, reactivate, transfer_ownership, remove, AccountRefusal,
  actor_inactive, not_found, invalid_role, unchanged, confirm_mismatch, wrong_password,
  sso_link_without_second_factor, rate_limited, AccountParty, account_action_refusal,
}
use bunmail.Users.Tables.{
  Mint, Account, Invite, ResetLink, KeyRow, Tables, revoke_invites_issued_by, revoke_resets_for,
  revoke_resets_issued_by, revoke_all_user_sessions, disable_keys_created_by,
  downgrade_admin_keys_created_by, update_account, without,
}

-- What an action ends with: the rows after it, and the reason if it was refused.
abbrev pub Result : Type 0
Result = Tables × Option AccountRefusal

abbrev pub party : String → Account → AccountParty
party id a = record { id = id; role = a.role; disabled = a.disabled }

-- `runAccountAction`, from its checks of the target, of the actor, and from its start. A `mutate`
-- that refuses has changed nothing.
abbrev pub unless : Tables → Option AccountRefusal → Result → Result
unless t (some reason) done = (t, some reason)
unless t none done = done

abbrev pub on_target :
    Tables → AccountAction → AccountParty → String → Option Account → (Account → Result) → Result
on_target t action actor target_id none mutate = (t, some not_found)
on_target t action actor target_id (some target) mutate =
    unless t (account_action_refusal action actor (party target_id target)) (mutate target)

abbrev pub as_actor :
    Tables
    → AccountAction
    → String
    → Option Account
    → String
    → (Account → Account → Result)
    → Result
as_actor t action actor_id none target_id mutate = (t, some actor_inactive)
as_actor t action actor_id (some actor) target_id mutate =
    if actor.disabled
    then (t, some actor_inactive)
    else on_target t action (party actor_id actor) target_id (get t.accounts target_id)
        (mutate actor)

pub run_account_action :
    Tables → AccountAction → String → String → (Account → Account → Result) → Result
run_account_action t action actor_id target_id mutate =
    as_actor t action actor_id (get t.accounts actor_id) target_id mutate

-- The change of a role that the policy allows.
pub set_role : Tables → String → Account → UserRole → Result
set_role t target_id target role =
    if role_eq target.role role
    then (t, some unchanged)
    else let accounts = update_account t.accounts target_id (λ a. record a { role = role }) in
      if not (role_eq role member)
      then (record t { accounts = accounts; resets = revoke_resets_for t.resets target_id }, none)
      else (
        record t {
          accounts = accounts;
          invites = revoke_invites_issued_by t.invites target_id none;
          resets = revoke_resets_issued_by accounts t.resets target_id none;
          keys = downgrade_admin_keys_created_by t.keys target_id;
        },
        none,
      )

pub change_account_role : Tables → String → String → String → Result
unfolding run_account_action
change_account_role t actor_id target_id raw_role = elim (invite_role_of raw_role) [
  | none ↦ (t, some invalid_role)
  | some role ↦
      run_account_action t change_role actor_id target_id
        (λ actor target. set_role t target_id target role)
]

pub deactivated : Tables → String → Tables
deactivated t id =
    let accounts = update_account t.accounts id (λ a. record a { disabled = true }) in
    record t {
      accounts = accounts;
      sessions = revoke_all_user_sessions t.sessions id;
      invites = revoke_invites_issued_by t.invites id none;
      resets = revoke_resets_issued_by accounts (revoke_resets_for t.resets id) id none;
      keys = disable_keys_created_by t.keys id;
    }

pub deactivate_account : Tables → String → String → Result
unfolding run_account_action
deactivate_account t actor_id target_id =
    run_account_action t deactivate actor_id target_id
      (λ actor target. (deactivated t target_id, none))

pub reactivated : Tables → String → Tables
reactivated t id = record t {
  accounts = update_account t.accounts id (λ a. record a { disabled = false });
  sessions = revoke_all_user_sessions t.sessions id;
}

pub reactivate_account : Tables → String → String → Result
unfolding run_account_action
reactivate_account t actor_id target_id =
    run_account_action t reactivate actor_id target_id
      (λ actor target. (reactivated t target_id, none))

-- The deletion of the row takes the links of the account with it, and leaves null where it
-- was the issuer or the creator.
pub removed : Tables → String → Tables
removed t id = record {
  accounts = delete t.accounts id;
  invites =
      map (λ (i : Invite). record i { invited_by = without id i.invited_by })
        (revoke_invites_issued_by t.invites id none);
  resets =
      map (λ (l : ResetLink). record l { invited_by = without id l.invited_by })
        (revoke_resets_for t.resets id);
  setups = filter (λ u. not (str_eq u id)) t.setups;
  sessions = revoke_all_user_sessions t.sessions id;
  keys =
      map (λ (k : KeyRow). record k { created_by = without id k.created_by })
        (disable_keys_created_by t.keys id);
}

module _ (trim to_lower_case : String → String) where
  pub removal_confirmed : String → String → Bool
  removal_confirmed confirm email = str_eq (to_lower_case (trim confirm)) email

  pub remove_account : Tables → String → String → String → Result
  unfolding run_account_action
  remove_account t actor_id target_id confirm =
      run_account_action t remove actor_id target_id (λ actor target.
        if not (removal_confirmed confirm target.email)
        then (t, some confirm_mismatch)
        else (removed t target_id, none))

-- The roles of the two accounts change places. `moveOwnerRecords` moves templates, domains and
-- webhooks, which are no part of the tables.
pub transferred : Tables → String → String → Tables
transferred t owner_id new_owner_id = record t {
  accounts =
      update_account (update_account t.accounts owner_id (λ a. record a { role = admin }))
        new_owner_id (λ a. record a { role = owner });
  resets =
      revoke_resets_for (revoke_resets_issued_by t.accounts t.resets owner_id (some admin))
        new_owner_id;
  invites = revoke_invites_issued_by t.invites owner_id (some admin);
  setups = [];
}

module _ (sso_only : String → Bool) where
  -- The transaction that hands over, after the password is verified.
  abbrev pub hand_over : Tables → String → String → Result
  hand_over t actor_id target_id =
      run_account_action t transfer_ownership actor_id target_id (λ actor target.
        if sso_only target_id
        then (t, some sso_link_without_second_factor)
        else (transferred t actor_id target_id, none))

  -- `seen` is what the checks before the transaction read; other calls may come in between.
  -- `limited` is what the attempt limiter answers, `verified` whether the password is right.
  pub transfer_ownership_to : Tables → Tables → String → String → Bool → Bool → Result
  unfolding run_account_action
  transfer_ownership_to seen t actor_id target_id limited verified =
      let early = run_account_action seen transfer_ownership actor_id target_id (λ actor target.
        (seen, if sso_only target_id then some sso_link_without_second_factor else none)) in
      unless t early.1 (
        if limited
        then (t, some rate_limited)
        else if not verified
        then (t, some wrong_password)
        else hand_over t actor_id target_id)

pub issue_password_reset : Tables → String → String → Mint → Result
unfolding run_account_action
issue_password_reset t actor_id target_id mint =
    run_account_action t reset_password actor_id target_id (λ actor target. (
      record t {
        resets =
            record {
              id = mint.token_id;
              user_id = target_id;
              invited_by = some actor_id;
              token_hash = mint.hash;
              expires_at = mint.expires;
            }
            ∷ revoke_resets_for t.resets target_id;
      },
      none,
    ))
