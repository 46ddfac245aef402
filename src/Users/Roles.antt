-- ===== src/Users/Roles.antt =====
-- src/modules/users/services/invite-policy.service.ts and user-admin-policy.service.ts: who may do
-- what to whom.
pub mod Ranks
use bunmail.Prelude.{
  String, Bool, true, false, not, ◌&&◌, List, [], ◌∷◌, Option, none, some, if◌then◌else◌, str_eq,
  any, filter,
}

pub data UserRole : Type 0 where
  owner admin member : UserRole

abbrev pub role_eq : UserRole → UserRole → Bool
role_eq owner owner = true
role_eq admin admin = true
role_eq member member = true
role_eq _ _ = false

-- `GRANTABLE_ROLES`
abbrev pub grantable_roles : UserRole → List UserRole
grantable_roles owner = admin ∷ member ∷ []
grantable_roles admin = member ∷ []
grantable_roles member = []

abbrev pub can_grant_role : UserRole → UserRole → Bool
can_grant_role actor role = any (λ r. role_eq r role) (grantable_roles actor)

-- A role's text, where it can be given by an invitation.
pub invite_role_of : String → Option UserRole
invite_role_of raw =
    if str_eq raw "admin" then some admin else if str_eq raw "member" then some member else none

pub data AccountAction : Type 0 where
  change_role reset_password deactivate reactivate transfer_ownership remove : AccountAction

pub data AccountRefusal : Type 0 where
  actor_inactive not_found self target_is_owner role_not_allowed invalid_role : AccountRefusal
  unchanged confirm_mismatch wrong_password not_eligible : AccountRefusal
  sso_link_without_second_factor rate_limited account_disabled : AccountRefusal

pub record AccountParty : Type 0 where
  pub id : String
  pub role : UserRole
  pub disabled : Bool

abbrev can_manage : UserRole → UserRole → Bool
can_manage actor target = any (λ r. role_eq r target) (grantable_roles actor)

-- The `switch` over the action.
unfoldable pub role_refusal : AccountAction → AccountParty → AccountParty → Option AccountRefusal
role_refusal change_role actor target =
    if role_eq actor.role owner then none else some role_not_allowed
role_refusal deactivate actor target =
    if not (can_manage actor.role target.role)
    then some role_not_allowed
    else if target.disabled
    then some unchanged
    else none
role_refusal reactivate actor target =
    if not (can_manage actor.role target.role)
    then some role_not_allowed
    else if target.disabled
    then none
    else some unchanged
role_refusal remove actor target =
    if can_manage actor.role target.role then none else some role_not_allowed
role_refusal transfer_ownership actor target =
    if not (role_eq actor.role owner)
    then some role_not_allowed
    else if role_eq target.role admin && not target.disabled
    then none
    else some not_eligible
role_refusal reset_password actor target =
    if not (can_manage actor.role target.role)
    then some role_not_allowed
    else if target.disabled
    then some account_disabled
    else none

unfoldable pub account_action_refusal :
    AccountAction → AccountParty → AccountParty → Option AccountRefusal
unfolding role_refusal
account_action_refusal action actor target =
    if str_eq actor.id target.id
    then some self
    else if role_eq target.role owner
    then some target_is_owner
    else role_refusal action actor target

abbrev is_allowed : Option AccountRefusal → Bool
is_allowed none = true
is_allowed (some reason) = false

pub allowed_account_actions : AccountParty → AccountParty → List AccountAction
unfolding account_action_refusal
allowed_account_actions actor target =
    filter (λ a. is_allowed (account_action_refusal a actor target))
      (change_role ∷ reset_password ∷ deactivate ∷ reactivate ∷ transfer_ownership ∷ remove ∷ [])
