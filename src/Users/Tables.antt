-- ===== src/Users/Tables.antt =====
-- src/modules/users/models and src/modules/api-keys/models: the rows that administration reads and
-- changes, and the updates that its services share. Tokens are listed while they are open; a row
-- that is used or revoked leaves the list.
use bunmail.Prelude.{
  ℕ, String, Bool, true, false, not, ◌&&◌, List, Option, none, some, if◌then◌else◌, str_eq, filter,
  map,
}
use bunmail.Dict.{Dict, get, set}
use bunmail.Users.Roles.{UserRole, role_eq, can_grant_role}

pub record Account : Type 0 where
  pub email : String
  pub role : UserRole
  pub disabled : Bool

pub record Invite : Type 0 where
  pub id : String
  pub email : String
  pub role : UserRole
  pub invited_by : Option String
  pub token_hash : String
  pub expires_at : ℕ

pub record ResetLink : Type 0 where
  pub id : String
  pub user_id : String
  pub invited_by : Option String
  pub token_hash : String
  pub expires_at : ℕ

pub record KeyRow : Type 0 where
  pub id : String
  pub created_by : Option String
  pub is_active : Bool
  pub is_admin : Bool

-- What a new token is given: an id, the hash of its text and its expiry.
pub record Mint : Type 0 where
  pub token_id : String
  pub hash : String
  pub expires : ℕ

-- `users`; of `user_tokens`, the open invitations, the open reset links, and the users of the open
-- owner setup links; the users of `sessions`; `api_keys`.
pub record Tables : Type 0 where
  pub accounts : Dict Account
  pub invites : List Invite
  pub resets : List ResetLink
  pub setups : List String
  pub sessions : List String
  pub keys : List KeyRow

abbrev pub is_by : String → Option String → Bool
is_by id none = false
is_by id (some by) = str_eq by id

abbrev pub role_matches : Option UserRole → UserRole → Bool
role_matches none r = true
role_matches (some role) r = role_eq r role

-- `revokeInvitesIssuedBy`
unfoldable pub revoke_invites_issued_by : List Invite → String → Option UserRole → List Invite
revoke_invites_issued_by invites id role =
    filter (λ (i : Invite). not (is_by id i.invited_by && role_matches role i.role)) invites

-- `revokeOpenInvites`
unfoldable pub revoke_open_invites : List Invite → String → List Invite
revoke_open_invites invites email = filter (λ (i : Invite). not (str_eq i.email email)) invites

-- `revokeResetLinks` for a user, and for an issuer and the role that the targets have.
unfoldable pub revoke_resets_for : List ResetLink → String → List ResetLink
revoke_resets_for resets id = filter (λ (l : ResetLink). not (str_eq l.user_id id)) resets

abbrev pub target_has : Dict Account → Option UserRole → String → Bool
target_has accounts none id = true
target_has accounts (some role) id = elim (get accounts id) [
  | none ↦ false
  | some a ↦ role_eq a.role role
]

unfoldable pub revoke_resets_issued_by :
    Dict Account → List ResetLink → String → Option UserRole → List ResetLink
revoke_resets_issued_by accounts resets id role =
    filter (λ (l : ResetLink). not (is_by id l.invited_by && target_has accounts role l.user_id))
      resets

-- `revokeAllUserSessions`
unfoldable pub revoke_all_user_sessions : List String → String → List String
revoke_all_user_sessions sessions id = filter (λ u. not (str_eq u id)) sessions

-- `disableKeysCreatedBy` and `downgradeAdminKeysCreatedBy`
unfoldable pub disable_keys_created_by : List KeyRow → String → List KeyRow
disable_keys_created_by keys id =
    map (λ (k : KeyRow). if is_by id k.created_by then record k { is_active = false } else k) keys

unfoldable pub downgrade_admin_keys_created_by : List KeyRow → String → List KeyRow
downgrade_admin_keys_created_by keys id =
    map (λ (k : KeyRow). if is_by id k.created_by then record k { is_admin = false } else k) keys

-- An update of one account's row.
unfoldable pub update_account : Dict Account → String → (Account → Account) → Dict Account
update_account accounts id f = elim (get accounts id) [
  | none ↦ accounts
  | some a ↦ set accounts id (f a)
]

-- A deleted account's id becomes null where a row refers to it (`ON DELETE SET NULL`).
abbrev pub without : String → Option String → Option String
without id none = none
without id (some by) = if str_eq by id then none else some by

-- `inviterStillGrants` and `issuerStillManages`, the guards of a token that is presented, on the
-- accounts that its row names.
abbrev pub grants_now : Option Account → UserRole → Bool
grants_now none role = false
grants_now (some a) role = not a.disabled && can_grant_role a.role role

abbrev pub manages_now : String → Option Account → String → Option Account → Bool
manages_now issuer none target b = false
manages_now issuer (some a) target none = false
manages_now issuer (some a) target (some b) =
    not (str_eq issuer target) && not a.disabled && not b.disabled && can_grant_role a.role b.role

unfoldable pub inviter_still_grants : Dict Account → Option String → UserRole → Bool
inviter_still_grants accounts none role = false
inviter_still_grants accounts (some by) role = grants_now (get accounts by) role

unfoldable pub issuer_still_manages : Dict Account → Option String → String → Bool
issuer_still_manages accounts none target = false
issuer_still_manages accounts (some by) target =
    manages_now by (get accounts by) target (get accounts target)
