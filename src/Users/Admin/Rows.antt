-- ===== src/Users/Admin/Rows.antt =====
-- What a row's issuer, owner or creator must still be, and that one update of an account's row
-- keeps it.
pub mod Switch
pub mod Role
pub mod Gone
pub mod Swap
pub mod New
use bunmail.Prelude.{
  ◌≡◌, refl, String, Bool, true, false, not, ◌&&◌, Option, none, some, if◌then◌else◌, str_eq,
  eq_iff, arith,
}
use bunmail.Dict.{Dict, get, set, delete, get-set, get-delete}
use bunmail.Users.Roles.{UserRole, owner, admin, member, role_eq}
use bunmail.Users.Tables.{
  Account, Invite, ResetLink, KeyRow, Tables, is_by, role_matches, target_has, without,
  update_account, inviter_still_grants, issuer_still_manages,
}

-- A row whose issuer is gone names nobody.
abbrev pub if_named : Option String → Bool → Bool
if_named none b = true
if_named (some by) b = b

abbrev pub is_on : Option Account → Bool
is_on none = false
is_on (some a) = not a.disabled

-- The creator of an active key is active, and no member if it is an administration key.
abbrev pub may_hold : Bool → Option Account → Bool
may_hold is_admin none = false
may_hold is_admin (some a) = not a.disabled && not (is_admin && role_eq a.role member)

abbrev pub invite_stands : Dict Account → Option String → UserRole → Bool
invite_stands m by role = if_named by (inviter_still_grants m by role)

abbrev pub reset_stands : Dict Account → Option String → String → Bool
reset_stands m by target = if_named by (issuer_still_manages m by target)

abbrev pub creator_of : Dict Account → Option String → Option Account
creator_of m none = none
creator_of m (some by) = get m by

abbrev pub key_stands : Dict Account → Option String → Bool → Bool → Bool
key_stands m by is_active is_admin =
    if is_active then if_named by (may_hold is_admin (creator_of m by)) else true

pub get-update_account :
    (m : Dict Account) (k : String) (f : Account → Account) (a : Account) (j : String)
    → get m k ≡ some a
    → get (update_account m k f) j ≡ (if str_eq k j then some (f a) else get m j)
unfolding update_account
get-update_account m k f a j there = rw (there, update_account) (get-set m k (f a) j)
