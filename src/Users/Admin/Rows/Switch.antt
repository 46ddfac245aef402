-- ===== src/Users/Admin/Rows/Switch.antt =====
-- A row of any table, when an account is switched off or on.
use bunmail.Prelude.{
  ◌≡◌, refl, String, Bool, true, false, not, ◌&&◌, Option, none, some, if◌then◌else◌, str_eq,
  eq_iff, arith,
}
use bunmail.Dict.{Dict, get}
use bunmail.Users.Roles.{UserRole}
use bunmail.Users.Tables.{
  Account, is_by, role_matches, update_account, inviter_still_grants, issuer_still_manages,
}
use bunmail.Users.Admin.Rows.{is_on, invite_stands, reset_stands, key_stands, get-update_account}

module _ (m : Dict Account) (k : String) (a : Account) (there : get m k ≡ some a) where
  abbrev pub off : Account → Account
  off b = record b { disabled = true }

  abbrev pub on : Account → Account
  on b = record b { disabled = false }

  pub invite_stands-off :
      (by : Option String) (role : UserRole)
      → invite_stands m by role ≡ true
      → not (is_by k by && role_matches none role) ≡ true
      → invite_stands (update_account m k off) by role ≡ true
  unfolding inviter_still_grants
  invite_stands-off none role h kept = refl
  invite_stands-off (some by) role h kept =
      ground (arith, get-update_account m k off a by there, eq_iff k by, eq_iff by k)

  pub reset_stands-off :
      (by : Option String) (target : String)
      → reset_stands m by target ≡ true
      → (not (str_eq target k) ≡ true) × (not (is_by k by && true) ≡ true)
      → reset_stands (update_account m k off) by target ≡ true
  unfolding issuer_still_manages
  reset_stands-off none target h kept = refl
  reset_stands-off (some by) target h kept = ground (
    arith,
    get-update_account m k off a by there,
    eq_iff k by,
    eq_iff by k,
    get-update_account m k off a target there,
    eq_iff k target,
    eq_iff target k,
  )

  pub is_on-off :
      (id : String)
      → is_on (get m id) ≡ true
      → not (str_eq id k) ≡ true
      → is_on (get (update_account m k off) id) ≡ true
  is_on-off id h kept =
      ground (arith, get-update_account m k off a id there, eq_iff k id, eq_iff id k)

  pub key_stands-off :
      (by : Option String) (is_active is_admin : Bool)
      → key_stands m by is_active is_admin ≡ true
      → key_stands (update_account m k off) by (if is_by k by then false else is_active) is_admin
        ≡ true
  key_stands-off none is_active is_admin h = ground arith
  key_stands-off (some by) is_active is_admin h =
      ground (arith, get-update_account m k off a by there, eq_iff k by, eq_iff by k)

  pub invite_stands-on :
      (by : Option String) (role : UserRole)
      → invite_stands m by role ≡ true
      → invite_stands (update_account m k on) by role ≡ true
  unfolding inviter_still_grants
  invite_stands-on none role h = refl
  invite_stands-on (some by) role h =
      ground (arith, get-update_account m k on a by there, eq_iff k by, eq_iff by k)

  pub reset_stands-on :
      (by : Option String) (target : String)
      → reset_stands m by target ≡ true
      → reset_stands (update_account m k on) by target ≡ true
  unfolding issuer_still_manages
  reset_stands-on none target h = refl
  reset_stands-on (some by) target h = ground (
    arith,
    get-update_account m k on a by there,
    eq_iff k by,
    eq_iff by k,
    get-update_account m k on a target there,
    eq_iff k target,
    eq_iff target k,
  )

  pub is_on-on :
      (id : String) → is_on (get m id) ≡ true → is_on (get (update_account m k on) id) ≡ true
  is_on-on id h = ground (arith, get-update_account m k on a id there, eq_iff k id, eq_iff id k)

  pub key_stands-on :
      (by : Option String) (is_active is_admin : Bool)
      → key_stands m by is_active is_admin ≡ true
      → key_stands (update_account m k on) by is_active is_admin ≡ true
  key_stands-on none is_active is_admin h = ground arith
  key_stands-on (some by) is_active is_admin h =
      ground (arith, get-update_account m k on a by there, eq_iff k by, eq_iff by k)
