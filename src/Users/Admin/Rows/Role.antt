-- ===== src/Users/Admin/Rows/Role.antt =====
-- A row of any table, when an account's role changes.
use bunmail.Prelude.{
  ◌≡◌, refl, String, Bool, true, false, not, ◌&&◌, Option, none, some, if◌then◌else◌, str_eq,
  eq_iff, arith,
}
use bunmail.Dict.{Dict, get}
use bunmail.Users.Roles.{UserRole, owner, admin, member, role_eq}
use bunmail.Users.Tables.{
  Account, is_by, role_matches, update_account, inviter_still_grants, issuer_still_manages,
}
use bunmail.Users.Admin.Rows.{is_on, invite_stands, reset_stands, key_stands, get-update_account}

module _ (m : Dict Account) (k : String) (a : Account) (there : get m k ≡ some a)
    (was : role_eq a.role owner ≡ false) where
  abbrev pub into : UserRole → Account → Account
  into role b = record b { role = role }

  pub invite_stands-admin :
      (by : Option String) (role : UserRole)
      → invite_stands m by role ≡ true
      → invite_stands (update_account m k (into admin)) by role ≡ true
  unfolding inviter_still_grants
  invite_stands-admin none role h = refl
  invite_stands-admin (some by) role h =
      ground (arith, get-update_account m k (into admin) a by there, eq_iff k by, eq_iff by k)

  pub reset_stands-admin :
      (by : Option String) (target : String)
      → reset_stands m by target ≡ true
      → not (str_eq target k) ≡ true
      → reset_stands (update_account m k (into admin)) by target ≡ true
  unfolding issuer_still_manages
  reset_stands-admin none target h kept = refl
  reset_stands-admin (some by) target h kept = ground (
    arith,
    get-update_account m k (into admin) a by there,
    eq_iff k by,
    eq_iff by k,
    get-update_account m k (into admin) a target there,
    eq_iff k target,
    eq_iff target k,
  )

  pub is_on-admin :
      (id : String)
      → is_on (get m id) ≡ true
      → is_on (get (update_account m k (into admin)) id) ≡ true
  is_on-admin id h =
      ground (arith, get-update_account m k (into admin) a id there, eq_iff k id, eq_iff id k)

  pub key_stands-admin :
      (by : Option String) (is_active is_admin : Bool)
      → key_stands m by is_active is_admin ≡ true
      → key_stands (update_account m k (into admin)) by is_active is_admin ≡ true
  key_stands-admin none is_active is_admin h = ground arith
  key_stands-admin (some by) is_active is_admin h =
      ground (arith, get-update_account m k (into admin) a by there, eq_iff k by, eq_iff by k)

  pub invite_stands-member :
      (by : Option String) (role : UserRole)
      → invite_stands m by role ≡ true
      → not (is_by k by && role_matches none role) ≡ true
      → invite_stands (update_account m k (into member)) by role ≡ true
  unfolding inviter_still_grants
  invite_stands-member none role h kept = refl
  invite_stands-member (some by) role h kept =
      ground (arith, get-update_account m k (into member) a by there, eq_iff k by, eq_iff by k)

  pub reset_stands-member :
      (by : Option String) (target : String)
      → reset_stands m by target ≡ true
      → not (is_by k by && true) ≡ true
      → reset_stands (update_account m k (into member)) by target ≡ true
  unfolding issuer_still_manages
  reset_stands-member none target h kept = refl
  reset_stands-member (some by) target h kept = ground (
    arith,
    get-update_account m k (into member) a by there,
    eq_iff k by,
    eq_iff by k,
    get-update_account m k (into member) a target there,
    eq_iff k target,
    eq_iff target k,
  )

  pub is_on-member :
      (id : String)
      → is_on (get m id) ≡ true
      → is_on (get (update_account m k (into member)) id) ≡ true
  is_on-member id h =
      ground (arith, get-update_account m k (into member) a id there, eq_iff k id, eq_iff id k)

  pub key_stands-member :
      (by : Option String) (is_active is_admin : Bool)
      → key_stands m by is_active is_admin ≡ true
      → key_stands
          (update_account m k (into member))
          by
          is_active
          (if is_by k by then false else is_admin)
        ≡ true
  key_stands-member none is_active is_admin h = ground arith
  key_stands-member (some by) is_active is_admin h =
      ground (arith, get-update_account m k (into member) a by there, eq_iff k by, eq_iff by k)
