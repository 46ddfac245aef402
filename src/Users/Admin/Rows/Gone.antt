-- ===== src/Users/Admin/Rows/Gone.antt =====
-- A row of any table, when an account is deleted.
use bunmail.Prelude.{
  ◌≡◌, refl, String, Bool, true, false, not, ◌&&◌, Option, none, some, if◌then◌else◌, str_eq,
  eq_iff, arith,
}
use bunmail.Dict.{Dict, get, delete, get-delete}
use bunmail.Users.Roles.{UserRole}
use bunmail.Users.Tables.{
  Account, is_by, role_matches, without, inviter_still_grants, issuer_still_manages,
}
use bunmail.Users.Admin.Rows.{is_on, invite_stands, reset_stands, key_stands}

module _ (m : Dict Account) (k : String) where
  pub invite_stands-delete :
      (by : Option String) (role : UserRole)
      → invite_stands m by role ≡ true
      → not (is_by k by && role_matches none role) ≡ true
      → invite_stands (delete m k) (without k by) role ≡ true
  unfolding inviter_still_grants
  invite_stands-delete none role h kept = refl
  invite_stands-delete (some by) role h kept =
      ground (arith, get-delete m k by, eq_iff k by, eq_iff by k)

  pub reset_stands-delete :
      (by : Option String) (target : String)
      → reset_stands m by target ≡ true
      → not (str_eq target k) ≡ true
      → reset_stands (delete m k) (without k by) target ≡ true
  unfolding issuer_still_manages
  reset_stands-delete none target h kept = refl
  reset_stands-delete (some by) target h kept = ground (
    arith,
    get-delete m k by,
    eq_iff k by,
    eq_iff by k,
    get-delete m k target,
    eq_iff k target,
    eq_iff target k,
  )

  pub is_on-delete :
      (id : String)
      → is_on (get m id) ≡ true
      → not (str_eq id k) ≡ true
      → is_on (get (delete m k) id) ≡ true
  is_on-delete id h kept = ground (arith, get-delete m k id, eq_iff k id, eq_iff id k)

  pub key_stands-delete :
      (by : Option String) (is_active is_admin : Bool)
      → key_stands m by is_active is_admin ≡ true
      → key_stands (delete m k) (without k by) (if is_by k by then false else is_active) is_admin
        ≡ true
  key_stands-delete none is_active is_admin h = ground arith
  key_stands-delete (some by) is_active is_admin h =
      ground (arith, get-delete m k by, eq_iff k by, eq_iff by k)
