-- ===== src/Users/Admin/Rows/Swap.antt =====
-- A row of any table, when the owner hands over.
use bunmail.Prelude.{
  ◌≡◌, refl, String, Bool, true, false, not, ◌&&◌, Option, none, some, if◌then◌else◌, str_eq,
  eq_iff, arith,
}
use bunmail.Dict.{Dict, get}
use bunmail.Users.Roles.{UserRole, owner, admin, role_eq}
use bunmail.Users.Tables.{
  Account, is_by, role_matches, target_has, update_account, inviter_still_grants,
  issuer_still_manages,
}
use bunmail.Users.Admin.Rows.{is_on, invite_stands, reset_stands, key_stands, get-update_account}

module _ (m : Dict Account) (i k : String) (a b : Account) (here : get m i ≡ some a)
    (there : get m k ≡ some b) (apart : str_eq i k ≡ false)
    (was_owner : role_eq a.role owner ≡ true) (was_admin : role_eq b.role admin ≡ true) where
  abbrev pub down : Account → Account
  down c = record c { role = admin }

  abbrev pub up : Account → Account
  up c = record c { role = owner }

  abbrev pub swapped : Dict Account
  swapped = update_account (update_account m i down) k up

  there_still : get (update_account m i down) k ≡ some b
  there_still = ground (arith, get-update_account m i down a k here)

  get-swapped :
      (j : String)
      → get swapped j
        ≡ (if str_eq k j then some (up b) else if str_eq i j then some (down a) else get m j)
  get-swapped j = ground (
    arith,
    get-update_account m i down a j here,
    get-update_account (update_account m i down) k up b j there_still,
  )

  pub invite_stands-swapped :
      (by : Option String) (role : UserRole)
      → invite_stands m by role ≡ true
      → not (is_by i by && role_matches (some admin) role) ≡ true
      → invite_stands swapped by role ≡ true
  unfolding inviter_still_grants
  invite_stands-swapped none role h kept = refl
  invite_stands-swapped (some by) role h kept =
      ground (arith, get-swapped by, eq_iff k by, eq_iff by k, eq_iff i by, eq_iff by i)

  pub reset_stands-swapped :
      (by : Option String) (target : String)
      → reset_stands m by target ≡ true
      → (not (str_eq target k) ≡ true)
        × (not (is_by i by && target_has m (some admin) target) ≡ true)
      → reset_stands swapped by target ≡ true
  unfolding issuer_still_manages
  reset_stands-swapped none target h kept = refl
  reset_stands-swapped (some by) target h kept = ground (
    arith,
    get-swapped by,
    eq_iff k by,
    eq_iff by k,
    eq_iff i by,
    eq_iff by i,
    get-swapped target,
    eq_iff k target,
    eq_iff target k,
    eq_iff i target,
    eq_iff target i,
  )

  pub is_on-swapped : (id : String) → is_on (get m id) ≡ true → is_on (get swapped id) ≡ true
  is_on-swapped id h =
      ground (arith, get-swapped id, eq_iff k id, eq_iff id k, eq_iff i id, eq_iff id i)

  pub key_stands-swapped :
      (by : Option String) (is_active is_admin : Bool)
      → key_stands m by is_active is_admin ≡ true
      → key_stands swapped by is_active is_admin ≡ true
  key_stands-swapped none is_active is_admin h = ground arith
  key_stands-swapped (some by) is_active is_admin h =
      ground (arith, get-swapped by, eq_iff k by, eq_iff by k, eq_iff i by, eq_iff by i)
