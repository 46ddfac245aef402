-- ===== src/Users/Admin/Rows/New.antt =====
-- A row of any table, when an account is added under a free id.
use bunmail.Prelude.{◌≡◌, refl, ◌∷◌, String, Bool, true, Option, none, some, eq_iff, arith}
use bunmail.Dict.{Dict, get}
use bunmail.Users.Roles.{UserRole}
use bunmail.Users.Tables.{Account, inviter_still_grants, issuer_still_manages}
use bunmail.Users.Admin.Rows.{is_on, invite_stands, reset_stands, key_stands}

module _ (m : Dict Account) (k : String) (a : Account) (free : get m k ≡ none) where
  abbrev pub added : Dict Account
  added = (k, a) ∷ m

  pub invite_stands-added :
      (by : Option String) (role : UserRole)
      → invite_stands m by role ≡ true
      → invite_stands added by role ≡ true
  unfolding inviter_still_grants get
  invite_stands-added none role h = refl
  invite_stands-added (some by) role h = ground (arith, eq_iff k by)

  pub reset_stands-added :
      (by : Option String) (target : String)
      → reset_stands m by target ≡ true
      → reset_stands added by target ≡ true
  unfolding issuer_still_manages get
  reset_stands-added none target h = refl
  reset_stands-added (some by) target h = ground (arith, eq_iff k by, eq_iff k target)

  pub is_on-added : (id : String) → is_on (get m id) ≡ true → is_on (get added id) ≡ true
  unfolding get
  is_on-added id h = ground (arith, eq_iff k id)

  pub key_stands-added :
      (by : Option String) (is_active is_admin : Bool)
      → key_stands m by is_active is_admin ≡ true
      → key_stands added by is_active is_admin ≡ true
  unfolding get
  key_stands-added none is_active is_admin h = ground arith
  key_stands-added (some by) is_active is_admin h = ground (arith, eq_iff k by)
