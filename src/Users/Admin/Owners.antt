-- ===== src/Users/Admin/Owners.antt =====
-- Counting owners, under one update of an account's row and under two.
use bunmail.Prelude.{
  ℕ, ◌+◌, ◌≡◌, refl, ◌∙◌, String, Bool, true, false, some, if◌then◌else◌, Option-cases, inl, inr,
  str_eq, arith,
}
use bunmail.Dict.{Dict, get, Distinct, count, count-set, set-Distinct, get-set}
use bunmail.Users.Roles.{owner, admin, role_eq}
use bunmail.Users.Tables.{Account, Tables, update_account}

abbrev pub is_owner : Account → Bool
is_owner a = role_eq a.role owner

unfoldable pub owners : Tables → ℕ
owners t = count is_owner t.accounts

abbrev one : Bool → ℕ
one b = if b then 1 else 0

pub update_account-Distinct :
    (m : Dict Account) (k : String) (f : Account → Account)
    → Distinct m
    → Distinct (update_account m k f)
unfolding update_account
update_account-Distinct m k f d = elim (Option-cases (get m k)) [
  | inl none_there ↦ rw (none_there, update_account) d
  | inr (a, there) ↦ rw (there, update_account) (set-Distinct m k (f a) d)
]

pub count-update_account :
    (m : Dict Account) (k : String) (f : Account → Account) (a : Account)
    → get m k ≡ some a
    → count is_owner (update_account m k f) + one (is_owner a)
      ≡ count is_owner m + one (is_owner (f a))
unfolding update_account
count-update_account m k f a there =
    rw (there, update_account) (count-set is_owner m k a (f a) there)

pub get-update_account_other :
    (m : Dict Account) (k : String) (f : Account → Account) (j : String)
    → str_eq k j ≡ false
    → get (update_account m k f) j ≡ get m j
unfolding update_account
get-update_account_other m k f j apart = elim (Option-cases (get m k)) [
  | inl none_there ↦ rw (none_there, update_account) refl
  | inr (a, there) ↦ rw (there, update_account) (simp (get-set, apart))
]

-- Keys stand once, and there are as many owners as `n`.
unfoldable pub HasOwners : ℕ → Tables → Type 0
HasOwners n t = Distinct t.accounts × (owners t ≡ n)

pub count-update_account_other :
    (m : Dict Account) (k : String) (f : Account → Account) (a : Account)
    → get m k ≡ some a
    → is_owner a ≡ false
    → is_owner (f a) ≡ false
    → count is_owner (update_account m k f) ≡ count is_owner m
count-update_account_other m k f a there was is = ground (arith, count-update_account m k f a there)

-- A transfer: one owner less, and one more.
pub count-transfer :
    (m : Dict Account) (i k : String) (a b : Account)
    → get m i ≡ some a
    → get m k ≡ some b
    → str_eq i k ≡ false
    → is_owner a ≡ true
    → is_owner b ≡ false
    → count is_owner (
        update_account
          (update_account m i (λ a. record a { role = admin }))
          k
          (λ a. record a { role = owner }))
      ≡ count is_owner m
count-transfer m i k a b here there apart was is = ground (
  arith,
  count-update_account m i (λ a. record a { role = admin }) a here,
  count-update_account (update_account m i (λ a. record a { role = admin })) k
      (λ a. record a { role = owner }) b
      (get-update_account_other m i (λ a. record a { role = admin }) k apart ∙ there),
)
