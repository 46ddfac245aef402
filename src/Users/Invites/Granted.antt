-- ===== src/Users/Invites/Granted.antt =====
-- What an accepted invitation gives.
use bunmail.Prelude.{
  ℕ, sym, ap, subst, ◌∙◌, ◌<◌, ◌≡◌, refl, String, Bool, true, false, not, List, [], ◌∷◌, Option,
  none, some, eq_refl, filter, arith, Option-cases, inl, inr,
}
use bunmail.Dict.{Dict, get}
use bunmail.Users.Roles.{UserRole}
use bunmail.Users.Roles.Ranks.{rank}
use bunmail.Users.Tables.{Account, Invite, Tables, inviter_still_grants, revoke_open_invites}
use bunmail.Users.Invites.{
  Acceptance, accepted, first, acceptable, find_live_invitation, insert_account, open_account,
  accept_invitation,
}

-- What is found passes the test.
pub first-holds :
    {A : Type 0} (p : A → Bool) (xs : List A) (x : A) → first p xs ≡ some x → p x ≡ true
first-holds p [] x h = ground arith
first-holds p (y ∷ xs) x h = ground (arith, first-holds p xs x)

-- `by` is an active account that stands above the role.
abbrev pub MayGrant : Dict Account → Option String → UserRole → Type 0
MayGrant accounts by role =
    (id : String) × (a : Account) × (by ≡ some id)
    × (get accounts id ≡ some a)
    × (a.disabled ≡ false)
    × (rank role < rank a.role)

inviter_still_grants-rank :
    (accounts : Dict Account) (by : Option String) (role : UserRole)
    → inviter_still_grants accounts by role ≡ true
    → MayGrant accounts by role
unfolding inviter_still_grants
inviter_still_grants-rank accounts none role h = ground arith
inviter_still_grants-rank accounts (some by) role h = elim (Option-cases (get accounts by)) [
  | inl gone ↦ ground arith
  | inr (a, here) ↦ (by, a, refl, here, ground arith, ground arith)
]

acceptable-MayGrant :
    (now : ℕ) (accounts : Dict Account) (hash : String) (i : Invite)
    → acceptable now accounts hash i ≡ true
    → MayGrant accounts i.invited_by i.role
unfolding acceptable
acceptable-MayGrant now accounts hash i h =
    inviter_still_grants-rank accounts i.invited_by i.role (ground arith)

pub open_account-accepted :
    (t : Tables) (spent : Invite) (unspent : List Invite) (user_id id email : String)
    (role : UserRole) (by : Option String)
    → (open_account t spent unspent user_id).1 ≡ accepted id email role by
    → let t' = (open_account t spent unspent user_id).0 in
      (role ≡ spent.role)
      × (by ≡ spent.invited_by)
      × (get t.accounts id ≡ none)
      × (get t'.accounts id ≡ some (record { email = email; role = role; disabled = false }))
      × (t'.invites ≡ revoke_open_invites unspent email)
unfolding open_account insert_account get
open_account-accepted t spent unspent user_id id email role by h = ground (arith, eq_refl user_id)

-- An account is opened only for an acceptable invitation, by `open_account`.
abbrev Opened : ℕ → Tables → String → String → Tables × Acceptance → Type 0
Opened now t hash user_id result =
    (spent : Invite) × (acceptable now t.accounts hash spent ≡ true)
    × (result
        ≡ open_account t spent (filter (λ i. not (acceptable now t.accounts hash i)) t.invites)
            user_id)

accept_invitation-Opened :
    (now : ℕ) (seen t : Tables) (hash user_id id email : String) (role : UserRole)
    (by : Option String)
    → (accept_invitation now seen t hash user_id).1 ≡ accepted id email role by
    → Opened now t hash user_id (accept_invitation now seen t hash user_id)
unfolding accept_invitation find_live_invitation
accept_invitation-Opened now seen t hash user_id id email role by h =
    elim (Option-cases (first (acceptable now t.accounts hash) t.invites)) [
      | inl no_invite ↦ ground arith
      | inr (spent, found) ↦
          (spent, first-holds (acceptable now t.accounts hash) t.invites spent found, ground arith)
    ]

-- Whoever an invitation lets in gets a role that its inviter can still give: whatever was read or
-- changed before the transaction, at that moment the inviter is an account that exists, is active
-- and stands above the role, and the new account, whose id was free, has that role and is active.
pub accept_invitation-MayGrant :
    (now : ℕ) (seen t : Tables) (hash user_id id email : String) (role : UserRole)
    (by : Option String)
    → (accept_invitation now seen t hash user_id).1 ≡ accepted id email role by
    → let t' = (accept_invitation now seen t hash user_id).0 in
      MayGrant t.accounts by role
      × (get t.accounts id ≡ none)
      × (get t'.accounts id ≡ some (record { email = email; role = role; disabled = false }))
accept_invitation-MayGrant now seen t hash user_id id email role by h =
    let (spent, ok, same) = accept_invitation-Opened now seen t hash user_id id email role by h in
    let unspent = filter (λ i. not (acceptable now t.accounts hash i)) t.invites in
    let (is_role, is_by, fresh, there, invites) =
      open_account-accepted t spent unspent user_id id email role by
        (sym (ap (λ r. r.1) same) ∙ h) in
    (
      subst (λ x. MayGrant t.accounts by x) (sym is_role)
          (subst (λ x. MayGrant t.accounts x spent.role) (sym is_by)
            (acceptable-MayGrant now t.accounts hash spent ok)),
      fresh,
      ap (λ r. get r.0.accounts id) same ∙ there,
    )
