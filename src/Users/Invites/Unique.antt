-- ===== src/Users/Invites/Unique.antt =====
-- Emails stay unique among the accounts, and among the open invitations.
use bunmail.Prelude.{
  ℕ, ◌≡◌, refl, String, Bool, true, false, not, ◌&&◌, List, [], ◌∷◌, str_eq, any, filter, map,
  arith, Option-cases, inl, inr,
}
use bunmail.Dict.{Dict}
use bunmail.Users.Roles.{UserRole, invite_role_of}
use bunmail.Users.Tables.{Mint, Account, Invite, Tables, revoke_open_invites}
use bunmail.Users.Invites.{
  InviteActor, email_has_account, replace_invite, find_pending_by_id, first, create_invitation,
  resend_invitation, revoke_invitation, acceptable, find_live_invitation, insert_account,
  open_account, accept_invitation,
}

abbrev pub no_repeat : List String → Bool
no_repeat [] = true
no_repeat (x ∷ xs) = not (any (λ y. str_eq y x) xs) && no_repeat xs

abbrev pub account_emails : Dict Account → List String
account_emails accounts = map (λ p. p.1.email) accounts

abbrev pub invite_emails : List Invite → List String
invite_emails invites = map (λ (i : Invite). i.email) invites

abbrev pub UniqueEmails : Tables → Type 0
UniqueEmails t =
    (no_repeat (account_emails t.accounts) ≡ true) × (no_repeat (invite_emails t.invites) ≡ true)

any-filter :
    (keep : Invite → Bool) (xs : List Invite) (email : String)
    → any (λ y. str_eq y email) (invite_emails xs) ≡ false
    → any (λ y. str_eq y email) (invite_emails (filter keep xs)) ≡ false
any-filter keep [] email h = refl
any-filter keep (x ∷ xs) email h = ground (arith, any-filter keep xs email)

no_repeat-filter :
    (keep : Invite → Bool) (xs : List Invite)
    → no_repeat (invite_emails xs) ≡ true
    → no_repeat (invite_emails (filter keep xs)) ≡ true
no_repeat-filter keep [] h = refl
no_repeat-filter keep (x ∷ xs) h =
    ground (arith, any-filter keep xs x.email, no_repeat-filter keep xs)

any-revoke_open_invites :
    (xs : List Invite) (email : String)
    → any (λ y. str_eq y email) (invite_emails (revoke_open_invites xs email)) ≡ false
unfolding revoke_open_invites
any-revoke_open_invites [] email = refl
any-revoke_open_invites (x ∷ xs) email = ground (arith, any-revoke_open_invites xs email)

any-account_emails :
    (accounts : Dict Account) (email : String)
    → any (λ y. str_eq y email) (account_emails accounts) ≡ email_has_account accounts email
any-account_emails [] email = refl
any-account_emails ((id, a) ∷ accounts) email = ground (arith, any-account_emails accounts email)

replace_invite-UniqueEmails :
    (now : ℕ) (t : Tables) (email : String) (role : UserRole) (actor : InviteActor) (mint : Mint)
    → UniqueEmails t
    → UniqueEmails (replace_invite now t email role actor mint).0
unfolding replace_invite revoke_open_invites
replace_invite-UniqueEmails now t email role actor mint (us, is) = ground (
  arith,
  us,
  no_repeat-filter (λ i. not (str_eq i.email email)) t.invites is,
  any-revoke_open_invites t.invites email,
)

-- The operations on invitations as steps.
module _ (normalize : String → String) (invitable : String → Bool) where
  pub data InviteStep (t : Tables) : Tables → Type 0 where
    creates :
        (now : ℕ) (actor : InviteActor) (email role : String) (mint : Mint)
        → InviteStep t (create_invitation normalize invitable now t actor email role mint).0
    resends :
        (now : ℕ) (seen : Tables) (actor : InviteActor) (id : String) (mint : Mint)
        → InviteStep t (resend_invitation now seen t actor id mint).0
    revokes :
        (now : ℕ) (seen : Tables) (actor : InviteActor) (id : String)
        → InviteStep t (revoke_invitation now seen t actor id).0
    accepts :
        (now : ℕ) (seen : Tables) (hash user_id : String)
        → InviteStep t (accept_invitation now seen t hash user_id).0

  pub data InviteSteps : Tables → Tables → Type 0 where
    none_left : {t : Tables} → InviteSteps t t
    next : {t u v : Tables} → InviteStep t u → InviteSteps u v → InviteSteps t v

create_invitation-UniqueEmails :
    (normalize : String → String) (invitable : String → Bool) (now : ℕ) (t : Tables)
    (actor : InviteActor) (email role : String) (mint : Mint)
    → UniqueEmails t
    → UniqueEmails (create_invitation normalize invitable now t actor email role mint).0
unfolding create_invitation
create_invitation-UniqueEmails normalize invitable now t actor email role mint h =
    elim (Option-cases (invite_role_of role)) [
      | inl bad ↦ ground (arith, h)
      | inr (r, good) ↦
          ground (arith, h, replace_invite-UniqueEmails now t (normalize email) r actor mint h)
    ]

resend_invitation-UniqueEmails :
    (now : ℕ) (seen t : Tables) (actor : InviteActor) (id : String) (mint : Mint)
    → UniqueEmails t
    → UniqueEmails (resend_invitation now seen t actor id mint).0
unfolding resend_invitation
resend_invitation-UniqueEmails now seen t actor id mint h =
    elim (Option-cases (find_pending_by_id now seen.invites id)) [
      | inl gone ↦ ground (arith, h)
      | inr (pending, found) ↦
          ground
            (arith, h, replace_invite-UniqueEmails now t pending.email pending.role actor mint h)
    ]

revoke_invitation-UniqueEmails :
    (now : ℕ) (seen t : Tables) (actor : InviteActor) (id : String)
    → UniqueEmails t
    → UniqueEmails (revoke_invitation now seen t actor id).0
unfolding revoke_invitation
revoke_invitation-UniqueEmails now seen t actor id h =
    ground (arith, h, no_repeat-filter (λ i. not (str_eq i.id id)) t.invites h.1)

open_account-UniqueEmails :
    (t : Tables) (spent : Invite) (unspent : List Invite) (user_id : String)
    → UniqueEmails t
    → no_repeat (invite_emails unspent) ≡ true
    → UniqueEmails (open_account t spent unspent user_id).0
unfolding open_account insert_account revoke_open_invites
open_account-UniqueEmails t spent unspent user_id h k = ground (
  arith,
  h,
  any-account_emails t.accounts spent.email,
  no_repeat-filter (λ i. not (str_eq i.email spent.email)) unspent k,
)

accept_invitation-UniqueEmails :
    (now : ℕ) (seen t : Tables) (hash user_id : String)
    → UniqueEmails t
    → UniqueEmails (accept_invitation now seen t hash user_id).0
unfolding accept_invitation revoke_open_invites
accept_invitation-UniqueEmails now seen t hash user_id h =
    let unspent = filter (λ i. not (acceptable now t.accounts hash i)) t.invites in
    let unspent_unique =
      no_repeat-filter (λ i. not (acceptable now t.accounts hash i)) t.invites h.1 in
    elim (Option-cases (find_live_invitation now seen hash)) [
      | inl gone ↦ ground (arith, h)
      | inr (target, live) ↦
          elim (Option-cases (first (acceptable now t.accounts hash) t.invites)) [
            | inl no_invite ↦
                ground (
                  arith,
                  h,
                  no_repeat-filter (λ i. not (str_eq i.email target.email)) t.invites h.1,
                )
            | inr (spent, found) ↦ ground (
              arith,
              h,
              no_repeat-filter (λ i. not (str_eq i.email target.email)) t.invites h.1,
              unspent_unique,
              open_account-UniqueEmails t spent unspent user_id h unspent_unique,
            )
          ]
    ]

module _ (normalize : String → String) (invitable : String → Bool) where
  -- No address holds two accounts or two open invitations: after any calls that create, resend,
  -- revoke and accept invitations, in any order and whatever each read before its transaction, no
  -- email is repeated among the accounts or among the open invitations if none was before.
  pub UniqueEmails-InviteSteps :
      (t u : Tables) → UniqueEmails t → InviteSteps normalize invitable t u → UniqueEmails u
  UniqueEmails-InviteSteps t _ h none_left = h
  UniqueEmails-InviteSteps t u h (next (creates now actor email role mint) rest) =
      UniqueEmails-InviteSteps _ u
        (create_invitation-UniqueEmails normalize invitable now t actor email role mint h) rest
  UniqueEmails-InviteSteps t u h (next (resends now seen actor id mint) rest) =
      UniqueEmails-InviteSteps _ u (resend_invitation-UniqueEmails now seen t actor id mint h) rest
  UniqueEmails-InviteSteps t u h (next (revokes now seen actor id) rest) =
      UniqueEmails-InviteSteps _ u (revoke_invitation-UniqueEmails now seen t actor id h) rest
  UniqueEmails-InviteSteps t u h (next (accepts now seen hash user_id) rest) =
      UniqueEmails-InviteSteps _ u (accept_invitation-UniqueEmails now seen t hash user_id h) rest
