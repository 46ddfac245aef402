-- ===== src/Users/Invites.antt =====
-- src/modules/users/services/invite-issue.service.ts, invite.service.ts and
-- invite-accept.service.ts: invitations are created, sent again, revoked and accepted. A transaction
-- is one step; `seen` is what is read before it, and other calls may come in between. The actor is
-- the session's: its role was read before. Parameters: how an address is normalized, and which
-- addresses can be invited. Each call is given the time, and the ids and the token's hash that it
-- generates. The mail, audit events and log lines are left out.
pub mod Granted
pub mod Once
pub mod Unique
use bunmail.Prelude.{
  ℕ, String, Bool, true, false, not, ◌&&◌, ◌||◌, List, [], ◌∷◌, Option, none, some, ltb,
  if◌then◌else◌, str_eq, any, filter,
}
use bunmail.Dict.{Dict, has}
use bunmail.Users.Roles.{UserRole, owner, admin, member, can_grant_role, invite_role_of}
use bunmail.Users.Tables.{Mint, Account, Invite, Tables, inviter_still_grants, revoke_open_invites}

pub record InviteActor : Type 0 where
  pub id : String
  pub role : UserRole

pub data InviteRefusal : Type 0 where
  invalid_email role_not_allowed account_exists pending_higher_role not_found : InviteRefusal

abbrev pub email_has_account : Dict Account → String → Bool
email_has_account accounts email = any (λ p. str_eq p.1.email email) accounts

abbrev pub live_invite : ℕ → Invite → Bool
live_invite now i = ltb now i.expires_at

pub has_higher_pending_invite : ℕ → List Invite → String → UserRole → Bool
has_higher_pending_invite now invites email actor_role =
    any (λ i. live_invite now i && str_eq i.email email && not (can_grant_role actor_role i.role))
      invites

pub replace_invite :
    ℕ → Tables → String → UserRole → InviteActor → Mint → Tables × Option InviteRefusal
replace_invite now t email role actor mint =
    if email_has_account t.accounts email
    then (record t { invites = revoke_open_invites t.invites email }, some account_exists)
    else if has_higher_pending_invite now t.invites email actor.role
    then (t, some pending_higher_role)
    else (
      record t {
        invites =
            record {
              id = mint.token_id;
              email = email;
              role = role;
              invited_by = some actor.id;
              token_hash = mint.hash;
              expires_at = mint.expires;
            }
            ∷ revoke_open_invites t.invites email;
      },
      none,
    )

abbrev pub is_invite_role : UserRole → Bool
is_invite_role owner = false
is_invite_role admin = true
is_invite_role member = true

-- `.limit(1)`
abbrev pub first : {A : Type 0} → (A → Bool) → List A → Option A
first p [] = none
first p (x ∷ xs) = if p x then some x else first p xs

pub find_pending_by_id : ℕ → List Invite → String → Option Invite
find_pending_by_id now invites id =
    elim (first (λ (i : Invite). live_invite now i && str_eq i.id id) invites) [
      | none ↦ none
      | some i ↦ if is_invite_role i.role then some i else none
    ]

module _ (normalize : String → String) (invitable : String → Bool) where
  pub create_invitation :
      ℕ → Tables → InviteActor → String → String → Mint → Tables × Option InviteRefusal
  unfolding replace_invite
  create_invitation now t actor raw_email raw_role mint =
      let email = normalize raw_email in
      if not (invitable email) then (t, some invalid_email) else elim (invite_role_of raw_role) [
        | none ↦ (t, some role_not_allowed)
        | some role ↦
            if not (can_grant_role actor.role role)
            then (t, some role_not_allowed)
            else replace_invite now t email role actor mint
      ]

pub resend_invitation :
    ℕ → Tables → Tables → InviteActor → String → Mint → Tables × Option InviteRefusal
unfolding find_pending_by_id replace_invite
resend_invitation now seen t actor id mint = elim (find_pending_by_id now seen.invites id) [
  | none ↦ (t, some not_found)
  | some pending ↦
      if not (can_grant_role actor.role pending.role)
      then (t, some role_not_allowed)
      else elim (find_pending_by_id now t.invites id) [
        | none ↦ (t, some not_found)
        | some still ↦ replace_invite now t pending.email pending.role actor mint
      ]
]

pub revoke_invitation : ℕ → Tables → Tables → InviteActor → String → Tables × Option InviteRefusal
unfolding find_pending_by_id
revoke_invitation now seen t actor id = elim (find_pending_by_id now seen.invites id) [
  | none ↦ (t, some not_found)
  | some pending ↦
      if not (can_grant_role actor.role pending.role) then (t, some role_not_allowed) else (
        record t { invites = filter (λ (i : Invite). not (str_eq i.id id)) t.invites },
        if any (λ (i : Invite). str_eq i.id id) t.invites then none else some not_found,
      )
]

-- An invitation that can be accepted with the token.
unfoldable pub acceptable : ℕ → Dict Account → String → Invite → Bool
acceptable now accounts hash i =
    live_invite now i
    && inviter_still_grants accounts i.invited_by i.role
    && str_eq i.token_hash hash

unfoldable pub find_live_invitation : ℕ → Tables → String → Option Invite
unfolding acceptable
find_live_invitation now t hash = elim (first (acceptable now t.accounts hash) t.invites) [
  | none ↦ none
  | some i ↦ if is_invite_role i.role then some i else none
]

pub data Acceptance : Type 0 where
  accepted : String → String → UserRole → Option String → Acceptance
  invalid taken : Acceptance

-- The unique columns of `users`: a new row that repeats an id or an email is an error.
unfoldable pub insert_account : Dict Account → String → Account → Option (Dict Account)
insert_account accounts id a =
    if has accounts id || email_has_account accounts a.email
    then none
    else some ((id, a) ∷ accounts)

-- The spent invitation's account, with a session; an error rolls everything back.
unfoldable pub open_account : Tables → Invite → List Invite → String → Tables × Acceptance
unfolding insert_account
open_account t spent unspent user_id =
    let a : Account = record { email = spent.email; role = spent.role; disabled = false } in
    elim (insert_account t.accounts user_id a) [
      | none ↦ (t, taken)
      | some accounts ↦ (
        record t {
          accounts = accounts;
          invites = revoke_open_invites unspent spent.email;
          sessions = user_id ∷ t.sessions;
        },
        accepted user_id spent.email spent.role spent.invited_by,
      )
    ]

abbrev pub spend : Tables → List Invite → String → Option Invite → Tables × Acceptance
spend t unspent user_id none = (t, invalid)
spend t unspent user_id (some spent) =
    if is_invite_role spent.role
    then open_account t spent unspent user_id
    else (record t { invites = unspent }, invalid)

abbrev pub accept_live : ℕ → Tables → String → String → Option Invite → Tables × Acceptance
accept_live now t hash user_id none = (t, invalid)
accept_live now t hash user_id (some target) =
    if email_has_account t.accounts target.email
    then (record t { invites = revoke_open_invites t.invites target.email }, taken)
    else spend t (filter (λ i. not (acceptable now t.accounts hash i)) t.invites) user_id
        (first (acceptable now t.accounts hash) t.invites)

unfoldable pub accept_invitation : ℕ → Tables → Tables → String → String → Tables × Acceptance
unfolding find_live_invitation
accept_invitation now seen t hash user_id =
    accept_live now t hash user_id (find_live_invitation now seen hash)
