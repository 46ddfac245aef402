-- ===== src/Users/Tests.antt =====
-- Runs of the account actions.
use bunmail.Prelude.{arith, none, ◌≡◌, refl, true, false, [], ◌∷◌, some}
use bunmail.Users.Roles.{AccountParty, owner, admin, member}
use bunmail.Dict.{get}
use bunmail.Users.Invites.{
  InviteActor, find_live_invitation, acceptable, insert_account, open_account, create_invitation,
  accept_invitation,
}
use bunmail.Users.Invites.Granted.{MayGrant, accept_invitation-MayGrant}
use bunmail.Users.Invites.Once.{Refused, accept_invitation_once}
use bunmail.Users.Invites.Unique
use bunmail.Users.Invites.Unique.{UniqueEmails, creates, accepts, UniqueEmails-InviteSteps}
use bunmail.Users.Tables.{Mint, Tables, inviter_still_grants, issuer_still_manages}
use bunmail.Users.Admin.Sound.{Sound}
use bunmail.Users.Admin.Sound.Steps.{Sound-AdminSteps}
use bunmail.Users.Admin.{change_account_role, transfer_ownership_to}
use bunmail.Users.Admin.Steps.{by_change_role, by_transfer, next, none_left}
use bunmail.Users.Admin.Owners.{owners}
use bunmail.Users.Admin.OneOwner.{owners-AdminSteps}

abbrev alice : AccountParty
alice = record { id = "alice"; role = admin; disabled = false }

abbrev bob : AccountParty
bob = record { id = "bob"; role = member; disabled = false }

abbrev team : Tables
team = record {
  accounts =
      ("olga", record { email = "olga@example.org"; role = owner; disabled = false })
      ∷ ("alice", record { email = "alice@example.org"; role = admin; disabled = false })
      ∷ ("bob", record { email = "bob@example.org"; role = member; disabled = false })
      ∷ [];
  invites =
      record {
        id = "i1";
        email = "carl@example.org";
        role = member;
        invited_by = some "alice";
        token_hash = "h1";
        expires_at = 900;
      }
      ∷ [];
  resets =
      record {
        id = "r1";
        user_id = "bob";
        invited_by = some "alice";
        token_hash = "h2";
        expires_at = 900;
      }
      ∷ [];
  setups = [];
  sessions = "olga" ∷ "bob" ∷ [];
  keys = record { id = "k1"; created_by = some "alice"; is_active = true; is_admin = true } ∷ [];
}

-- The owner hands over to alice, who then demotes the former owner.
abbrev handed_over : Tables
handed_over = (transfer_ownership_to (λ id. false) team team "olga" "alice" false true).0

owners-AdminSteps_example :
    owners (change_account_role handed_over "alice" "olga" "member").0 ≡ owners team
unfolding bunmail.Dict.get
owners-AdminSteps_example =
    owners-AdminSteps (λ s. s) (λ s. s) (λ id. false) team
      (change_account_role handed_over "alice" "olga" "member").0 (refl, (refl, (refl, tt)))
      (next (by_transfer team "olga" "alice" false true)
        (next (by_change_role "alice" "olga" "member") none_left))

Sound-AdminSteps_example : Sound (change_account_role handed_over "alice" "olga" "member").0
unfolding bunmail.Dict.get inviter_still_grants issuer_still_manages
Sound-AdminSteps_example =
    Sound-AdminSteps (λ s. s) (λ s. s) (λ id. false) team
      (change_account_role handed_over "alice" "olga" "member").0
      (record {
        invites_stand = refl;
        resets_stand = refl;
        sessions_stand = refl;
        keys_stand = refl;
      })
      (next (by_transfer team "olga" "alice" false true)
        (next (by_change_role "alice" "olga" "member") none_left))

-- Carl accepts alice's invitation.
accept_invitation-MayGrant_example :
    MayGrant team.accounts (some "alice") member
    × (get team.accounts "carl" ≡ none)
    × (get (accept_invitation 100 team team "h1" "carl").0.accounts "carl"
        ≡ some (record { email = "carl@example.org"; role = member; disabled = false }))
unfolding accept_invitation find_live_invitation acceptable open_account insert_account get
    inviter_still_grants
accept_invitation-MayGrant_example =
    accept_invitation-MayGrant 100 team team "h1" "carl" "carl" "carl@example.org" member
      (some "alice") refl

abbrev olga : InviteActor
olga = record { id = "olga"; role = owner }

abbrev mint : Mint
mint = record { token_id = "i2"; hash = "h3"; expires = 950 }

-- Olga invites another after carl's acceptance; then the token comes again, from a submission that
-- read the invitation while it was open.
accept_invitation_once_example :
    let joined = (accept_invitation 100 team team "h1" "carl").0 in
    let u =
      (create_invitation (λ s. s) (λ s. true) 101 joined olga "new@example.org" "member" mint).0 in
    Refused u (accept_invitation 102 team u "h1" "dora")
unfolding accept_invitation find_live_invitation acceptable open_account insert_account get
    inviter_still_grants
accept_invitation_once_example =
    let joined = (accept_invitation 100 team team "h1" "carl").0 in
    accept_invitation_once (λ s. s) (λ s. true) "h1" 100 102 team team "carl" "carl"
      "carl@example.org" member (some "alice")
      (create_invitation (λ s. s) (λ s. true) 101 joined olga "new@example.org" "member" mint).0
      team "dora" refl (omega arith)
      (Unique.next (creates 101 olga "new@example.org" "member" mint) Unique.none_left) (refl, tt)

-- Olga invites carl again, who accepts with the new token.
UniqueEmails-InviteSteps_example :
    UniqueEmails
      (accept_invitation 101 team
        (create_invitation (λ s. s) (λ s. true) 100 team olga "carl@example.org" "admin" mint).0
        "h3"
        "carl").0
unfolding get
UniqueEmails-InviteSteps_example =
    UniqueEmails-InviteSteps (λ s. s) (λ s. true) team
      (accept_invitation 101 team
        (create_invitation (λ s. s) (λ s. true) 100 team olga "carl@example.org" "admin" mint).0
        "h3" "carl").0
      (refl, refl)
      (Unique.next (creates 100 olga "carl@example.org" "admin" mint)
        (Unique.next (accepts 101 team "h3" "carl") Unique.none_left))
