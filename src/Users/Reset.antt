-- ===== src/Users/Reset.antt =====
-- src/modules/users/services/password-reset.service.ts: a password reset is completed with its
-- token. The transaction is one step; `seen` is what is read before it. Credentials, second factors
-- and single sign-on links are no part of the rows.
use bunmail.Prelude.{ℕ, String, Bool, not, ◌&&◌, List, ◌∷◌, Option, none, some, ltb, str_eq, filter}
use bunmail.Dict.{Dict}
use bunmail.Users.Tables.{
  Account, ResetLink, Tables, issuer_still_manages, revoke_invites_issued_by, revoke_resets_for,
  revoke_resets_issued_by, revoke_all_user_sessions,
}
use bunmail.Users.Invites.{first}

-- A link that the token opens.
unfoldable pub usable_reset : ℕ → Dict Account → String → ResetLink → Bool
usable_reset now accounts hash l =
    ltb now l.expires_at
    && issuer_still_manages accounts l.invited_by l.user_id
    && str_eq l.token_hash hash

-- From the update that spends the link on: every open token of its user, those that they issued,
-- and their sessions end, and one session begins.
unfoldable pub reset_done : Tables → List ResetLink → String → Tables
reset_done t unspent user_id = record t {
  resets = revoke_resets_issued_by t.accounts (revoke_resets_for unspent user_id) user_id none;
  invites = revoke_invites_issued_by t.invites user_id none;
  setups = filter (λ u. not (str_eq u user_id)) t.setups;
  sessions = user_id ∷ revoke_all_user_sessions t.sessions user_id;
}

abbrev pub complete_with : ℕ → Tables → String → Option ResetLink → Tables × Option String
complete_with now t hash none = (t, none)
complete_with now t hash (some spent) = (
  reset_done t (filter (λ l. not (usable_reset now t.accounts hash l)) t.resets) spent.user_id,
  some spent.user_id,
)

abbrev pub complete_seen : ℕ → Tables → String → Option ResetLink → Tables × Option String
complete_seen now t hash none = (t, none)
complete_seen now t hash (some link) =
    complete_with now t hash (first (usable_reset now t.accounts hash) t.resets)

-- The user whose password is reset, if any.
unfoldable pub complete_password_reset : ℕ → Tables → Tables → String → Tables × Option String
complete_password_reset now seen t hash =
    complete_seen now t hash (first (usable_reset now seen.accounts hash) seen.resets)
