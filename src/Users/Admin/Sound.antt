-- ===== src/Users/Admin/Sound.antt =====
-- No token, session or key outlives the standing of the account that it rests on.
pub mod Changes
pub mod Tokens
pub mod Steps
use bunmail.Prelude.{
  ◌≡◌, refl, String, Bool, true, false, not, ◌&&◌, List, [], ◌∷◌, Option, none, some, if◌then◌else◌,
  str_eq, filter, map, all, all-filter, all-map, all_imp, arith,
}
use bunmail.Dict.{Dict, get, delete}
use bunmail.Users.Roles.{UserRole, owner, admin, member, role_eq}
use bunmail.Users.Tables.{
  Account, Invite, ResetLink, KeyRow, Tables, is_by, without, update_account,
  revoke_invites_issued_by, revoke_resets_for, revoke_resets_issued_by, revoke_all_user_sessions,
  disable_keys_created_by, downgrade_admin_keys_created_by,
}
use bunmail.Users.Admin.{
  Result, party, run_account_action, set_role, deactivated, reactivated, removed, transferred,
}
use bunmail.Users.Admin.Rows.{is_on, invite_stands, reset_stands, key_stands}
use bunmail.Users.Admin.Rows.Switch
use bunmail.Users.Admin.Rows.Role
use bunmail.Users.Admin.Rows.Gone
use bunmail.Users.Admin.Rows.Swap

module _ (m : Dict Account) where
  abbrev pub invite_ok : Invite → Bool
  invite_ok i = invite_stands m i.invited_by i.role

  abbrev pub reset_ok : ResetLink → Bool
  reset_ok l = reset_stands m l.invited_by l.user_id

  abbrev pub session_ok : String → Bool
  session_ok id = is_on (get m id)

  abbrev pub key_ok : KeyRow → Bool
  key_ok k = key_stands m k.created_by k.is_active k.is_admin

-- Every open invitation and reset link with an issuer passes the guard on its presentation, every
-- session is an active account's, and every active key with a creator is one that they may hold.
pub record Sound (t : Tables) : Type 0 where
  pub invites_stand : all (invite_ok t.accounts) t.invites ≡ true
  pub resets_stand : all (reset_ok t.accounts) t.resets ≡ true
  pub sessions_stand : all (session_ok t.accounts) t.sessions ≡ true
  pub keys_stand : all (key_ok t.accounts) t.keys ≡ true

module _ (t : Tables) (h : Sound t) where
  module _ (id : String) (a : Account) (there : get t.accounts id ≡ some a) where
    pub deactivated-Sound : Sound (deactivated t id)
    unfolding deactivated revoke_invites_issued_by revoke_resets_for revoke_resets_issued_by
        revoke_all_user_sessions disable_keys_created_by
    deactivated-Sound = record {
      invites_stand =
          all-filter t.invites h.invites_stand (λ i ok kept.
            Switch.invite_stands-off t.accounts id a there i.invited_by i.role ok kept);
      resets_stand =
          all-filter (revoke_resets_for t.resets id)
            (all-filter {q = λ l. reset_ok t.accounts l && not (str_eq l.user_id id)} t.resets
              h.resets_stand (λ l ok kept. ground arith))
            (λ l ok kept.
              Switch.reset_stands-off t.accounts id a there l.invited_by l.user_id (ground arith)
                (ground arith, kept));
      sessions_stand =
          all-filter t.sessions h.sessions_stand
            (λ u ok kept. Switch.is_on-off t.accounts id a there u ok kept);
      keys_stand = all-map _ t.keys h.keys_stand (λ k ok. ground (
        arith,
        Switch.key_stands-off t.accounts id a there k.created_by k.is_active k.is_admin ok,
      ));
    }

    pub reactivated-Sound : Sound (reactivated t id)
    unfolding reactivated revoke_all_user_sessions
    reactivated-Sound = record {
      invites_stand =
          all_imp t.invites h.invites_stand
            (λ i ok. Switch.invite_stands-on t.accounts id a there i.invited_by i.role ok);
      resets_stand =
          all_imp t.resets h.resets_stand
            (λ l ok. Switch.reset_stands-on t.accounts id a there l.invited_by l.user_id ok);
      sessions_stand =
          all-filter t.sessions h.sessions_stand
            (λ u ok kept. Switch.is_on-on t.accounts id a there u ok);
      keys_stand = all_imp t.keys h.keys_stand (λ k ok.
          Switch.key_stands-on t.accounts id a there k.created_by k.is_active k.is_admin ok);
    }

    pub removed-Sound : Sound (removed t id)
    unfolding removed revoke_invites_issued_by revoke_resets_for revoke_all_user_sessions
        disable_keys_created_by
    removed-Sound = record {
      invites_stand =
          all-map _ (revoke_invites_issued_by t.invites id none)
            (all-filter {q = λ i. invite_ok t.accounts i && not (is_by id i.invited_by && true)}
              t.invites h.invites_stand (λ i ok kept. ground arith))
            (λ i ok.
              Gone.invite_stands-delete t.accounts id i.invited_by i.role (ground arith)
                (ground arith));
      resets_stand =
          all-map _ (revoke_resets_for t.resets id)
            (all-filter {q = λ l. reset_ok t.accounts l && not (str_eq l.user_id id)} t.resets
              h.resets_stand (λ l ok kept. ground arith))
            (λ l ok.
              Gone.reset_stands-delete t.accounts id l.invited_by l.user_id (ground arith)
                (ground arith));
      sessions_stand =
          all-filter t.sessions h.sessions_stand
            (λ u ok kept. Gone.is_on-delete t.accounts id u ok kept);
      keys_stand =
          all-map _ (disable_keys_created_by t.keys id)
            (all-map
              (λ k.
                key_stands (delete t.accounts id) (without id k.created_by) k.is_active k.is_admin)
              t.keys h.keys_stand
              (λ k ok. ground (
                arith,
                Gone.key_stands-delete t.accounts id k.created_by k.is_active k.is_admin ok,
              )))
            (λ k ok. ok);
    }
