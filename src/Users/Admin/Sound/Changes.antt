-- ===== src/Users/Admin/Sound/Changes.antt =====
-- The changes of roles, and a new reset link.
use bunmail.Prelude.{
  ◌≡◌, String, true, false, not, ◌&&◌, ◌∷◌, none, some, str_eq, all-filter, all-map, all_imp, arith,
}
use bunmail.Dict.{get}
use bunmail.Users.Roles.{
  UserRole, owner, admin, member, role_eq, unchanged, reset_password, change_role,
  account_action_refusal, role_refusal,
}
use bunmail.Users.Tables.{
  Mint, Account, Tables, is_by, target_has, update_account, revoke_invites_issued_by,
  revoke_resets_for, revoke_resets_issued_by, downgrade_admin_keys_created_by, issuer_still_manages,
}
use bunmail.Users.Admin.{party, set_role, transferred}
use bunmail.Users.Admin.Allowed.{test_keeps}
use bunmail.Users.Admin.Rows.{reset_stands}
use bunmail.Users.Admin.Rows.Role
use bunmail.Users.Admin.Rows.Swap
use bunmail.Users.Admin.Sound.{Sound, reset_ok}

module _ (t : Tables) (h : Sound t) where
  module _ (id : String) (a : Account) (there : get t.accounts id ≡ some a)
      (was : role_eq a.role owner ≡ false) where
    promoted-Sound : Sound (record t {
      accounts = update_account t.accounts id (λ b. record b { role = admin });
      resets = revoke_resets_for t.resets id;
    })
    unfolding revoke_resets_for
    promoted-Sound = record {
      invites_stand =
          all_imp t.invites h.invites_stand
            (λ i ok. Role.invite_stands-admin t.accounts id a there was i.invited_by i.role ok);
      resets_stand = all-filter t.resets h.resets_stand (λ l ok kept.
          Role.reset_stands-admin t.accounts id a there was l.invited_by l.user_id ok kept);
      sessions_stand =
          all_imp t.sessions h.sessions_stand
            (λ u ok. Role.is_on-admin t.accounts id a there was u ok);
      keys_stand = all_imp t.keys h.keys_stand (λ k ok.
          Role.key_stands-admin t.accounts id a there was k.created_by k.is_active k.is_admin ok);
    }

    demoted-Sound :
        (let accounts = update_account t.accounts id (λ b. record b { role = member }) in
          Sound (record t {
            accounts = accounts;
            invites = revoke_invites_issued_by t.invites id none;
            resets = revoke_resets_issued_by accounts t.resets id none;
            keys = downgrade_admin_keys_created_by t.keys id;
          }))
    unfolding revoke_invites_issued_by revoke_resets_issued_by downgrade_admin_keys_created_by
    demoted-Sound = record {
      invites_stand = all-filter t.invites h.invites_stand (λ i ok kept.
          Role.invite_stands-member t.accounts id a there was i.invited_by i.role ok kept);
      resets_stand = all-filter t.resets h.resets_stand (λ l ok kept.
          Role.reset_stands-member t.accounts id a there was l.invited_by l.user_id ok kept);
      sessions_stand =
          all_imp t.sessions h.sessions_stand
            (λ u ok. Role.is_on-member t.accounts id a there was u ok);
      keys_stand = all-map _ t.keys h.keys_stand (λ k ok. ground (
        arith,
        Role.key_stands-member t.accounts id a there was k.created_by k.is_active k.is_admin ok,
      ));
    }

    pub set_role-Sound :
        (role : UserRole) → role_eq role owner ≡ false → Sound (set_role t id a role).0
    unfolding set_role
    set_role-Sound owner is = ground arith
    set_role-Sound admin is =
        test_keeps Sound t h change_role id id (role_eq a.role admin) (t, some unchanged)
          (
            record t {
              accounts = update_account t.accounts id (λ b. record b { role = admin });
              resets = revoke_resets_for t.resets id;
            },
            none,
          )
          h promoted-Sound
    set_role-Sound member is =
        test_keeps Sound t h change_role id id (role_eq a.role member) (t, some unchanged)
          (let accounts = update_account t.accounts id (λ b. record b { role = member }) in
            (
              record t {
                accounts = accounts;
                invites = revoke_invites_issued_by t.invites id none;
                resets = revoke_resets_issued_by accounts t.resets id none;
                keys = downgrade_admin_keys_created_by t.keys id;
              },
              none,
            ))
          h demoted-Sound

  module _ (i k : String) (a b : Account) (here : get t.accounts i ≡ some a)
      (there : get t.accounts k ≡ some b) where
    pub transferred-Sound :
        str_eq i k ≡ false
        → role_eq a.role owner ≡ true
        → role_eq b.role admin ≡ true
        → Sound (transferred t i k)
    unfolding transferred revoke_invites_issued_by revoke_resets_for revoke_resets_issued_by
    transferred-Sound apart was_owner was_admin = record {
      invites_stand = all-filter t.invites h.invites_stand (λ j ok kept.
          Swap.invite_stands-swapped t.accounts i k a b here there apart was_owner was_admin
            j.invited_by j.role ok kept);
      resets_stand =
          all-filter (revoke_resets_issued_by t.accounts t.resets i (some admin))
            (all-filter
              {q = λ l.
                reset_ok t.accounts l
                && not (is_by i l.invited_by && target_has t.accounts (some admin) l.user_id)}
              t.resets h.resets_stand (λ l ok kept. ground arith))
            (λ l ok kept.
              Swap.reset_stands-swapped t.accounts i k a b here there apart was_owner was_admin
                l.invited_by l.user_id (ground arith) (kept, ground arith));
      sessions_stand =
          all_imp t.sessions h.sessions_stand (λ u ok.
            Swap.is_on-swapped t.accounts i k a b here there apart was_owner was_admin u ok);
      keys_stand = all_imp t.keys h.keys_stand (λ j ok.
          Swap.key_stands-swapped t.accounts i k a b here there apart was_owner was_admin
            j.created_by j.is_active j.is_admin ok);
    }

    new_link_stands :
        a.disabled ≡ false
        → account_action_refusal reset_password (party i a) (party k b) ≡ none
        → reset_stands t.accounts (some i) k ≡ true
    unfolding issuer_still_manages account_action_refusal role_refusal
    new_link_stands on passed = ground (arith, here, there)

    pub reset_issued-Sound :
        (mint : Mint)
        → a.disabled ≡ false
        → account_action_refusal reset_password (party i a) (party k b) ≡ none
        → Sound (record t {
          resets =
              record {
                id = mint.token_id;
                user_id = k;
                invited_by = some i;
                token_hash = mint.hash;
                expires_at = mint.expires;
              }
              ∷ revoke_resets_for t.resets k;
        })
    unfolding revoke_resets_for
    reset_issued-Sound mint on passed = record {
      invites_stand = h.invites_stand;
      resets_stand = ground (
        arith,
        new_link_stands on passed,
        all-filter {q = reset_ok t.accounts} {keep = λ l. not (str_eq l.user_id k)} t.resets
            h.resets_stand (λ l ok kept. ok),
      );
      sessions_stand = h.sessions_stand;
      keys_stand = h.keys_stand;
    }
