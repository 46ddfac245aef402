-- ===== src/Users/Admin/Sound/Tokens.antt =====
-- An invitation that is accepted, and a reset that is completed.
use bunmail.Prelude.{
  ℕ, ◌≡◌, refl, String, Bool, true, false, not, List, ◌∷◌, Option, none, some, str_eq, eq_refl,
  filter, all, all-filter, all_imp, arith, Option-cases, Bool-cases, inl, inr,
}
use bunmail.Dict.{get}
use bunmail.Users.Tables.{
  Account, Invite, ResetLink, Tables, revoke_invites_issued_by, revoke_resets_for,
  revoke_resets_issued_by, revoke_all_user_sessions, revoke_open_invites, issuer_still_manages,
}
use bunmail.Users.Invites.{
  email_has_account, first, acceptable, find_live_invitation, insert_account, open_account,
  accept_invitation, is_invite_role, spend, accept_live,
}
use bunmail.Users.Reset.{
  usable_reset, reset_done, complete_with, complete_seen, complete_password_reset,
}
use bunmail.Users.Invites.Granted.{first-holds}
use bunmail.Users.Admin.Rows.{is_on}
use bunmail.Users.Admin.Rows.New
use bunmail.Users.Admin.Sound.{Sound, invite_ok, reset_ok, session_ok}

module _ (t : Tables) (h : Sound t) where
  fewer_invites-Sound :
      (keep : Invite → Bool) → Sound (record t { invites = filter keep t.invites })
  fewer_invites-Sound keep = record {
    invites_stand =
        all-filter {q = invite_ok t.accounts} {keep = keep} t.invites h.invites_stand
          (λ i ok kept. ok);
    resets_stand = h.resets_stand;
    sessions_stand = h.sessions_stand;
    keys_stand = h.keys_stand;
  }

  added-Sound :
      (id email : String) (a : Account) (invites : List Invite)
      → get t.accounts id ≡ none
      → a.disabled ≡ false
      → all (invite_ok t.accounts) invites ≡ true
      → Sound (record t {
        accounts = (id, a) ∷ t.accounts;
        invites = revoke_open_invites invites email;
        sessions = id ∷ t.sessions;
      })
  unfolding revoke_open_invites get
  added-Sound id email a invites free on ok = record {
    invites_stand =
        all-filter invites ok
          (λ i good kept. New.invite_stands-added t.accounts id a free i.invited_by i.role good);
    resets_stand =
        all_imp t.resets h.resets_stand
          (λ l good. New.reset_stands-added t.accounts id a free l.invited_by l.user_id good);
    sessions_stand = ground (
      arith,
      eq_refl id,
      all_imp {q = session_ok ((id, a) ∷ t.accounts)} t.sessions h.sessions_stand
          (λ u good. New.is_on-added t.accounts id a free u good),
    );
    keys_stand = all_imp t.keys h.keys_stand (λ k good.
        New.key_stands-added t.accounts id a free k.created_by k.is_active k.is_admin good);
  }

  open_account-Sound :
      (spent : Invite) (unspent : List Invite) (user_id : String)
      → all (invite_ok t.accounts) unspent ≡ true
      → Sound (open_account t spent unspent user_id).0
  unfolding open_account insert_account
  open_account-Sound spent unspent user_id ok =
      let a : Account = record { email = spent.email; role = spent.role; disabled = false } in
      elim (Option-cases (get t.accounts user_id)) [
        | inl free ↦ elim (Bool-cases (email_has_account t.accounts spent.email)) [
          | inl held ↦ rw (free, held, open_account, insert_account) h
          | inr not_held ↦
              rw (free, not_held, open_account, insert_account)
                (added-Sound user_id spent.email a unspent free refl ok)
        ]
        | inr (b, there) ↦ rw (there, open_account, insert_account) h
      ]

  spend-Sound :
      (unspent : List Invite) (user_id : String) (found : Option Invite)
      → all (invite_ok t.accounts) unspent ≡ true
      → Sound (spend t unspent user_id found).0
  spend-Sound unspent user_id none ok = h
  spend-Sound unspent user_id (some spent) ok = elim (Bool-cases (is_invite_role spent.role)) [
    | inl grants ↦ rw (grants, spend) (open_account-Sound spent unspent user_id ok)
    | inr other ↦
        rw (other, spend)
          (record {
            invites_stand = ok;
            resets_stand = h.resets_stand;
            sessions_stand = h.sessions_stand;
            keys_stand = h.keys_stand;
          })
  ]

  accept_live-Sound :
      (now : ℕ) (hash user_id : String) (target : Option Invite)
      → Sound (accept_live now t hash user_id target).0
  unfolding revoke_open_invites
  accept_live-Sound now hash user_id none = h
  accept_live-Sound now hash user_id (some target) =
      elim (Bool-cases (email_has_account t.accounts target.email)) [
        | inl held ↦
            rw (held, accept_live) (fewer_invites-Sound (λ i. not (str_eq i.email target.email)))
        | inr free ↦
            rw (free, accept_live)
              (spend-Sound (filter (λ i. not (acceptable now t.accounts hash i)) t.invites) user_id
                (first (acceptable now t.accounts hash) t.invites)
                (all-filter t.invites h.invites_stand (λ i ok kept. ok)))
      ]

  pub accept_invitation-Sound :
      (now : ℕ) (seen : Tables) (hash user_id : String)
      → Sound (accept_invitation now seen t hash user_id).0
  unfolding accept_invitation
  accept_invitation-Sound now seen hash user_id =
      accept_live-Sound now hash user_id (find_live_invitation now seen hash)

  reset_done-Sound :
      (keep : ResetLink → Bool) (user_id : String)
      → is_on (get t.accounts user_id) ≡ true
      → Sound (reset_done t (filter keep t.resets) user_id)
  unfolding reset_done revoke_invites_issued_by revoke_resets_for revoke_resets_issued_by
      revoke_all_user_sessions
  reset_done-Sound keep user_id on = record {
    invites_stand = all-filter t.invites h.invites_stand (λ i ok kept. ok);
    resets_stand =
        all-filter (revoke_resets_for (filter keep t.resets) user_id)
          (all-filter {q = reset_ok t.accounts} (filter keep t.resets)
            (all-filter {q = reset_ok t.accounts} t.resets h.resets_stand (λ l ok kept. ok))
            (λ l ok kept. ok))
          (λ l ok kept. ok);
    sessions_stand = ground (
      arith,
      on,
      all-filter {q = session_ok t.accounts} {keep = λ u. not (str_eq u user_id)} t.sessions
          h.sessions_stand (λ u ok kept. ok),
    );
    keys_stand = h.keys_stand;
  }

  -- The user of a link that can be used is active.
  usable_reset-is_on :
      (now : ℕ) (hash : String) (l : ResetLink)
      → usable_reset now t.accounts hash l ≡ true
      → is_on (get t.accounts l.user_id) ≡ true
  unfolding usable_reset issuer_still_manages
  usable_reset-is_on now hash l ok = elim (Option-cases l.invited_by) [
    | inl nobody ↦ ground arith
    | inr (by, named) ↦ ground arith
  ]

  complete_with-Sound :
      (now : ℕ) (hash : String) (found : Option ResetLink)
      → first (usable_reset now t.accounts hash) t.resets ≡ found
      → Sound (complete_with now t hash found).0
  complete_with-Sound now hash none e = h
  complete_with-Sound now hash (some spent) e =
      reset_done-Sound (λ l. not (usable_reset now t.accounts hash l)) spent.user_id
        (usable_reset-is_on now hash spent
          (first-holds (usable_reset now t.accounts hash) t.resets spent e))

  complete_seen-Sound :
      (now : ℕ) (hash : String) (link : Option ResetLink) → Sound (complete_seen now t hash link).0
  complete_seen-Sound now hash none = h
  complete_seen-Sound now hash (some link) =
      complete_with-Sound now hash (first (usable_reset now t.accounts hash) t.resets) refl

  pub complete_password_reset-Sound :
      (now : ℕ) (seen : Tables) (hash : String) → Sound (complete_password_reset now seen t hash).0
  unfolding complete_password_reset
  complete_password_reset-Sound now seen hash =
      complete_seen-Sound now hash (first (usable_reset now seen.accounts hash) seen.resets)
