-- ===== src/Users/Invites/Once.antt =====
-- A token is spent by its acceptance.
use bunmail.Prelude.{
  ℕ, ◌≤◌, ◌≡◌, refl, ap, ◌∙◌, String, Bool, true, false, not, List, [], ◌∷◌, Option, none, some,
  str_eq, any, filter, length, arith, Option-cases, Bool-cases, inl, inr, ◌⊎◌,
}
use bunmail.Users.Roles.{UserRole, invite_role_of}
use bunmail.Users.Tables.{Mint, Invite, Tables, revoke_open_invites}
use bunmail.Users.Invites.{
  InviteActor, Acceptance, accepted, invalid, taken, first, acceptable, find_live_invitation,
  open_account, insert_account, accept_invitation, replace_invite, create_invitation,
  resend_invitation, revoke_invitation, find_pending_by_id, email_has_account,
}
use bunmail.Users.Invites.Unique.{InviteSteps, none_left, next, creates, resends, revokes, accepts}
use bunmail.Users.Invites.Granted.{open_account-accepted}

module _ {A : Type 0} (p q : A → Bool) (weaker : (x : A) → p x ≡ true → q x ≡ true) where
  any-filter_none : (r : A → Bool) (xs : List A) → any q xs ≡ false → any q (filter r xs) ≡ false
  any-filter_none r [] h = refl
  any-filter_none r (x ∷ xs) h = ground (arith, any-filter_none r xs)

  any_of-length : (xs : List A) → length (filter q xs) ≡ 0 → any q xs ≡ false
  any_of-length [] h = refl
  any_of-length (x ∷ xs) h = ground (arith, any_of-length xs)

  first-length : (xs : List A) (x : A) → first p xs ≡ some x → 1 ≤ length (filter q xs)
  first-length [] x h = ground arith
  first-length (y ∷ xs) x h = ground (arith, weaker y, first-length xs x)

  -- Where at most one passes `q`, the first that passes `p` leaves none.
  first-leaves_none :
      (xs : List A) (x : A)
      → first p xs ≡ some x
      → length (filter q xs) ≤ 1
      → any q (filter (λ y. not (p y)) xs) ≡ false
  first-leaves_none [] x h k = refl
  first-leaves_none (y ∷ xs) x h k = ground (
    arith,
    weaker y,
    first-length xs x,
    first-leaves_none xs x,
    any_of-length xs,
    any-filter_none (λ z. not (p z)) xs,
  )

  first_none : (xs : List A) → any q xs ≡ false → first p xs ≡ none
  first_none [] h = refl
  first_none (x ∷ xs) h = ground (arith, weaker x, first_none xs)

abbrev pub has_hash : String → Invite → Bool
has_hash hash i = str_eq i.token_hash hash

acceptable-has_hash :
    (now : ℕ) (t : Tables) (hash : String) (i : Invite)
    → acceptable now t.accounts hash i ≡ true
    → has_hash hash i ≡ true
unfolding acceptable
acceptable-has_hash now t hash i h = ground arith

-- No open invitation has the token after its acceptance.
spent_hash :
    (now : ℕ) (seen t : Tables) (hash user_id id email : String) (role : UserRole)
    (by : Option String)
    → (accept_invitation now seen t hash user_id).1 ≡ accepted id email role by
    → length (filter (has_hash hash) t.invites) ≤ 1
    → any (has_hash hash) (accept_invitation now seen t hash user_id).0.invites ≡ false
unfolding accept_invitation find_live_invitation revoke_open_invites
spent_hash now seen t hash user_id id email role by h k =
    elim (Option-cases (first (acceptable now t.accounts hash) t.invites)) [
      | inl no_invite ↦ ground arith
      | inr (spent, found) ↦
          let unspent = filter (λ i. not (acceptable now t.accounts hash i)) t.invites in
          let opened : (open_account t spent unspent user_id).1 ≡ accepted id email role by =
            ground arith in
          let same : (accept_invitation now seen t hash user_id).0
              ≡ (open_account t spent unspent user_id).0 =
            ground arith in
          let left = (open_account-accepted t spent unspent user_id id email role by opened).4 in
          let gone =
            first-leaves_none (acceptable now t.accounts hash) (has_hash hash)
              (acceptable-has_hash now t hash) t.invites spent found k in
          ap (λ u. any (has_hash hash) u.invites) same
          ∙ ap (any (has_hash hash)) left
          ∙ any-filter_none (acceptable now t.accounts hash) (has_hash hash)
              (acceptable-has_hash now t hash) (λ i. not (str_eq i.email email)) unspent gone
    ]

-- No open invitation has the token.
abbrev NoHash : String → Tables → Type 0
NoHash hash t = any (has_hash hash) t.invites ≡ false

NoHash-filter :
    (hash : String) (keep : Invite → Bool) (xs : List Invite)
    → any (has_hash hash) xs ≡ false
    → any (has_hash hash) (filter keep xs) ≡ false
NoHash-filter hash keep [] h = refl
NoHash-filter hash keep (x ∷ xs) h = ground (arith, NoHash-filter hash keep xs)

replace_invite-NoHash :
    (hash : String) (now : ℕ) (t : Tables) (email : String) (role : UserRole) (actor : InviteActor)
    (mint : Mint)
    → str_eq mint.hash hash ≡ false
    → NoHash hash t
    → NoHash hash (replace_invite now t email role actor mint).0
unfolding replace_invite revoke_open_invites
replace_invite-NoHash hash now t email role actor mint other h =
    ground (arith, NoHash-filter hash (λ i. not (str_eq i.email email)) t.invites h)

create_invitation-NoHash :
    (hash : String) (normalize : String → String) (invitable : String → Bool) (now : ℕ) (t : Tables)
    (actor : InviteActor) (email role : String) (mint : Mint)
    → str_eq mint.hash hash ≡ false
    → NoHash hash t
    → NoHash hash (create_invitation normalize invitable now t actor email role mint).0
unfolding create_invitation
create_invitation-NoHash hash normalize invitable now t actor email role mint other h =
    elim (Option-cases (invite_role_of role)) [
      | inl bad ↦ ground (arith, h)
      | inr (r, good) ↦
          ground (arith, h, replace_invite-NoHash hash now t (normalize email) r actor mint other h)
    ]

resend_invitation-NoHash :
    (hash : String) (now : ℕ) (seen t : Tables) (actor : InviteActor) (id : String) (mint : Mint)
    → str_eq mint.hash hash ≡ false
    → NoHash hash t
    → NoHash hash (resend_invitation now seen t actor id mint).0
unfolding resend_invitation
resend_invitation-NoHash hash now seen t actor id mint other h =
    elim (Option-cases (find_pending_by_id now seen.invites id)) [
      | inl gone ↦ ground (arith, h)
      | inr (p, found) ↦
          ground (arith, h, replace_invite-NoHash hash now t p.email p.role actor mint other h)
    ]

revoke_invitation-NoHash :
    (hash : String) (now : ℕ) (seen t : Tables) (actor : InviteActor) (id : String)
    → NoHash hash t
    → NoHash hash (revoke_invitation now seen t actor id).0
unfolding revoke_invitation
revoke_invitation-NoHash hash now seen t actor id h =
    ground (arith, h, NoHash-filter hash (λ i. not (str_eq i.id id)) t.invites h)

open_account-NoHash :
    (hash : String) (t : Tables) (spent : Invite) (unspent : List Invite) (user_id : String)
    → NoHash hash t
    → any (has_hash hash) unspent ≡ false
    → NoHash hash (open_account t spent unspent user_id).0
unfolding open_account insert_account revoke_open_invites
open_account-NoHash hash t spent unspent user_id h k =
    ground (arith, h, NoHash-filter hash (λ i. not (str_eq i.email spent.email)) unspent k)

accept_invitation-NoHash :
    (hash : String) (now : ℕ) (seen t : Tables) (token user_id : String)
    → NoHash hash t
    → NoHash hash (accept_invitation now seen t token user_id).0
unfolding accept_invitation revoke_open_invites
accept_invitation-NoHash hash now seen t token user_id h =
    let unspent = filter (λ i. not (acceptable now t.accounts token i)) t.invites in
    let left = NoHash-filter hash (λ i. not (acceptable now t.accounts token i)) t.invites h in
    elim (Option-cases (find_live_invitation now seen token)) [
      | inl gone ↦ ground (arith, h)
      | inr (target, live) ↦
          let revoked = NoHash-filter hash (λ i. not (str_eq i.email target.email)) t.invites h in
          elim (Option-cases (first (acceptable now t.accounts token) t.invites)) [
            | inl no_invite ↦ ground (arith, h, revoked)
            | inr (spent, found) ↦
                ground
                  (arith, h, revoked, left, open_account-NoHash hash t spent unspent user_id h left)
          ]
    ]

-- A dead token opens no account and no session, whatever was read before the transaction.
abbrev pub Refused : Tables → Tables × Acceptance → Type 0
Refused t (u, outcome) =
    (u.accounts ≡ t.accounts)
    × (u.sessions ≡ t.sessions)
    × ((outcome ≡ invalid) ⊎ (outcome ≡ taken))

dead_token :
    (now : ℕ) (seen t : Tables) (hash user_id : String)
    → first (acceptable now t.accounts hash) t.invites ≡ none
    → Refused t (accept_invitation now seen t hash user_id)
unfolding accept_invitation
dead_token now seen t hash user_id h = elim (Option-cases (find_live_invitation now seen hash)) [
  | inl gone ↦ rw gone (refl, refl, inl refl)
  | inr (target, live) ↦ rw live (elim (Bool-cases (email_has_account t.accounts target.email)) [
    | inl there ↦ rw there (refl, refl, inr refl)
    | inr free ↦ rw (free, h) (refl, refl, inl refl)
  ])
]

module _ (normalize : String → String) (invitable : String → Bool) (hash : String) where
  -- No call mints the token again.
  abbrev pub Unminted : {t u : Tables} → InviteSteps normalize invitable t u → Type 0
  Unminted none_left = Unit
  Unminted (next (creates now actor email role mint) rest) =
      (str_eq mint.hash hash ≡ false) × Unminted rest
  Unminted (next (resends now seen actor id mint) rest) =
      (str_eq mint.hash hash ≡ false) × Unminted rest
  Unminted (next (revokes now seen actor id) rest) = Unminted rest
  Unminted (next (accepts now seen token user_id) rest) = Unminted rest

  NoHash-InviteSteps :
      (t u : Tables) (steps : InviteSteps normalize invitable t u)
      → Unminted steps
      → NoHash hash t
      → NoHash hash u
  NoHash-InviteSteps t _ none_left m h = h
  NoHash-InviteSteps t u (next (creates now actor email role mint) rest) (other, m) h =
      NoHash-InviteSteps _ u rest m
        (create_invitation-NoHash hash normalize invitable now t actor email role mint other h)
  NoHash-InviteSteps t u (next (resends now seen actor id mint) rest) (other, m) h =
      NoHash-InviteSteps _ u rest m (resend_invitation-NoHash hash now seen t actor id mint other h)
  NoHash-InviteSteps t u (next (revokes now seen actor id) rest) m h =
      NoHash-InviteSteps _ u rest m (revoke_invitation-NoHash hash now seen t actor id h)
  NoHash-InviteSteps t u (next (accepts now seen token user_id) rest) m h =
      NoHash-InviteSteps _ u rest m (accept_invitation-NoHash hash now seen t token user_id h)

  -- An invitation is accepted at most once. After an acceptance, where no other open invitation had
  -- the same token, and after any calls that then create, resend, revoke and accept invitations, of
  -- which none mints that token again, presenting it at any time opens no account and no session:
  -- the outcome is invalid or taken, also when what was read before the transaction still shows the
  -- invitation open, as for a second submission that runs at the same time.
  pub accept_invitation_once :
      (now later : ℕ) (seen t : Tables) (user_id id email : String) (role : UserRole)
      (by : Option String) (u stale : Tables) (next_id : String)
      → (accept_invitation now seen t hash user_id).1 ≡ accepted id email role by
      → length (filter (has_hash hash) t.invites) ≤ 1
      → (steps : InviteSteps normalize invitable (accept_invitation now seen t hash user_id).0 u)
      → Unminted steps
      → Refused u (accept_invitation later stale u hash next_id)
  accept_invitation_once now later seen t user_id id email role by u stale next_id h k steps m =
      let gone =
        NoHash-InviteSteps (accept_invitation now seen t hash user_id).0 u steps m
          (spent_hash now seen t hash user_id id email role by h k) in
      dead_token later stale u hash next_id (
        first_none (acceptable later u.accounts hash) (has_hash hash)
          (acceptable-has_hash later u hash) u.invites gone)
