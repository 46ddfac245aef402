-- ===== src/Users/Roles/Ranks.antt =====
-- No action goes up or sideways.
use bunmail.Prelude.{ℕ, ◌<◌, ◌≡◌, refl, String, true, false, none, some, str_eq, arith}
use bunmail.Users.Roles.{
  UserRole, owner, admin, member, role_eq, AccountAction, change_role, reset_password, deactivate,
  reactivate, transfer_ownership, remove, AccountParty, account_action_refusal, invite_role_of,
}

abbrev pub rank : UserRole → ℕ
rank owner = 2
rank admin = 1
rank member = 0

-- Whoever may do anything to an account stands above it, and it is not the owner's nor their own.
pub account_action_refusal-ranks :
    (action : AccountAction) (actor target : AccountParty)
    → account_action_refusal action actor target ≡ none
    → (rank target.role < rank actor.role) × (str_eq actor.id target.id ≡ false)
unfolding account_action_refusal
account_action_refusal-ranks change_role actor target h = ground arith
account_action_refusal-ranks reset_password actor target h = ground arith
account_action_refusal-ranks deactivate actor target h = ground arith
account_action_refusal-ranks reactivate actor target h = ground arith
account_action_refusal-ranks transfer_ownership actor target h = ground arith
account_action_refusal-ranks remove actor target h = ground arith

-- The same for the owner, whom no action touches.
pub account_action_refusal-owner :
    (action : AccountAction) (actor target : AccountParty)
    → account_action_refusal action actor target ≡ none
    → role_eq target.role owner ≡ false
unfolding account_action_refusal
account_action_refusal-owner action actor target h = ground arith

-- A transfer goes from the owner to an administrator.
pub account_action_refusal-transfer_ownership :
    (actor target : AccountParty)
    → account_action_refusal transfer_ownership actor target ≡ none
    → (role_eq actor.role owner ≡ true)
      × (role_eq target.role admin ≡ true)
      × (target.disabled ≡ false)
unfolding account_action_refusal
account_action_refusal-transfer_ownership actor target h = ground arith

-- A role that an invitation can give is not the owner's.
pub invite_role_of-owner :
    (raw : String) (role : UserRole) → invite_role_of raw ≡ some role → role_eq role owner ≡ false
unfolding invite_role_of
invite_role_of-owner raw owner h = ground arith
invite_role_of-owner raw admin h = refl
invite_role_of-owner raw member h = refl
