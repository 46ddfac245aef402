-- ===== src/Users/Admin/Steps.antt =====
-- The account actions as steps of the rows, with the two calls that a token makes: the acceptance
-- of an invitation and the completion of a reset.
use bunmail.Prelude.{ℕ, String, Bool}
use bunmail.Users.Tables.{Mint, Tables}
use bunmail.Users.Invites.{accept_invitation}
use bunmail.Users.Reset.{complete_password_reset}
use bunmail.Users.Admin.{
  change_account_role, deactivate_account, reactivate_account, remove_account,
  transfer_ownership_to, issue_password_reset,
}

module _ (trim to_lower_case : String → String) (sso_only : String → Bool) where
  -- One call, whatever it answers.
  pub data AdminStep (t : Tables) : Tables → Type 0 where
    by_change_role :
        (actor target role : String) → AdminStep t (change_account_role t actor target role).0
    by_deactivate : (actor target : String) → AdminStep t (deactivate_account t actor target).0
    by_reactivate : (actor target : String) → AdminStep t (reactivate_account t actor target).0
    by_remove :
        (actor target confirm : String)
        → AdminStep t (remove_account trim to_lower_case t actor target confirm).0
    by_transfer :
        (seen : Tables) (actor target : String) (limited verified : Bool)
        → AdminStep t (transfer_ownership_to sso_only seen t actor target limited verified).0
    by_reset :
        (actor target : String) (mint : Mint)
        → AdminStep t (issue_password_reset t actor target mint).0
    by_acceptance :
        (now : ℕ) (seen : Tables) (hash user_id : String)
        → AdminStep t (accept_invitation now seen t hash user_id).0
    by_completion :
        (now : ℕ) (seen : Tables) (hash : String)
        → AdminStep t (complete_password_reset now seen t hash).0

  pub data AdminSteps : Tables → Tables → Type 0 where
    none_left : {t : Tables} → AdminSteps t t
    next : {t u v : Tables} → AdminStep t u → AdminSteps u v → AdminSteps t v

  -- What every step keeps, any number of steps keep.
  pub steps_keep {ℓ} :
      (P : Tables → Type ℓ)
      → ((t u : Tables) → AdminStep t u → P t → P u)
      → (t v : Tables) → AdminSteps t v
      → P t
      → P v
  steps_keep P keep t _ none_left h = h
  steps_keep P keep t v (next {u = u} s rest) h = steps_keep P keep u v rest (keep t u s h)
