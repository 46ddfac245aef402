-- ===== src/Users/Admin/Sound/Steps.antt =====
-- Every step keeps the rows sound.
use bunmail.Prelude.{String, Bool}
use bunmail.Users.Tables.{Tables}
use bunmail.Users.Admin.Steps.{AdminSteps}
use bunmail.Users.Admin.Keeps.{Kept, AdminSteps-keep}
use bunmail.Users.Admin.Sound.{Sound, deactivated-Sound, reactivated-Sound, removed-Sound}
use bunmail.Users.Admin.Sound.Tokens.{accept_invitation-Sound, complete_password_reset-Sound}
use bunmail.Users.Admin.Sound.Changes.{set_role-Sound, transferred-Sound, reset_issued-Sound}

Sound-Kept : Kept Sound
Sound-Kept = record {
  set_role_keeps = λ t h id a there was role is. set_role-Sound t h id a there was role is;
  deactivated_keeps = λ t h id a there was. deactivated-Sound t h id a there;
  reactivated_keeps = λ t h id a there was. reactivated-Sound t h id a there;
  removed_keeps = λ t h id a there was. removed-Sound t h id a there;
  transferred_keeps = λ t h i k a b here there apart was_owner was_admin.
      transferred-Sound t h i k a b here there apart was_owner was_admin;
  reset_issued_keeps = λ t h i k a b here there on passed mint.
      reset_issued-Sound t h i k a b here there mint on passed;
  accepted_keeps = λ t h now seen hash user_id. accept_invitation-Sound t h now seen hash user_id;
  completed_keeps = λ t h now seen hash. complete_password_reset-Sound t h now seen hash;
}

module _ (trim to_lower_case : String → String) (sso_only : String → Bool) where
  -- No account action, accepted invitation or completed reset, and no sequence of them, leaves a
  -- token, session or key behind that outlives the standing it rests on: if every open invitation and reset link that has an issuer passes the
  -- guard on its presentation, every session is an active account's, and every active key that has
  -- a creator is one that its creator may hold, then the same is true after the calls.
  pub Sound-AdminSteps :
      (t u : Tables) → Sound t → AdminSteps trim to_lower_case sso_only t u → Sound u
  Sound-AdminSteps t u h steps =
      AdminSteps-keep trim to_lower_case sso_only Sound Sound-Kept t u steps h
