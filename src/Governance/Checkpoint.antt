-- ===== src/Governance/Checkpoint.antt =====
-- orchestrator/governance/checkpoint.py
use url_copilot.Prelude.{
  In, In→contains, Result, Result-cases, String, arith, contains, contains→In, eq_iff, err, inl,
  inr, nat_eq, not, ok, raise_if, string_eq, ◌==◌, ◌>>=◌, ◌>>◌, ◌↔◌, ◌≡◌, ◌≢◌,
}
use url_copilot.Gateway.Auth.{AuthError, CurrentUser, named}

pub data ApprovalError : Type 0 where
  not_authenticated : AuthError → ApprovalError
  authorization_error four_eyes_violation : ApprovalError

unfoldable pub check_permission : CurrentUser → String → Result ApprovalError (Unit {0})
check_permission user permission =
    raise_if (not (contains permission user.permissions)) authorization_error

unfoldable pub verify_four_eyes : String → String → Result ApprovalError (Unit {0})
verify_four_eyes approver_login triggered_by =
    raise_if (approver_login == triggered_by) four_eyes_violation

-- `resolve`, with its error among those of an approval
abbrev pub authenticated : Result AuthError CurrentUser → Result ApprovalError CurrentUser
authenticated (ok user) = ok user
authenticated (err x) = err (not_authenticated x)

-- `who` is `self.authenticator.resolve`
unfoldable pub request_approval :
    (String → Result AuthError CurrentUser) → String → String → String → Result ApprovalError String
unfolding check_permission verify_four_eyes
request_approval who required_permission trigger_user approver_token = do
  approver ← authenticated (who approver_token)
  check_permission approver required_permission
  verify_four_eyes approver.github_login trigger_user
  ok approver.github_login

-- An approval goes through exactly for the token of a user who holds the permission and is not the
-- one who started the run, and it returns that user's login.
pub request_approval_exact :
    (who : String → Result AuthError CurrentUser) (permission trigger token login : String)
    → (request_approval who permission trigger token ≡ ok login) ↔ (
        (user : CurrentUser) × (who token ≡ ok user)
        × In permission user.permissions
        × (user.github_login ≡ login)
        × (login ≢ trigger))
unfolding request_approval
request_approval_exact who permission trigger token login = (
  λ h. elim (Result-cases (who token)) [
    | inl (x, failed) ↦ absurd (ground arith)
    | inr (user, e) ↦ (
      user,
      e,
      contains→In permission user.permissions (ground arith),
      ground arith,
      ground (arith, eq_iff user.github_login trigger),
    )
  ],
  λ (user, e, holds, named, other).
      ground
        (arith, In→contains permission user.permissions holds, eq_iff user.github_login trigger),
)
