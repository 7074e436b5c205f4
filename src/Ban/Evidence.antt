-- ===== src/Ban/Evidence.antt =====
-- ban_detector.go and classify.go: the error codes, and what an error code and message give evidence
-- of. HTTP statuses are Go ints.
use grok_inspection.Base.{ℤ, ◌==ℤ◌, String, Bool, false, not, [], ◌∷◌, if◌then◌else◌}
use grok_inspection.Text.{str_eq, lower, concat, contains_any}

abbrev pub exhausted_error_code : String
exhausted_error_code = "subscription:free-usage-exhausted"

abbrev pub permission_denied_error_code : String
permission_denied_error_code = "permission-denied"

abbrev pub spending_limit_error_code : String
spending_limit_error_code = "personal-team-blocked:spending-limit"

abbrev pub unauthorized_error_code : String
unauthorized_error_code = "unauthorized"

abbrev pub manual_inspection_ban_error_code : String
manual_inspection_ban_error_code = "manual-disabled"

abbrev pub manual_inspection_ban_reset_source : String
manual_inspection_ban_reset_source = "manual_unban"

unfoldable pub blob : String → String → String
unfolding lower concat
blob code message = concat (lower code ∷ " " ∷ lower message ∷ [])

-- Request-level moderation and safety blocks.
unfoldable pub is_content_safety_violation : String → String → Bool
unfolding blob contains_any
is_content_safety_violation code message = contains_any (blob code message) (
    "content violates usage guidelines" ∷ "violates usage guidelines" ∷ "safety_check"
    ∷ "safety check" ∷ "content safety" ∷ "content policy" ∷ "moderation" ∷ "policy violation"
    ∷ "policy_violation" ∷ "blocked by safety" ∷ "usage guidelines" ∷ [])

-- The account-level signals among the texts of a 403.
unfoldable pub has_account_signal : String → String → Bool
unfolding blob contains_any
has_account_signal code message = contains_any (blob code message) (
    "access to the chat endpoint is denied" ∷ "chat endpoint is denied"
    ∷ "using the correct credentials" ∷ "console.x.ai" ∷ "update the permissions"
    ∷ "contact support" ∷ "console permissions" ∷ "credentials" ∷ "deactivated" ∷ "suspended"
    ∷ "account has been banned" ∷ "account banned" ∷ "account is banned" ∷ "account suspended"
    ∷ "account deactivated" ∷ [])

unfoldable pub is_account_level_permission_denied : ℤ → String → String → Bool
unfolding has_account_signal is_content_safety_violation
is_account_level_permission_denied status code message =
    if not (status ==ℤ 403)
    then false
    else if is_content_safety_violation code message
    then false
    else has_account_signal code message

-- Durable credential failures; a bare "Authentication required" is none.
unfoldable pub is_strong_unauthorized_evidence : String → String → Bool
unfolding blob contains_any
is_strong_unauthorized_evidence code message = contains_any (blob code message) (
    "token is expired" ∷ "token has been invalidated" ∷ "token expired" ∷ "token_expired"
    ∷ "invalid_grant" ∷ "invalid_token" ∷ "invalid credentials" ∷ "expired credentials"
    ∷ "authentication_error" ∷ "unauthenticated" ∷ "access token is invalid"
    ∷ "access token expired" ∷ "refresh token is invalid" ∷ "refresh token expired"
    ∷ "refresh_token is invalid" ∷ [])

-- Grok's free-tier exhaustion alone, not a bare 429.
unfoldable pub is_free_usage_exhausted : String → String → Bool
unfolding blob contains_any
is_free_usage_exhausted code message = contains_any (blob code message) (
    "free-usage-exhausted" ∷ "used all the included free usage"
    ∷ "included free usage has been exhausted" ∷ [])

-- The exact spending-limit code alone.
unfoldable pub is_spending_limit_blocked : String → String → Bool
unfolding lower str_eq
is_spending_limit_blocked code message = str_eq (lower code) spending_limit_error_code
