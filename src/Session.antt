-- ===== src/Session.antt =====
-- session/models.py: the records of the session store, keyed by the digest of the MCP client.
use esim_opensource_mcp.Prelude.{
  ℕ, ◌+◌, ◌-◌, ◌*◌, ◌/◌, String, Bool, false, Option, none, some, leb, if◌then◌else◌, ◌==◌,
}
use esim_opensource_mcp.Quotes.{microseconds}

pub record LoginChallenge : Type 0 where
  pub masked_identifier : String
  pub device_id : String
  pub created_at : ℕ
  pub ttl_seconds : ℕ

unfoldable pub challenge_expires_at : LoginChallenge → ℕ
challenge_expires_at c = c.created_at + c.ttl_seconds * microseconds

unfoldable pub challenge_is_expired : LoginChallenge → ℕ → Bool
unfolding challenge_expires_at
challenge_is_expired c now = leb (challenge_expires_at c) now

pub record UserSession : Type 0 where
  pub session_key : String
  pub identity_source : String
  pub device_id : String
  pub access_token : String
  pub refresh_token : String
  pub expires_at : Option ℕ
  pub user_id : Option String
  pub masked_email : Option String
  pub masked_phone : Option String
  pub currency : Option String
  pub is_verified : Bool

-- `None` is an opaque token with no readable expiry
abbrev expired_by : Option ℕ → ℕ → Bool
expired_by none now = false
expired_by (some expires_at) now = leb expires_at now

unfoldable pub is_expired : UserSession → ℕ → Bool
is_expired s now = expired_by s.expires_at now

unfoldable pub needs_refresh : UserSession → ℕ → ℕ → Bool
needs_refresh s window_seconds now = expired_by s.expires_at (now + window_seconds * microseconds)

abbrev seconds_to : Option ℕ → ℕ → Option ℕ
seconds_to none now = none
seconds_to (some expires_at) now = some ((expires_at - now) / microseconds)

unfoldable pub seconds_until_expiry : UserSession → ℕ → Option ℕ
seconds_until_expiry s now = seconds_to s.expires_at now

-- The platform's answer to a verification or a rotation: the tokens, the expiry read from the
-- access token, and the user's particulars, the address and number masked already.
pub record AuthAnswer : Type 0 where
  pub access_token : String
  pub refresh_token : String
  pub expiry : Option ℕ
  pub user_token : Option String
  pub masked_email : Option String
  pub masked_phone : Option String
  pub currency_code : Option String

-- Python's `a or b` on an optional text
abbrev pub either_text : Option String → Option String → Option String
either_text none b = b
either_text (some a) b = if a == "" then b else some a
