-- ===== src/Quotes.antt =====
-- The lifecycle that every prepared quote shares. purchase/models.py and topup/models.py declare
-- it three times over; the fields that only one kind of quote has are its `terms`. Times are
-- microseconds.
pub mod Store
pub mod Service
pub mod Ageing
pub mod Active
use esim_opensource_mcp.Prelude.{
  ℕ, ◌+◌, ◌-◌, ◌*◌, ◌/◌, String, Bool, true, false, ◌&&◌, leb, if◌then◌else◌,
}
use esim_opensource_mcp.Owner.{Owned}
use esim_opensource_mcp.Errors.{McpError, Result, ok, err, plain, ErrorKind}

pub data QuoteStatus : Type 0 where
  active expired cancelled consumed : QuoteStatus

abbrev pub is_active : QuoteStatus → Bool
is_active active = true
is_active _ = false

pub record Quote (T : Type 0) : Type 0 where
  pub quote_id : String
  pub owner_session_key : String
  pub owner_user_ref : String
  pub identity_source : String
  pub terms : T
  pub locale : String
  pub created_at : ℕ
  pub expires_at : ℕ
  pub status : QuoteStatus

abbrev pub quote_owned : {T : Type 0} → Owned (Quote T)
quote_owned = record {
  record_id = λ q. q.quote_id;
  session_of = λ q. q.owner_session_key;
  user_of = λ q. q.owner_user_ref;
}

abbrev pub microseconds : ℕ
microseconds = 1_000_000

-- `created_at + timedelta(seconds=ttl_seconds)`
unfoldable pub expiry_from : ℕ → ℕ → ℕ
expiry_from created_at ttl_seconds = created_at + ttl_seconds * microseconds

module _ {T : Type 0} where
  unfoldable pub is_expired : Quote T → ℕ → Bool
  is_expired q now = leb q.expires_at now

  unfoldable pub effective_status : Quote T → ℕ → QuoteStatus
  unfolding is_expired
  effective_status q now = if is_active q.status && is_expired q now then expired else q.status

  unfoldable pub is_usable : Quote T → ℕ → Bool
  unfolding effective_status
  is_usable q now = is_active (effective_status q now)

  -- `max(0, int((expires_at - now).total_seconds()))`: the subtraction stops at zero
  unfoldable pub seconds_remaining : Quote T → ℕ → ℕ
  seconds_remaining q now = (q.expires_at - now) / microseconds
