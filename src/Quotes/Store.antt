-- ===== src/Quotes/Store.antt =====
-- The in-memory quote stores: `InMemoryPurchaseQuoteStore`, `InMemoryEsimTopupQuoteStore` and
-- `InMemoryWalletTopupQuoteStore` have the same bodies. The `asyncio` guard makes each operation
-- one step.
pub mod Laws
pub mod Refines
use esim_opensource_mcp.Prelude.{
  ℕ, suc, ◌+◌, String, Bool, Option, none, some, List, [], ◌∷◌, Dict, lookup, insert, values,
  select, ◌&&◌, ◌==◌, if◌then◌else◌,
}
use esim_opensource_mcp.Owner.{QuoteOwner, owner_matches}
use esim_opensource_mcp.Records
use esim_opensource_mcp.Quotes.{
  Quote, QuoteStatus, active, cancelled, is_active, is_usable, quote_owned,
}

module _ {T : Type 0} where
  abbrev pub matches : QuoteOwner → Quote T → Bool
  matches = owner_matches quote_owned

  unfoldable pub save : Quote T → Dict (Quote T) → Dict (Quote T)
  unfolding Records.save
  save = Records.save quote_owned

  unfoldable pub get : QuoteOwner → String → Dict (Quote T) → Option (Quote T)
  unfolding Records.get
  get = Records.get quote_owned

  unfoldable pub list_active : QuoteOwner → ℕ → Dict (Quote T) → List (Quote T)
  unfolding values is_usable
  list_active owner now d = select (λ q. matches owner q && is_usable q now) (values d)

  abbrev pub restatus :
      QuoteOwner
      → String
      → QuoteStatus
      → Dict (Quote T)
      → Option (Quote T)
      → Option (Quote T) × Dict (Quote T)
  restatus owner id status d none = (none, d)
  restatus owner id status d (some q) =
      if matches owner q
      then (some (record q { status = status }), insert id (record q { status = status }) d)
      else (none, d)

  unfoldable pub set_status :
      QuoteOwner → String → QuoteStatus → Dict (Quote T) → Option (Quote T) × Dict (Quote T)
  unfolding lookup insert
  set_status owner id status d = restatus owner id status d (lookup id d)

  -- what the loop of `invalidate_session` does with one stored quote
  abbrev pub cancel_if : String → Quote T → Quote T
  cancel_if sk q =
      if q.owner_session_key == sk && is_active q.status then record q { status = cancelled } else q

  unfoldable pub invalidate_session : String → Dict (Quote T) → Dict (Quote T) × ℕ
  invalidate_session sk [] = ([], 0)
  invalidate_session sk ((k, q) ∷ d) =
      let (rest, n) = invalidate_session sk d in
      (
        (k, cancel_if sk q) ∷ rest,
        if q.owner_session_key == sk && is_active q.status then suc n else n,
      )
