-- ===== src/Quotes/Service.antt =====
-- What the three quote services share: `create`, `cancel` and `consume` of purchase/service.py and
-- topup/service.py have the same bodies up to the test for an equivalent quote and the error for
-- a missing one. A method returns its result with the store it leaves behind.
use esim_opensource_mcp.Prelude.{
  ℕ, ◌-◌, String, Bool, Option, none, some, List, [], ◌∷◌, Dict, length, select, leb, if◌then◌else◌,
  ◌≡◌, refl,
}
use esim_opensource_mcp.Errors.{ErrorKind, Result, ok, err, plain, too_many_active_quotes}
use esim_opensource_mcp.Owner.{QuoteOwner}
use esim_opensource_mcp.Quotes.{Quote, cancelled, consumed, is_active, effective_status}
use esim_opensource_mcp.Quotes.Store.{save, list_active, set_status}

module _ {T : Type 0} where
  -- `for existing in superseded: set_status(owner, existing.quote_id, CANCELLED)`
  unfoldable pub cancel_each : QuoteOwner → List (Quote T) → Dict (Quote T) → Dict (Quote T)
  unfolding set_status
  cancel_each owner [] d = d
  cancel_each owner (q ∷ qs) d = cancel_each owner qs (set_status owner q.quote_id cancelled d).1

  -- the active quotes that a new one replaces
  unfoldable pub superseded : (Quote T → Bool) → QuoteOwner → ℕ → Dict (Quote T) → List (Quote T)
  unfolding list_active
  superseded equivalent owner moment d = select equivalent (list_active owner moment d)

  -- `create`, on a quote that is built already: the cancellations stay also where it raises
  unfoldable pub supersede_and_save :
      (Quote T → Bool)
      → QuoteOwner
      → ℕ
      → ℕ
      → Quote T
      → Dict (Quote T)
      → Result (Quote T) × Dict (Quote T)
  unfolding superseded cancel_each list_active save
  supersede_and_save equivalent owner max_active moment quote d =
      let old = superseded equivalent owner moment d in
      let left = cancel_each owner old d in
      if leb max_active (length (list_active owner moment d) - length old)
      then (err (plain too_many_active_quotes), left)
      else (ok quote, save quote left)

  -- whether the owner has too many quotes left for one more
  abbrev pub at_limit : (Quote T → Bool) → QuoteOwner → ℕ → ℕ → Dict (Quote T) → Bool
  at_limit equivalent owner max_active moment d =
      leb max_active
        (length (list_active owner moment d) - length (superseded equivalent owner moment d))

  pub supersede_and_save_lem :
      (equivalent : Quote T → Bool) (owner : QuoteOwner) (max_active moment : ℕ) (quote : Quote T)
      (d : Dict (Quote T))
      → let left = cancel_each owner (superseded equivalent owner moment d) d in
        supersede_and_save equivalent owner max_active moment quote d ≡ (
          if at_limit equivalent owner max_active moment d
          then (err (plain too_many_active_quotes), left)
          else (ok quote, save quote left))
  unfolding supersede_and_save
  supersede_and_save_lem equivalent owner max_active moment quote d = refl

  abbrev pub or_missing :
      ErrorKind → Option (Quote T) × Dict (Quote T) → Result (Quote T) × Dict (Quote T)
  or_missing missing (none, d) = (err (plain missing), d)
  or_missing missing (some q, d) = (ok q, d)

  -- `cancel`, after the quote was read
  unfoldable pub cancel_read :
      ErrorKind
      → QuoteOwner
      → String
      → ℕ
      → Result (Quote T)
      → Dict (Quote T)
      → Result (Quote T) × Dict (Quote T)
  unfolding set_status effective_status
  cancel_read missing owner id moment (err e) d = (err e, d)
  cancel_read missing owner id moment (ok quote) d =
      if is_active (effective_status quote moment)
      then or_missing missing (set_status owner id cancelled d)
      else (ok quote, d)

  -- `consume`, after the quote was read
  unfoldable pub consume_read :
      ErrorKind
      → QuoteOwner
      → String
      → Result (Quote T)
      → Dict (Quote T)
      → Result (Quote T) × Dict (Quote T)
  unfolding set_status
  consume_read missing owner id (err e) d = (err e, d)
  consume_read missing owner id (ok quote) d = or_missing missing (set_status owner id consumed d)
