-- ===== src/Purchase/Execution/Laws.antt =====
-- The execution store and the purchase quotes, as the calls around a purchase see them.
use esim_opensource_mcp.Prelude.{
  String, Option, none, some, Dict, IsUnique, lookup, ◌==◌, if◌then◌else◌, ◌≡◌, ◌≢◌, arith,
}
use esim_opensource_mcp.Owner.{QuoteOwner}
use esim_opensource_mcp.Records.Laws
use esim_opensource_mcp.Purchase.Execution.{
  PurchaseExecution, execution_owned, get, save, acquire, new_execution, invalidate_session,
}

pub lookup-save :
    (e : PurchaseExecution) (j : String) (d : Dict PurchaseExecution)
    → lookup j (save e d) ≡ (if e.quote_id == j then some e else lookup j d)
unfolding save
lookup-save = Laws.lookup-save execution_owned

pub save-IsUnique :
    (e : PurchaseExecution) (d : Dict PurchaseExecution) → IsUnique d → IsUnique (save e d)
unfolding save
save-IsUnique = Laws.save-IsUnique execution_owned

abbrev pub kept : String → Option PurchaseExecution → Option PurchaseExecution
kept sk none = none
kept sk (some e) = if e.owner_session_key == sk then none else some e

pub lookup-invalidate :
    (sk j : String) (d : Dict PurchaseExecution)
    → IsUnique d
    → lookup j (invalidate_session sk d).0 ≡ kept sk (lookup j d)
unfolding invalidate_session
lookup-invalidate sk j d u = ground (arith, Laws.lookup-invalidate execution_owned sk j d u)

pub invalidate-IsUnique :
    (sk : String) (d : Dict PurchaseExecution) → IsUnique d → IsUnique (invalidate_session sk d).0
unfolding invalidate_session
invalidate-IsUnique = Laws.invalidate-IsUnique execution_owned

abbrev pub BelongsTo : QuoteOwner → PurchaseExecution → Type 0
BelongsTo owner e = (e.owner_session_key ≡ owner.session_key) × (e.owner_user_ref ≡ owner.user_ref)

-- `acquire` returns the stored record of the caller, whatever the fresh key.
pub acquire_stored :
    (owner : QuoteOwner) (id key : String) (d : Dict PurchaseExecution) (e : PurchaseExecution)
    → id ≢ ""
    → lookup id d ≡ some e
    → BelongsTo owner e
    → acquire owner id key d ≡ (e, d)
unfolding acquire
acquire_stored owner id key d e n h b =
    ground (arith, Laws.get_of_lookup execution_owned owner id d e h)

-- Where nothing is stored it stores a record with the fresh key and no attempt.
pub acquire_fresh :
    (owner : QuoteOwner) (id key : String) (d : Dict PurchaseExecution)
    → lookup id d ≡ none
    → acquire owner id key d ≡ (new_execution owner id key, save (new_execution owner id key) d)
unfolding acquire get
acquire_fresh owner id key d h = ground (arith, Laws.get-none execution_owned owner id d)
