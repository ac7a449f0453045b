-- ===== src/Topup/Execution/Acquire.antt =====
-- What `acquire` of the eSIM top-ups returns, and what their store keeps when a session ends.
use esim_opensource_mcp.Prelude.{
  String, Option, none, some, Dict, lookup, IsUnique, if◌then◌else◌, ◌==◌, ◌≡◌, ◌≢◌, arith,
}
use esim_opensource_mcp.Owner.{QuoteOwner}
use esim_opensource_mcp.Records.Laws
use esim_opensource_mcp.Topup.Execution.{
  EsimTopupExecution, execution_owned, get, save, acquire, new_execution, invalidate_session,
}

pub lookup-save :
    (e : EsimTopupExecution) (j : String) (d : Dict EsimTopupExecution)
    → lookup j (save e d) ≡ (if e.quote_id == j then some e else lookup j d)
unfolding save
lookup-save e j d = Laws.lookup-save execution_owned e j d

pub save-IsUnique :
    (e : EsimTopupExecution) (d : Dict EsimTopupExecution) → IsUnique d → IsUnique (save e d)
unfolding save
save-IsUnique e d u = Laws.save-IsUnique execution_owned e d u

abbrev pub kept : String → Option EsimTopupExecution → Option EsimTopupExecution
kept = Laws.dropped execution_owned

pub lookup-invalidate :
    (sk j : String) (d : Dict EsimTopupExecution)
    → IsUnique d
    → lookup j (invalidate_session sk d).0 ≡ kept sk (lookup j d)
unfolding invalidate_session
lookup-invalidate sk j d u = Laws.lookup-invalidate execution_owned sk j d u

pub invalidate-IsUnique :
    (sk : String) (d : Dict EsimTopupExecution) → IsUnique d → IsUnique (invalidate_session sk d).0
unfolding invalidate_session
invalidate-IsUnique sk d u = Laws.invalidate-IsUnique execution_owned sk d u

-- The stored execution of the owner is acquired as it is.
pub acquire_stored :
    (owner : QuoteOwner) (id : String) (d : Dict EsimTopupExecution) (e : EsimTopupExecution)
    → id ≢ ""
    → lookup id d ≡ some e
    → owner.session_key ≡ e.owner_session_key
    → owner.user_ref ≡ e.owner_user_ref
    → acquire owner id d ≡ (e, d)
unfolding acquire get
acquire_stored owner id d e n h s u =
    ground (arith, Laws.get_of_lookup execution_owned owner id d e h s u n)

-- Where nothing is stored it stores a record without an attempt.
pub acquire_fresh :
    (owner : QuoteOwner) (id : String) (d : Dict EsimTopupExecution)
    → lookup id d ≡ none
    → acquire owner id d ≡ (new_execution owner id, save (new_execution owner id) d)
unfolding acquire get
acquire_fresh owner id d h = ground (arith, Laws.get-none execution_owned owner id d h)
