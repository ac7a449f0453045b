-- ===== src/Topup/Quotes/Laws.antt =====
-- What the top-up quote services read.
use esim_opensource_mcp.Prelude.{String, some, Dict, lookup, ◌≡◌, ◌≢◌, arith}
use esim_opensource_mcp.Errors.{ok}
use esim_opensource_mcp.Owner.{QuoteOwner}
use esim_opensource_mcp.Quotes.Store.Laws as StoreLaws
use esim_opensource_mcp.Topup.{EsimTopupQuote, WalletTopupQuote}
use esim_opensource_mcp.Topup.Quotes.{get_esim_record, get_wallet_record}

-- A quote that is read is stored, under the caller.
pub get_esim_record-ok :
    (owner : QuoteOwner) (id : String) (d : Dict EsimTopupQuote) (q : EsimTopupQuote)
    → get_esim_record owner id d ≡ ok q
    → (lookup id d ≡ some q)
      × (owner.session_key ≡ q.owner_session_key)
      × (owner.user_ref ≡ q.owner_user_ref)
      × (id ≢ "")
unfolding get_esim_record
get_esim_record-ok owner id d q h = ground (arith, StoreLaws.get-eq-some owner id d q)

-- The same for the quotes of wallet top-ups.
pub get_wallet_record-ok :
    (owner : QuoteOwner) (id : String) (d : Dict WalletTopupQuote) (q : WalletTopupQuote)
    → get_wallet_record owner id d ≡ ok q
    → (lookup id d ≡ some q)
      × (owner.session_key ≡ q.owner_session_key)
      × (owner.user_ref ≡ q.owner_user_ref)
      × (id ≢ "")
unfolding get_wallet_record
get_wallet_record-ok owner id d q h = ground (arith, StoreLaws.get-eq-some owner id d q)
