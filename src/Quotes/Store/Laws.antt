-- ===== src/Quotes/Store/Laws.antt =====
-- What the quote stores return after each operation.
use esim_opensource_mcp.Prelude.{
  String, Option, none, some, [], ◌∷◌, Dict, lookup, lookup-insert, ◌==◌, if◌then◌else◌, ◌≡◌, ◌≢◌,
  arith, eq_iff, refl,
}
use mathlib.Core.Option
use esim_opensource_mcp.Owner.{QuoteOwner}
use esim_opensource_mcp.Records.Laws
use esim_opensource_mcp.Quotes.{Quote, QuoteStatus, quote_owned}
use esim_opensource_mcp.Quotes.Store.{
  save, get, restatus, set_status, matches, cancel_if, invalidate_session,
}

module _ {T : Type 0} where
  pub lookup-save :
      (q : Quote T) (j : String) (d : Dict (Quote T))
      → lookup j (save q d) ≡ (if q.quote_id == j then some q else lookup j d)
  unfolding save
  lookup-save = Laws.lookup-save quote_owned

  pub get-eq-some :
      (owner : QuoteOwner) (id : String) (d : Dict (Quote T)) (q : Quote T)
      → get owner id d ≡ some q
      → (lookup id d ≡ some q)
        × (owner.session_key ≡ q.owner_session_key)
        × (owner.user_ref ≡ q.owner_user_ref)
        × (id ≢ "")
  unfolding get
  get-eq-some = Laws.get-eq-some quote_owned

  -- the record under `j` after the status of `id` was set by its owner
  abbrev pub restated : QuoteOwner → QuoteStatus → Quote T → Quote T
  restated owner status q = if matches owner q then record q { status = status } else q

  lookup-restatus :
      (owner : QuoteOwner) (id j : String) (status : QuoteStatus) (d : Dict (Quote T))
      (o : Option (Quote T))
      → lookup id d ≡ o
      → lookup j (restatus owner id status d o).1
        ≡ (if id == j then Option.map (restated owner status) (lookup j d) else lookup j d)
  lookup-restatus owner id j status d none h = ground (arith, eq_iff id j)
  lookup-restatus owner id j status d (some q) h =
      ground (arith, eq_iff id j, lookup-insert id j (record q { status = status }) d)

  pub lookup-set_status :
      (owner : QuoteOwner) (id j : String) (status : QuoteStatus) (d : Dict (Quote T))
      → lookup j (set_status owner id status d).1
        ≡ (if id == j then Option.map (restated owner status) (lookup j d) else lookup j d)
  unfolding set_status
  lookup-set_status owner id j status d = lookup-restatus owner id j status d (lookup id d) refl

  pub lookup-invalidate :
      (sk j : String) (d : Dict (Quote T))
      → lookup j (invalidate_session sk d).0 ≡ Option.map (cancel_if sk) (lookup j d)
  unfolding invalidate_session lookup
  lookup-invalidate sk j [] = refl
  lookup-invalidate sk j ((k, q) ∷ d) = ground (arith, lookup-invalidate sk j d)
