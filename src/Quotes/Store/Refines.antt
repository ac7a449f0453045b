-- ===== src/Quotes/Store/Refines.antt =====
-- What the quote stores promise: a store is a function from ids to quotes, and the order in which it
-- keeps them does not show in what `get`, `set_status` and later operations answer.
use mathlib.Core.Path.{fun_ext}
use mathlib.Core.Option
use esim_opensource_mcp.Prelude.{
  String, Option, none, some, List, [], ◌∷◌, Dict, lookup, ◌==◌, if◌then◌else◌, ◌≡◌, arith, refl,
  ap, ◌∙◌,
}
use esim_opensource_mcp.Owner.{QuoteOwner}
use esim_opensource_mcp.Records
use esim_opensource_mcp.Quotes.{Quote, QuoteStatus}
use esim_opensource_mcp.Quotes.Store.{
  save, get, set_status, restatus, invalidate_session, matches, cancel_if,
}
use esim_opensource_mcp.Quotes.Store.Laws.{
  restated, lookup-save, lookup-set_status, lookup-invalidate,
}

pub data Operation (T : Type 0) : Type 0 where
  saving : Quote T → Operation T
  reading : QuoteOwner → String → Operation T
  restating : QuoteOwner → String → QuoteStatus → Operation T
  dropping : String → Operation T

-- The abstract store.
abbrev pub StoredQuotes : Type 0 → Type 0
StoredQuotes T = String → Option (Quote T)

module _ {T : Type 0} where
  -- what a caller sees of a stored quote
  abbrev pub visible : QuoteOwner → Option (Quote T) → Option (Quote T)
  visible owner none = none
  visible owner (some q) = if matches owner q then some q else none

  abbrev pub with_status : QuoteStatus → Quote T → Quote T
  with_status status q = record q { status = status }

  abbrev pub specified : Operation T → StoredQuotes T → Option (Quote T) × StoredQuotes T
  specified (saving q) m = (none, λ j. if q.quote_id == j then some q else m j)
  specified (reading owner id) m = (if id == "" then none else visible owner (m id), m)
  specified (restating owner id status) m = (
    Option.map (with_status status) (visible owner (m id)),
    λ j. if id == j then Option.map (restated owner status) (m j) else m j,
  )
  specified (dropping sk) m = (none, λ j. Option.map (cancel_if sk) (m j))

  abbrev pub perform : Operation T → Dict (Quote T) → Option (Quote T) × Dict (Quote T)
  perform (saving q) d = (none, save q d)
  perform (reading owner id) d = (get owner id d, d)
  perform (restating owner id status) d = set_status owner id status d
  perform (dropping sk) d = (none, (invalidate_session sk d).0)

  abbrev pub view : Dict (Quote T) → StoredQuotes T
  view d j = lookup j d

  -- The answers to a sequence of operations, of the store and of its specification.
  unfoldable pub answers : List (Operation T) → Dict (Quote T) → List (Option (Quote T))
  answers [] d = []
  answers (op ∷ ops) d = (perform op d).0 ∷ answers ops (perform op d).1

  unfoldable pub specified_answers : List (Operation T) → StoredQuotes T → List (Option (Quote T))
  specified_answers [] m = []
  specified_answers (op ∷ ops) m = (specified op m).0 ∷ specified_answers ops (specified op m).1

  get-visible :
      (owner : QuoteOwner) (id : String) (d : Dict (Quote T))
      → get owner id d ≡ (if id == "" then none else visible owner (lookup id d))
  unfolding get Records.get
  get-visible owner id d = ground arith

  restatus-visible :
      (owner : QuoteOwner) (id : String) (status : QuoteStatus) (d : Dict (Quote T))
      (o : Option (Quote T))
      → (restatus owner id status d o).0 ≡ Option.map (with_status status) (visible owner o)
  restatus-visible owner id status d none = refl
  restatus-visible owner id status d (some q) = ground arith

  set_status-visible :
      (owner : QuoteOwner) (id : String) (status : QuoteStatus) (d : Dict (Quote T))
      → (set_status owner id status d).0
        ≡ Option.map (with_status status) (visible owner (lookup id d))
  unfolding set_status
  set_status-visible owner id status d = restatus-visible owner id status d (lookup id d)

  -- One operation does on the store what it does on the specification.
  perform-specified :
      (op : Operation T) (d : Dict (Quote T))
      → ((perform op d).0 ≡ (specified op (view d)).0)
        × (view (perform op d).1 ≡ (specified op (view d)).1)
  perform-specified (saving q) d = (refl, fun_ext λ j. lookup-save q j d)
  perform-specified (reading owner id) d = (get-visible owner id d, refl)
  perform-specified (restating owner id status) d =
      (set_status-visible owner id status d, fun_ext λ j. lookup-set_status owner id j status d)
  perform-specified (dropping sk) d = (refl, fun_ext λ j. lookup-invalidate sk j d)

  -- On any sequence of saves, reads, changes of status and ends of sessions, from any store, the
  -- store answers what the specification answers from the function that looks quotes up in it. So
  -- two stores that hold the same quotes in different orders are never told apart by these.
  pub answers-specified :
      (ops : List (Operation T)) (d : Dict (Quote T))
      → answers ops d ≡ specified_answers ops (view d)
  unfolding answers specified_answers
  answers-specified [] d = refl
  answers-specified (op ∷ ops) d =
      let (same, next) = perform-specified op d in
      rw same (
        ap (λ t. (specified op (view d)).0 ∷ t)
          (answers-specified ops (perform op d).1 ∙ ap (specified_answers ops) next))
