-- ===== src/Records.antt =====
-- The in-memory stores of executions and checkouts: purchase/execution.py, purchase/card.py and
-- topup/store.py declare the same store over their own record. `get`, `save` and
-- `invalidate_session` are written once over the interface `Owned`.
pub mod Laws
pub mod References
use esim_opensource_mcp.Prelude.{
  ℕ, String, Bool, Option, none, some, true, false, List, [], ◌∷◌, length, Dict, lookup, insert,
  remove_all, ◌==◌, if◌then◌else◌, values,
}
use esim_opensource_mcp.Owner.{QuoteOwner, Owned, owner_matches}

module _ {R : Type 0} (o : Owned R) where
  abbrev scoped : QuoteOwner → Option R → Option R
  scoped owner none = none
  scoped owner (some r) = if owner_matches o owner r then some r else none

  unfoldable pub get : QuoteOwner → String → Dict R → Option R
  unfolding lookup
  get owner id d = if id == "" then none else scoped owner (lookup id d)

  unfoldable pub save : R → Dict R → Dict R
  unfolding insert
  save r d = insert (o.record_id r) r d

  -- the keys of the records held under one session key
  unfoldable pub doomed : String → Dict R → List String
  doomed sk [] = []
  doomed sk ((k, r) ∷ d) = let rest = doomed sk d in if o.session_of r == sk then k ∷ rest else rest

  unfoldable pub invalidate_session : String → Dict R → Dict R × ℕ
  unfolding doomed remove_all
  invalidate_session sk d = (remove_all (doomed sk d) d, length (doomed sk d))

  module _ (reference_of : R → Option String) where
    abbrev pub has_reference : String → Option String → Bool
    has_reference reference none = false
    has_reference reference (some r) = r == reference

    -- The first record with the reference decides, also where its owner is another.
    unfoldable pub find_reference : QuoteOwner → String → List R → Option R
    find_reference owner reference [] = none
    find_reference owner reference (c ∷ cs) =
        if has_reference reference (reference_of c)
        then (if owner_matches o owner c then some c else none)
        else find_reference owner reference cs

    unfoldable pub get_by_reference : QuoteOwner → String → Dict R → Option R
    unfolding find_reference values
    get_by_reference owner reference d =
        if reference == "" then none else find_reference owner reference (values d)
