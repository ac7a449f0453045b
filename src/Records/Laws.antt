-- ===== src/Records/Laws.antt =====
-- What the record stores return after each operation.
use esim_opensource_mcp.Prelude.{
  String, Option, none, some, [], ◌∷◌, Dict, lookup, lookup-insert, lookup-remove_all, IsUnique,
  mem_key, insert-IsUnique, remove_all-IsUnique, Bool, ◌==◌, if◌then◌else◌, ◌≡◌, ◌≢◌, refl, arith,
  eq_iff, false,
}
use esim_opensource_mcp.Owner.{QuoteOwner, Owned}
use esim_opensource_mcp.Records.{get, save, doomed, invalidate_session}

module _ {R : Type 0} (o : Owned R) where
  pub lookup-save :
      (r : R) (j : String) (d : Dict R)
      → lookup j (save o r d) ≡ (if o.record_id r == j then some r else lookup j d)
  unfolding save
  lookup-save r j d = lookup-insert (o.record_id r) j r d

  -- What `get` returns is the stored record, and its owner is the caller.
  pub get-eq-some :
      (owner : QuoteOwner) (id : String) (d : Dict R) (r : R)
      → get o owner id d ≡ some r
      → (lookup id d ≡ some r)
        × (owner.session_key ≡ o.session_of r)
        × (owner.user_ref ≡ o.user_of r)
        × (id ≢ "")
  unfolding get
  get-eq-some owner id d r h = ground (
    arith,
    eq_iff id "",
    eq_iff owner.session_key (o.session_of r),
    eq_iff owner.user_ref (o.user_of r),
  )

  -- A stored record is returned to its owner.
  pub get_of_lookup :
      (owner : QuoteOwner) (id : String) (d : Dict R) (r : R)
      → lookup id d ≡ some r
      → owner.session_key ≡ o.session_of r
      → owner.user_ref ≡ o.user_of r
      → id ≢ ""
      → get o owner id d ≡ some r
  unfolding get
  get_of_lookup owner id d r h p q n = ground (
    arith,
    eq_iff id "",
    eq_iff owner.session_key (o.session_of r),
    eq_iff owner.user_ref (o.user_of r),
  )

  -- what `invalidate_session` leaves of one record
  abbrev pub dropped : String → Option R → Option R
  dropped sk none = none
  dropped sk (some r) = if o.session_of r == sk then none else some r

  abbrev held_by : String → Option R → Bool
  held_by sk none = false
  held_by sk (some r) = o.session_of r == sk

  mem_key-doomed :
      (sk j : String) (d : Dict R)
      → IsUnique d
      → mem_key j (doomed o sk d) ≡ held_by sk (lookup j d)
  unfolding doomed lookup
  mem_key-doomed sk j [] u = refl
  mem_key-doomed sk j ((k, r) ∷ d) u = ground (arith, eq_iff k j, mem_key-doomed sk j d u.1)

  -- Dropping a session drops exactly the records of its key.
  pub lookup-invalidate :
      (sk j : String) (d : Dict R)
      → IsUnique d
      → lookup j (invalidate_session o sk d).0 ≡ dropped sk (lookup j d)
  unfolding invalidate_session
  lookup-invalidate sk j d u =
      ground (arith, lookup-remove_all (doomed o sk d) j d, mem_key-doomed sk j d u)

  pub save-IsUnique : (r : R) (d : Dict R) → IsUnique d → IsUnique (save o r d)
  unfolding save
  save-IsUnique r d u = insert-IsUnique (o.record_id r) r d u

  pub invalidate-IsUnique :
      (sk : String) (d : Dict R) → IsUnique d → IsUnique (invalidate_session o sk d).0
  unfolding invalidate_session
  invalidate-IsUnique sk d u = remove_all-IsUnique (doomed o sk d) d u

  pub get-none :
      (owner : QuoteOwner) (id : String) (d : Dict R) → lookup id d ≡ none → get o owner id d ≡ none
  unfolding get
  get-none owner id d h = ground arith
