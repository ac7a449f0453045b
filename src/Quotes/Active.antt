-- ===== src/Quotes/Active.antt =====
-- The active quotes of an owner, as cancellations and a new quote change them.
pub mod Supersede
pub mod Cancels
use esim_opensource_mcp.Prelude.{
  ℕ, suc, ◌+◌, ◌≤◌, String, Bool, true, false, not, ◌&&◌, ◌||◌, Option, none, some, List, [], ◌∷◌,
  ◌++◌, Dict, IsUnique, lookup, insert, values, select, any, All, length, Bool-cases, ◌⊎◌, inl, inr,
  length-append, ◌==◌, if◌then◌else◌, ◌≡◌, ◌≢◌, arith, eq_iff, eq_refl, refl, sym, ap, ◌∙◌,
  insert-IsUnique, lookup-insert,
}
use esim_opensource_mcp.Owner.{QuoteOwner}
use esim_opensource_mcp.Quotes.{Quote, cancelled, is_active, is_usable, effective_status}
use esim_opensource_mcp.Quotes.Store.{matches, save, list_active, set_status, restatus}

module _ {T : Type 0} where
  -- Every quote stands under its own id.
  abbrev pub Keyed : Dict (Quote T) → Type 0
  Keyed [] = Unit
  Keyed ((k, q) ∷ d) = (q.quote_id ≡ k) × Keyed d

  abbrev pub IsStore : Dict (Quote T) → Type 0
  IsStore d = Keyed d × IsUnique d

  abbrev pub other_id : String → Quote T → Bool
  other_id id q = not (q.quote_id == id)

  abbrev mine : QuoteOwner → Option (Quote T) → Bool
  mine owner none = false
  mine owner (some q) = matches owner q

  -- A quote that is missing or another's is not among the active ones.
  absent :
      (owner : QuoteOwner) (id : String) (now : ℕ) (d : Dict (Quote T))
      → IsStore d
      → mine owner (lookup id d) ≡ false
      → select (other_id id) (list_active owner now d) ≡ list_active owner now d
  unfolding list_active values lookup
  absent owner id now [] s h = refl
  absent owner id now ((k, q) ∷ d) s h =
      ground (arith, absent owner id now d (s.0.1, s.1.1), eq_iff k id, eq_iff q.quote_id id)

  -- Cancelling a stored quote takes it from the active ones.
  cancelled_stored :
      (owner : QuoteOwner) (id : String) (now : ℕ) (d : Dict (Quote T)) (q : Quote T)
      → IsStore d
      → lookup id d ≡ some q
      → list_active owner now (insert id (record q { status = cancelled }) d)
        ≡ select (other_id id) (list_active owner now d)
  unfolding list_active values lookup insert is_usable effective_status
  cancelled_stored owner id now [] q s h = ground arith
  cancelled_stored owner id now ((k, p) ∷ d) q s h = ground (
    arith,
    cancelled_stored owner id now d q (s.0.1, s.1.1),
    absent owner id now d (s.0.1, s.1.1),
    eq_iff k id,
    eq_iff p.quote_id id,
  )

  pub Keyed-insert :
      (id : String) (q : Quote T) (d : Dict (Quote T))
      → q.quote_id ≡ id
      → Keyed d
      → Keyed (insert id q d)
  unfolding insert
  Keyed-insert id q [] e k = (e, tt)
  Keyed-insert id q ((j, p) ∷ d) e k = ground (arith, eq_iff j id, Keyed-insert id q d e k.1)

  pub Keyed-lookup :
      (id : String) (d : Dict (Quote T)) (q : Quote T)
      → Keyed d
      → lookup id d ≡ some q
      → q.quote_id ≡ id
  unfolding lookup
  Keyed-lookup id [] q k h = ground arith
  Keyed-lookup id ((j, p) ∷ d) q k h = ground (arith, eq_iff j id, Keyed-lookup id d q k.1)

  restatus-active :
      (owner : QuoteOwner) (id : String) (now : ℕ) (d : Dict (Quote T)) (o : Option (Quote T))
      → IsStore d
      → lookup id d ≡ o
      → IsStore (restatus owner id cancelled d o).1
        × (list_active owner now (restatus owner id cancelled d o).1
            ≡ select (other_id id) (list_active owner now d))
  restatus-active owner id now d none s h = (s, sym (absent owner id now d s (rw h refl)))
  restatus-active owner id now d (some q) s h = elim (Bool-cases (matches owner q)) [
    | inl own ↦ rw own (
      (
        Keyed-insert id _ d (Keyed-lookup id d q s.0 h) s.0,
        insert-IsUnique id (record q { status = cancelled }) d s.1,
      ),
      cancelled_stored owner id now d q s h,
    )
    | inr foreign ↦ rw foreign (s, sym (absent owner id now d s (rw h foreign)))
  ]

  -- A cancellation by its owner takes the quote from the active ones, and leaves the others.
  pub set_status-active :
      (owner : QuoteOwner) (id : String) (now : ℕ) (d : Dict (Quote T))
      → IsStore d
      → IsStore (set_status owner id cancelled d).1
        × (list_active owner now (set_status owner id cancelled d).1
            ≡ select (other_id id) (list_active owner now d))
  unfolding set_status
  set_status-active owner id now d s = restatus-active owner id now d (lookup id d) s refl

  -- A quote saved under a new id comes last.
  pub save-active :
      (owner : QuoteOwner) (now : ℕ) (q : Quote T) (d : Dict (Quote T))
      → lookup q.quote_id d ≡ none
      → list_active owner now (save q d)
        ≡ list_active owner now d ++ (if matches owner q && is_usable q now then q ∷ [] else [])
  unfolding list_active values lookup save insert
  save-active owner now q [] h = ground arith
  save-active owner now q ((k, p) ∷ d) h = ground (arith, save-active owner now q d)
