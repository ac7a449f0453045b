-- ===== src/Quotes/Active/Supersede.antt =====
-- `create`: the quotes it cancels are the equivalent ones, and the new quote joins the others.
use esim_opensource_mcp.Prelude.{
  ℕ, ◌+◌, ◌-◌, Bool, true, false, not, ◌&&◌, Option, none, some, List, [], ◌∷◌, ◌++◌, Dict, lookup,
  values, select, any, length, Bool-cases, inl, inr, leb, ◌==◌, if◌then◌else◌, ◌≡◌, arith, eq_iff,
  eq_refl, refl, sym, ap, ◌∙◌,
}
use esim_opensource_mcp.Errors.{Result, ok, err, plain, too_many_active_quotes}
use esim_opensource_mcp.Owner.{QuoteOwner}
use esim_opensource_mcp.Quotes.{Quote, cancelled, is_usable}
use esim_opensource_mcp.Quotes.Store.{matches, list_active, set_status}
use esim_opensource_mcp.Quotes.Service.{
  cancel_each, superseded, supersede_and_save, supersede_and_save_lem,
}
use esim_opensource_mcp.Quotes.Ageing.{Ages, Ages-cancel_each}
use esim_opensource_mcp.Quotes.Active.{IsStore, other_id, set_status-active, save-active}

module _ {T : Type 0} where
  abbrev listed : List (Quote T) → Quote T → Bool
  listed qs p = any (λ q. p.quote_id == q.quote_id) qs

  abbrev unlisted : List (Quote T) → Quote T → Bool
  unlisted qs p = not (listed qs p)

  unlisted-cons :
      (q : Quote T) (qs l : List (Quote T))
      → select (unlisted qs) (select (other_id q.quote_id) l) ≡ select (unlisted (q ∷ qs)) l
  unlisted-cons q qs [] = refl
  unlisted-cons q qs (p ∷ l) = ground (arith, unlisted-cons q qs l)

  all_unlisted : (l : List (Quote T)) → select (unlisted []) l ≡ l
  all_unlisted [] = refl
  all_unlisted (p ∷ l) = ap (λ (t : List (Quote T)). p ∷ t) (all_unlisted l)

  cancel_each-active :
      (owner : QuoteOwner) (now : ℕ) (qs : List (Quote T)) (d : Dict (Quote T))
      → IsStore d
      → IsStore (cancel_each owner qs d)
        × (list_active owner now (cancel_each owner qs d)
            ≡ select (unlisted qs) (list_active owner now d))
  unfolding cancel_each
  cancel_each-active owner now [] d s = (s, sym (all_unlisted (list_active owner now d)))
  cancel_each-active owner now (q ∷ qs) d s =
      let (s1, e1) = set_status-active owner q.quote_id now d s in
      let (s2, e2) =
        cancel_each-active owner now qs (set_status owner q.quote_id cancelled d).1 s1 in
      (s2, e2 ∙ ap (select (unlisted qs)) e1 ∙ unlisted-cons q qs (list_active owner now d))

  abbrev Distinct : List (Quote T) → Type 0
  Distinct [] = Unit
  Distinct (q ∷ qs) = (listed qs q ≡ false) × Distinct qs

  listed-select :
      (p : Quote T → Bool) (q : Quote T) (l : List (Quote T))
      → listed l q ≡ false
      → listed (select p l) q ≡ false
  listed-select p q [] h = refl
  listed-select p q (x ∷ l) h = ground (arith, listed-select p q l)

  listed-values :
      (owner : QuoteOwner) (now : ℕ) (q : Quote T) (d : Dict (Quote T))
      → IsStore d
      → lookup q.quote_id d ≡ none
      → listed (list_active owner now d) q ≡ false
  unfolding list_active values lookup
  listed-values owner now q [] s h = refl
  listed-values owner now q ((k, p) ∷ d) s h = ground (
    arith,
    listed-values owner now q d (s.0.1, s.1.1),
    eq_iff k q.quote_id,
    eq_iff q.quote_id p.quote_id,
  )

  active-Distinct :
      (owner : QuoteOwner) (now : ℕ) (d : Dict (Quote T))
      → IsStore d
      → Distinct (list_active owner now d)
  unfolding list_active values
  active-Distinct owner now [] s = tt
  active-Distinct owner now ((k, p) ∷ d) s =
      let there : lookup p.quote_id d ≡ none = rw s.0.0 s.1.0 in
      ground (
        arith,
        active-Distinct owner now d (s.0.1, s.1.1),
        listed-values owner now p d (s.0.1, s.1.1) there,
      )

  unlisted-new :
      (x : Quote T) (qs l : List (Quote T))
      → listed l x ≡ false
      → select (unlisted (x ∷ qs)) l ≡ select (unlisted qs) l
  unlisted-new x qs [] h = refl
  unlisted-new x qs (y ∷ l) h =
      ground
        (arith, unlisted-new x qs l, eq_iff x.quote_id y.quote_id, eq_iff y.quote_id x.quote_id)

  -- What is left of a list without its members of one kind are those of the other kind.
  unlisted-select :
      (p : Quote T → Bool) (l : List (Quote T))
      → Distinct l
      → select (unlisted (select p l)) l ≡ select (λ q. not (p q)) l
  unlisted-select p [] h = refl
  unlisted-select p (x ∷ l) h = ground (
    arith,
    unlisted-select p l h.1,
    unlisted-new x (select p l) l h.0,
    listed-select p x l h.0,
    eq_refl x.quote_id,
  )

  length-select :
      (p : Quote T → Bool) (l : List (Quote T))
      → length (select p l) + length (select (λ q. not (p q)) l) ≡ length l
  length-select p [] = refl
  length-select p (x ∷ l) = ground (arith, length-select p l)

  Ages-none : (o p : Option (Quote T)) → Ages o p → o ≡ none → p ≡ none
  Ages-none none none g e = refl
  Ages-none none (some p) g e = elim g [ ]
  Ages-none (some q) p g e = absurd (ground arith)

  module _ (equivalent : Quote T → Bool) (owner : QuoteOwner) (max_active moment : ℕ)
      (quote : Quote T) (d : Dict (Quote T)) (s : IsStore d) where
    left-active :
        list_active owner moment (cancel_each owner (superseded equivalent owner moment d) d)
        ≡ select (λ q. not (equivalent q)) (list_active owner moment d)
    unfolding superseded
    left-active =
        (cancel_each-active owner moment (superseded equivalent owner moment d) d s).1
        ∙ unlisted-select equivalent (list_active owner moment d) (active-Distinct owner moment d s)

    left-new :
        lookup quote.quote_id d ≡ none
        → lookup quote.quote_id (cancel_each owner (superseded equivalent owner moment d) d) ≡ none
    left-new h =
        Ages-none _ _
          (Ages-cancel_each owner quote.quote_id (superseded equivalent owner moment d) d) h

    -- the active quotes that are not equivalent to the new one
    abbrev pub others : List (Quote T)
    others = select (λ q. not (equivalent q)) (list_active owner moment d)

    pub count_left :
        length (list_active owner moment d) - length (superseded equivalent owner moment d)
        ≡ length others
    unfolding superseded
    count_left = omega (arith, length-select equivalent (list_active owner moment d))

    -- The result of `create` and the active quotes after it, by the others alone.
    abbrev pub Created : Result (Quote T) × Dict (Quote T) → Type 0
    Created (r, e) =
        let full = leb max_active (length others) in
        (r ≡ (if full then err (plain too_many_active_quotes) else ok quote))
        × (list_active owner moment e ≡ (if full then others else others ++ quote ∷ []))

    pub supersede_and_save-Created :
        matches owner quote && is_usable quote moment ≡ true
        → lookup quote.quote_id d ≡ none
        → Created (supersede_and_save equivalent owner max_active moment quote d)
    supersede_and_save-Created usable new =
        rw (supersede_and_save_lem, count_left)
          (elim (Bool-cases (leb max_active (length others))) [
            | inl full ↦ rw full (refl, left-active)
            | inr room ↦ rw room (
              refl,
              save-active owner moment quote _ (left-new new) ∙ rw (usable, left-active) refl,
            )
          ])
