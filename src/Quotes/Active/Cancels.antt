-- ===== src/Quotes/Active/Cancels.antt =====
-- What stands under every id after `create`: the equivalent active quotes are stored as cancelled.
use mathlib.Core.Option
use mathlib.Core.Path.{fun_ext}
use esim_opensource_mcp.Prelude.{
  ℕ, String, Bool, false, not, ◌&&◌, ◌||◌, subst, none, some, List, [], ◌∷◌, Dict, lookup, values,
  select, any, length, leb, ◌==◌, if◌then◌else◌, ◌≡◌, arith, eq_iff, refl, ◌∙◌, Bool-cases, inl,
  inr,
}
use esim_opensource_mcp.Owner.{QuoteOwner}
use esim_opensource_mcp.Quotes.{Quote, cancelled, is_usable}
use esim_opensource_mcp.Quotes.Store.{matches, list_active, set_status}
use esim_opensource_mcp.Quotes.Store.Refines.{StoredQuotes, view}
use esim_opensource_mcp.Quotes.Store.Laws.{restated, lookup-set_status, lookup-save}
use esim_opensource_mcp.Quotes.Service.{
  cancel_each, superseded, supersede_and_save, supersede_and_save_lem,
}
use esim_opensource_mcp.Quotes.Active.{IsStore}
use esim_opensource_mcp.Quotes.Active.Supersede.{count_left}

module _ {T : Type 0} where
  abbrev names : String → List (Quote T) → Bool
  names j qs = any (λ q. q.quote_id == j) qs

  restated_twice :
      (owner : QuoteOwner) (o : Option.Option (Quote T))
      → Option.map (restated owner cancelled) (Option.map (restated owner cancelled) o)
        ≡ Option.map (restated owner cancelled) o
  restated_twice owner none = refl
  restated_twice owner (some q) = ground arith

  lookup-cancel_each :
      (owner : QuoteOwner) (j : String) (qs : List (Quote T)) (d : Dict (Quote T))
      → lookup j (cancel_each owner qs d)
        ≡ (if names j qs then Option.map (restated owner cancelled) (lookup j d) else lookup j d)
  unfolding cancel_each
  lookup-cancel_each owner j [] d = refl
  lookup-cancel_each owner j (q ∷ qs) d = ground (
    arith,
    lookup-cancel_each owner j qs (set_status owner q.quote_id cancelled d).1,
    lookup-set_status owner q.quote_id j cancelled d,
    restated_twice owner (lookup j d),
  )

  module _ (equivalent : Quote T → Bool) (owner : QuoteOwner) (moment : ℕ) where
    -- a stored quote that a new one replaces
    abbrev pub is_superseded : Quote T → Bool
    is_superseded q = (matches owner q && is_usable q moment) && equivalent q

    abbrev pub cancelled_if : Quote T → Quote T
    cancelled_if q = if is_superseded q then record q { status = cancelled } else q

    abbrev holds : Option.Option (Quote T) → Bool
    holds none = false
    holds (some q) = is_superseded q

    names_cons :
        (j : String) (q : Quote T) (qs : List (Quote T))
        → names j (select equivalent (select (λ p. matches owner p && is_usable p moment) (q ∷ qs)))
          ≡ ((is_superseded q && q.quote_id == j)
              || names j
                  (select equivalent (select (λ p. matches owner p && is_usable p moment) qs)))
    names_cons j q qs = elim (Bool-cases (matches owner q && is_usable q moment)) [
      | inr other ↦ rw other refl
      | inl active ↦ elim (Bool-cases (equivalent q)) [
        | inl same ↦ rw (active, same) refl
        | inr another ↦ rw (active, another) refl
      ]
    ]

    names-superseded :
        (j : String) (d : Dict (Quote T))
        → IsStore d
        → names j (superseded equivalent owner moment d) ≡ holds (lookup j d)
    unfolding superseded list_active values lookup
    names-superseded j [] s = refl
    names-superseded j ((k, q) ∷ d) s =
        let rest = names-superseded j d (s.0.1, s.1.1) in
        names_cons j q (values d) ∙ elim (Bool-cases (k == j)) [
          | inl here ↦
              let gone : lookup j d ≡ none =
                subst (λ i. lookup i d ≡ none) ((eq_iff k j).0 here) s.1.0 in
              rw (s.0.0, here, rest, gone) (ground arith)
          | inr there ↦ rw (s.0.0, there, rest) (ground arith)
        ]

    cancelled_if-map :
        (o : Option.Option (Quote T))
        → (if holds o then Option.map (restated owner cancelled) o else o)
          ≡ Option.map cancelled_if o
    cancelled_if-map none = refl
    cancelled_if-map (some q) = ground arith

    lookup-cancelled :
        (j : String) (d : Dict (Quote T))
        → IsStore d
        → lookup j (cancel_each owner (superseded equivalent owner moment d) d)
          ≡ Option.map cancelled_if (lookup j d)
    lookup-cancelled j d s =
        lookup-cancel_each owner j (superseded equivalent owner moment d) d
        ∙ rw (names-superseded j d s) (cancelled_if-map (lookup j d))

    module _ (max_active : ℕ) (quote : Quote T) (d : Dict (Quote T)) where
      abbrev pub left_over : List (Quote T)
      left_over = select (λ q. not (equivalent q)) (list_active owner moment d)

      -- What is found under every id: the new quote where there is room for it, and else what was
      -- stored, cancelled if the new one replaces it.
      abbrev pub Stored : Dict (Quote T) → Type 0
      Stored e =
          let full = leb max_active (length left_over) in
          let expected : StoredQuotes T = λ j.
            if not full && quote.quote_id == j
            then some quote
            else Option.map cancelled_if (lookup j d) in
          view e ≡ expected

      pub supersede_and_save-Stored :
          IsStore d → Stored (supersede_and_save equivalent owner max_active moment quote d).1
      supersede_and_save-Stored s =
          rw (supersede_and_save_lem, count_left)
            (elim (Bool-cases (leb max_active (length left_over))) [
              | inl full ↦ rw full (fun_ext λ j. lookup-cancelled j d s)
              | inr room ↦
                  rw room (fun_ext λ j. lookup-save quote j _ ∙ rw (lookup-cancelled j d s) refl)
            ])
