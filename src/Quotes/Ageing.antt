-- ===== src/Quotes/Ageing.antt =====
-- A stored quote only grows older: it keeps its id and its owner, and once it is no longer active
-- it never is again. Every operation of the quote stores and services but the saving of a new
-- quote has this effect.
use esim_opensource_mcp.Prelude.{
  ℕ, String, true, false, Option, none, some, List, [], ◌∷◌, Dict, lookup, ◌≡◌, arith, refl, inl,
  inr, Bool-cases,
}
use mathlib.Core.Option
use esim_opensource_mcp.Errors.{ErrorKind, Result, ok, err}
use esim_opensource_mcp.Owner.{QuoteOwner}
use esim_opensource_mcp.Quotes.{
  Quote, QuoteStatus, cancelled, consumed, is_active, effective_status,
}
use esim_opensource_mcp.Quotes.Store.{set_status, cancel_if}
use esim_opensource_mcp.Quotes.Store.Laws.{restated, lookup-set_status}
use esim_opensource_mcp.Quotes.Service.{cancel_each, or_missing, cancel_read, consume_read}

module _ {T : Type 0} where
  abbrev pub IsLive : Quote T → Type 0
  IsLive q = is_active q.status ≡ true

  abbrev pub Ages : Option (Quote T) → Option (Quote T) → Type 0
  Ages none none = Unit
  Ages none (some p) = ⊥
  Ages (some q) none = ⊥
  Ages (some q) (some p) =
      (p.quote_id ≡ q.quote_id)
      × (p.owner_session_key ≡ q.owner_session_key)
      × (p.owner_user_ref ≡ q.owner_user_ref)
      × (IsLive p → IsLive q)

  pub Ages-refl : (o : Option (Quote T)) → Ages o o
  Ages-refl none = tt
  Ages-refl (some q) = (refl, refl, refl, λ live. live)

  pub Ages-trans : (o p r : Option (Quote T)) → Ages o p → Ages p r → Ages o r
  Ages-trans none none none g h = tt
  Ages-trans none none (some r) g h = elim h [ ]
  Ages-trans none (some p) r g h = elim g [ ]
  Ages-trans (some q) none r g h = elim g [ ]
  Ages-trans (some q) (some p) none g h = elim h [ ]
  Ages-trans (some q) (some p) (some r) g h =
      (ground arith, ground arith, ground arith, λ live. g.3 (h.3 live))

  Ages-restated :
      (owner : QuoteOwner) (s : QuoteStatus) (o : Option (Quote T))
      → is_active s ≡ false
      → Ages o (Option.map (restated owner s) o)
  Ages-restated owner s none h = tt
  Ages-restated owner s (some q) h = ground arith

  pub Ages-set_status :
      (owner : QuoteOwner) (id j : String) (s : QuoteStatus) (d : Dict (Quote T))
      → is_active s ≡ false
      → Ages (lookup j d) (lookup j (set_status owner id s d).1)
  Ages-set_status owner id j s d h =
      rw lookup-set_status
        (ground (arith, Ages-restated owner s (lookup j d) h, Ages-refl (lookup j d)))

  pub Ages-cancel_if : (sk : String) (o : Option (Quote T)) → Ages o (Option.map (cancel_if sk) o)
  Ages-cancel_if sk none = tt
  Ages-cancel_if sk (some q) = ground arith

  pub Ages-cancel_each :
      (owner : QuoteOwner) (j : String) (qs : List (Quote T)) (d : Dict (Quote T))
      → Ages (lookup j d) (lookup j (cancel_each owner qs d))
  unfolding cancel_each
  Ages-cancel_each owner j [] d = Ages-refl (lookup j d)
  Ages-cancel_each owner j (q ∷ qs) d =
      let e = (set_status owner q.quote_id cancelled d).1 in
      Ages-trans (lookup j d) (lookup j e) (lookup j (cancel_each owner qs e))
        (Ages-set_status owner q.quote_id j cancelled d refl) (Ages-cancel_each owner j qs e)

  -- what `or_missing` hands on is the store that it was given
  Ages-or_missing :
      (missing : ErrorKind) (j : String) (o : Option (Quote T))
      (p : Option (Quote T) × Dict (Quote T))
      → Ages o (lookup j p.1)
      → Ages o (lookup j (or_missing missing p).1)
  Ages-or_missing missing j o (none, d) g = g
  Ages-or_missing missing j o (some q, d) g = g

  pub Ages-cancel_read :
      (missing : ErrorKind) (owner : QuoteOwner) (id j : String) (moment : ℕ) (r : Result (Quote T))
      (d : Dict (Quote T))
      → Ages (lookup j d) (lookup j (cancel_read missing owner id moment r d).1)
  unfolding cancel_read
  Ages-cancel_read missing owner id j moment (err e) d = Ages-refl (lookup j d)
  Ages-cancel_read missing owner id j moment (ok q) d =
      elim (Bool-cases (is_active (effective_status q moment))) [
        | inl live ↦ rw live (
            Ages-or_missing missing j (lookup j d) (set_status owner id cancelled d)
              (Ages-set_status owner id j cancelled d refl))
        | inr over ↦ rw over (Ages-refl (lookup j d))
      ]

  pub Ages-consume_read :
      (missing : ErrorKind) (owner : QuoteOwner) (id j : String) (r : Result (Quote T))
      (d : Dict (Quote T))
      → Ages (lookup j d) (lookup j (consume_read missing owner id r d).1)
  unfolding consume_read
  Ages-consume_read missing owner id j (err e) d = Ages-refl (lookup j d)
  Ages-consume_read missing owner id j (ok q) d =
      Ages-or_missing missing j (lookup j d) (set_status owner id consumed d)
        (Ages-set_status owner id j consumed d refl)
