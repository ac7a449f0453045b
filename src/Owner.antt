-- ===== src/Owner.antt =====
-- src/esim_mcp/purchase/store.py `QuoteOwner`: who a stored record belongs to. `Owned` is what
-- the stores read of a record: its identifier and the two halves of its owner.
use esim_opensource_mcp.Prelude.{String, Bool, ◌&&◌, ◌==◌, ◌≡◌, true, eq_iff, arith}

pub record QuoteOwner : Type 0 where
  pub session_key : String
  pub user_ref : String

pub record Owned (R : Type 0) : Type 0 where
  pub record_id : R → String
  pub session_of : R → String
  pub user_of : R → String

module _ {R : Type 0} (o : Owned R) where
  -- `hmac.compare_digest` on both halves
  abbrev pub owner_matches : QuoteOwner → R → Bool
  owner_matches owner r = owner.session_key == o.session_of r && owner.user_ref == o.user_of r

  pub owner_of_matches :
      (owner : QuoteOwner) (r : R)
      → owner_matches owner r ≡ true
      → (owner.session_key ≡ o.session_of r) × (owner.user_ref ≡ o.user_of r)
  owner_of_matches owner r h =
      ground (arith, eq_iff owner.session_key (o.session_of r), eq_iff owner.user_ref (o.user_of r))
