-- ===== src/Records/References.antt =====
-- A record is found again under its payment reference after it was stored once more.
use esim_opensource_mcp.Prelude.{
  String, true, false, ◌==◌, Option, some, [], ◌∷◌, Dict, insert, values, ◌≡◌, arith, refl, eq_iff,
  Bool-cases, inl, inr,
}
use esim_opensource_mcp.Owner.{QuoteOwner, Owned, owner_matches}
use esim_opensource_mcp.Records.{save, has_reference, find_reference, get_by_reference}

module _ {R : Type 0} (o : Owned R) (reference_of : R → Option String) where
  -- Every record stands under the quote that it is of, as `save` leaves it.
  abbrev pub IsKeyed : Dict R → Type 0
  IsKeyed [] = Unit
  IsKeyed ((k, c) ∷ d) = (k ≡ o.record_id c) × IsKeyed d

  -- The record has the reference and is the owner's.
  abbrev pub IsFound : QuoteOwner → String → R → Type 0
  IsFound owner reference c =
      (has_reference o reference_of reference (reference_of c) ≡ true)
      × (owner_matches o owner c ≡ true)

  find_reference-saved :
      (owner : QuoteOwner) (reference : String) (c f : R) (d : Dict R)
      → IsKeyed d
      → o.record_id f ≡ o.record_id c
      → IsFound owner reference f
      → find_reference o reference_of owner reference (values d) ≡ some c
      → find_reference o reference_of owner reference (values (insert (o.record_id f) f d)) ≡ some f
  unfolding find_reference values insert
  find_reference-saved owner reference c f [] keyed same is h = absurd (ground (arith, h))
  find_reference-saved owner reference c f ((k, e) ∷ d) keyed same is h =
      elim (Bool-cases (has_reference o reference_of reference (reference_of e))) [
        | inl hit ↦ ground (arith, h, hit, is.0, is.1, keyed.0, same, eq_iff k (o.record_id f))
        | inr miss ↦
            let rest : find_reference o reference_of owner reference (values d) ≡ some c =
              ground (arith, h, miss) in
            let later = find_reference-saved owner reference c f d keyed.1 same is rest in
            ground (arith, miss, is.0, is.1, later)
      ]

  get_by_reference-some :
      (owner : QuoteOwner) (reference : String) (d : Dict R) (c : R)
      → get_by_reference o reference_of owner reference d ≡ some c
      → (reference == "" ≡ false)
        × (find_reference o reference_of owner reference (values d) ≡ some c)
  unfolding get_by_reference
  get_by_reference-some owner reference d c h = ground (arith, h)

  pub get_by_reference-save :
      (owner : QuoteOwner) (reference : String) (d : Dict R) (c f : R)
      → IsKeyed d
      → get_by_reference o reference_of owner reference d ≡ some c
      → o.record_id f ≡ o.record_id c
      → IsFound owner reference f
      → get_by_reference o reference_of owner reference (save o f d) ≡ some f
  unfolding get_by_reference save
  get_by_reference-save owner reference d c f keyed h same is =
      let (stated, there) = get_by_reference-some owner reference d c h in
      rw (stated, find_reference-saved owner reference c f d keyed same is there) refl
