-- ===== src/Selection/Numbers.antt =====
-- The numbers of a listing and what they resolve to.
use esim_opensource_mcp.Prelude.{
  ℕ, zero, suc, ◌+◌, ◌<◌, not, Option, none, some, List, [], ◌∷◌, lookup-insert, select, or_empty,
  ◌==◌, ◌≡◌, ◌≢◌, arith, eq_refl, eq_iff, refl,
}
use esim_opensource_mcp.Errors.{err, plain, esim_selection_unavailable}
use esim_opensource_mcp.Owner.{QuoteOwner}
use esim_opensource_mcp.Selection.{
  BackendEsim, SelectedEsim, selected, number_from, entry, Selections, get, save, record_listing,
  resolve, numbered,
}

-- the eSIMs that a listing shows
abbrev pub shown : List BackendEsim → List BackendEsim
shown = select (λ e. not (or_empty e.iccid == ""))

-- the `k`-th of a list, from 0
abbrev pub nth : List BackendEsim → ℕ → Option BackendEsim
nth [] k = none
nth (e ∷ es) zero = some e
nth (e ∷ es) (suc k) = nth es k

abbrev pub entry_for : ℕ → Option BackendEsim → Option SelectedEsim
entry_for number none = none
entry_for number (some e) = some (selected number e)

entry-before : (esims : List BackendEsim) (n m : ℕ) → m < n → entry (number_from n esims) m ≡ none
unfolding entry number_from
entry-before [] n m h = refl
entry-before (e ∷ es) n m h = ground (arith, entry-before es n m, entry-before es (n + 1) m)

entry-number_from :
    (esims : List BackendEsim) (n k : ℕ)
    → entry (number_from n esims) (n + k) ≡ entry_for (n + k) (nth (shown esims) k)
unfolding entry number_from
entry-number_from [] n k = refl
entry-number_from (e ∷ es) n zero = ground (arith, entry-number_from es n 0)
entry-number_from (e ∷ es) n (suc k) =
    ground (arith, entry-number_from es n (suc k), entry-number_from es (n + 1) k)

-- After a listing was recorded, the number `k + 1` resolves for its owner to the `k`-th of the eSIMs
-- that have an ICCID, and to the error of a number out of range where there are fewer.
pub resolve-record_listing :
    (owner : QuoteOwner) (esims : List BackendEsim) (d : Selections) (k : ℕ)
    → resolve owner (1 + k) (record_listing owner esims d).1
      ≡ numbered (entry_for (1 + k) (nth (shown esims) k))
unfolding resolve get record_listing save
resolve-record_listing owner esims d k =
    rw
      (
        lookup-insert,
        eq_refl owner.session_key,
        eq_refl owner.user_ref,
        entry-number_from esims 1 k,
      )
      refl

-- After a listing was recorded, another user under the same client resolves no number of it.
pub resolve-stranger :
    (owner stranger : QuoteOwner) (esims : List BackendEsim) (d : Selections) (number : ℕ)
    → stranger.session_key ≡ owner.session_key
    → stranger.user_ref ≢ owner.user_ref
    → resolve stranger number (record_listing owner esims d).1
      ≡ err (plain esim_selection_unavailable)
unfolding resolve get record_listing save
resolve-stranger owner stranger esims d number s u =
    rw (lookup-insert, s, eq_refl owner.session_key)
      (ground (arith, eq_iff owner.user_ref stranger.user_ref))
