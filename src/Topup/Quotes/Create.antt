-- ===== src/Topup/Quotes/Create.antt =====
-- `create` of the two top-up quote services and the active quotes of the user.
use esim_opensource_mcp.Prelude.{
  ℕ, ◌<◌, String, Bool, true, not, ◌&&◌, none, [], ◌∷◌, ◌++◌, Dict, lookup, select, length, leb,
  if◌then◌else◌, ◌≡◌, arith, eq_refl,
}
use esim_opensource_mcp.Errors.{Result, ok, err, plain, too_many_active_quotes}
use esim_opensource_mcp.Owner.{QuoteOwner}
use esim_opensource_mcp.Quotes.{Quote, expiry_from, is_usable, effective_status, is_expired}
use esim_opensource_mcp.Quotes.Store
use esim_opensource_mcp.Quotes.Store.{matches}
use esim_opensource_mcp.Quotes.Active.{IsStore}
use esim_opensource_mcp.Quotes.Active.Supersede.{supersede_and_save-Created}
use esim_opensource_mcp.Quotes.Active.Cancels.{Stored, supersede_and_save-Stored}
use esim_opensource_mcp.Quotes.Service.{supersede_and_save}
use esim_opensource_mcp.Purchase.Service.{QuoteSettings}
use esim_opensource_mcp.Topup.{EsimTopupTerms, EsimTopupQuote, WalletTopupTerms, WalletTopupQuote}
use esim_opensource_mcp.Topup.Quotes.{
  new_quote, same_topup, create_esim, same_amount, create_wallet,
}

module _ {T : Type 0} (settings : QuoteSettings) (owner : QuoteOwner) (id source : String)
    (terms : T) (locale : String) (moment : ℕ) where
  usable :
      0 < settings.purchase_quote_ttl_seconds
      → matches owner (new_quote settings owner id source terms locale moment)
          && is_usable (new_quote settings owner id source terms locale moment) moment
        ≡ true
  unfolding expiry_from is_usable effective_status is_expired
  usable t = ground (arith, eq_refl owner.session_key, eq_refl owner.user_ref)

  -- What a `create` returns and leaves active, by the active quotes that are not the same.
  abbrev pub Outcome :
      (Quote T → Bool) → Dict (Quote T) → Result (Quote T) × Dict (Quote T) → Type 0
  Outcome same d (r, e) =
      let others = select (λ q. not (same q)) (Store.list_active owner moment d) in
      let full = leb settings.max_active_quotes_per_user (length others) in
      let quote = new_quote settings owner id source terms locale moment in
      (r ≡ (if full then err (plain too_many_active_quotes) else ok quote))
      × (Store.list_active owner moment e ≡ (if full then others else others ++ quote ∷ []))
      × Stored same owner moment settings.max_active_quotes_per_user quote d e

  created :
      (same : Quote T → Bool) (d : Dict (Quote T))
      → IsStore d
      → lookup id d ≡ none
      → 0 < settings.purchase_quote_ttl_seconds
      → Outcome same d (
          supersede_and_save same owner settings.max_active_quotes_per_user moment
            (new_quote settings owner id source terms locale moment)
            d)
  created same d s new t =
      let quote = new_quote settings owner id source terms locale moment in
      let (r, e) =
        supersede_and_save-Created same owner settings.max_active_quotes_per_user moment quote d s
          (usable t) new in
      (
        r,
        e,
        supersede_and_save-Stored same owner moment settings.max_active_quotes_per_user quote d s,
      )

-- Under a new id and a positive lifetime, preparing a top-up stores the user's active quotes for the
-- same SIM and plan as cancelled, and leaves every other stored quote as it is. If the other active
-- quotes reach the limit it is refused; otherwise the new quote is stored and joins them.
pub create_esim-Outcome :
    (settings : QuoteSettings) (owner : QuoteOwner) (id source : String) (terms : EsimTopupTerms)
    (locale : String) (moment : ℕ) (d : Dict EsimTopupQuote)
    → IsStore d
    → lookup id d ≡ none
    → 0 < settings.purchase_quote_ttl_seconds
    → Outcome settings owner id source terms locale moment
        (same_topup terms)
        d
        (create_esim settings owner id source terms locale moment d)
unfolding create_esim
create_esim-Outcome settings owner id source terms locale moment d s new t =
    created settings owner id source terms locale moment (same_topup terms) d s new t

-- Under a new id and a positive lifetime, preparing a wallet top-up stores the user's active quotes
-- for the same amount and currency as cancelled, and leaves every other stored quote as it is. If the
-- other active quotes reach the limit it is refused; otherwise the new quote is stored and joins them.
pub create_wallet-Outcome :
    (settings : QuoteSettings) (owner : QuoteOwner) (id source : String) (terms : WalletTopupTerms)
    (locale : String) (moment : ℕ) (d : Dict WalletTopupQuote)
    → IsStore d
    → lookup id d ≡ none
    → 0 < settings.purchase_quote_ttl_seconds
    → Outcome settings owner id source terms locale moment
        (same_amount terms)
        d
        (create_wallet settings owner id source terms locale moment d)
unfolding create_wallet
create_wallet-Outcome settings owner id source terms locale moment d s new t =
    created settings owner id source terms locale moment (same_amount terms) d s new t
