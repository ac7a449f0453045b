-- ===== src/Confirm/Protocol.antt =====
-- Purchases as they interleave. Each call of `confirm_purchase` is cut where it awaits the
-- platform; between two parts any other call of the server may run. `held` has the calls in
-- flight under the quote whose lock they hold.
pub mod Invariant
pub mod Records
pub mod Locks
pub mod Begin
pub mod Finish
pub mod Safety
use esim_opensource_mcp.Prelude.{
  ℕ, String, Option, none, some, List, [], ◌∷◌, Dict, lookup, insert, remove, ◌==◌, if◌then◌else◌,
  ◌≡◌, ◌≢◌,
}
use esim_opensource_mcp.Errors.{Result}
use esim_opensource_mcp.Owner.{QuoteOwner}
use esim_opensource_mcp.Session.{UserSession, AuthAnswer}
use esim_opensource_mcp.Backend.{Answer}
use esim_opensource_mcp.Purchase.Failure.{BackendPurchaseResult}
use esim_opensource_mcp.Purchase.Service
use esim_opensource_mcp.Purchase.Service.{QuoteSettings, QuoteRequest}
use esim_opensource_mcp.World.{World, PurchaseRequest}
use esim_opensource_mcp.World.Manager.{notify_invalidated}
use esim_opensource_mcp.Confirm.{
  Call, Stage, done, refreshing, purchasing, Confirmation, begin, continue_refreshed, finish,
}

pub data Flight : Type 0 where
  awaiting_refresh : Call → UserSession → Flight
  awaiting_purchase : Call → Flight

pub record System : Type 0 where
  pub world : World
  pub held : Dict Flight

-- the lock goes with the call that is still in flight
abbrev pub hold : String → Stage → Dict Flight → Dict Flight
hold reference (done r) held = remove reference held
hold reference (refreshing c s) held = insert reference (awaiting_refresh c s) held
hold reference (purchasing c) held = insert reference (awaiting_purchase c) held

abbrev pub after_stage : String → Dict Flight → Stage × World → System
after_stage reference held (stage, w) = record { world = w; held = hold reference stage held }

abbrev pub after_finish : String → Dict Flight → Result Confirmation × World → System
after_finish reference held (r, w) = record { world = w; held = remove reference held }

abbrev pub create_in : QuoteSettings → QuoteOwner → String → QuoteRequest → ℕ → World → World
create_in settings owner quote_id request moment w = record w {
  quotes = (Service.create settings owner quote_id request moment w.quotes).1;
}

abbrev pub cancel_in : QuoteOwner → String → ℕ → World → World
cancel_in owner id moment w = record w { quotes = (Service.cancel owner id moment w.quotes).1 }

abbrev pub consume_in : QuoteOwner → String → World → World
consume_in owner id w = record w { quotes = (Service.consume owner id w.quotes).1 }

-- What other calls may do that neither reads nor writes quotes, executions or purchases.
abbrev pub SamePurchases : World → World → Type 0
SamePurchases w v = (v.quotes ≡ w.quotes) × (v.executions ≡ w.executions) × (v.sent ≡ w.sent)

pub data Step (s t : System) : Type 0 where
  -- a call takes the free lock of its reference
  start :
      (window now : ℕ) (device_id : String) (owner : QuoteOwner) (reference key : String)
      → lookup reference s.held ≡ none
      → t ≡ after_stage reference s.held (begin window now device_id owner reference key s.world)
      → Step s t
  -- the rotation of its tokens is answered
  rotated :
      (reference : String) (c : Call) (session : UserSession) (auth : Option AuthAnswer)
      → lookup reference s.held ≡ some (awaiting_refresh c session)
      → t ≡ after_stage reference s.held (continue_refreshed c session auth s.world)
      → Step s t
  -- the purchase is answered, or lost
  answer :
      (reference : String) (c : Call) (a : Answer BackendPurchaseResult)
      → lookup reference s.held ≡ some (awaiting_purchase c)
      → t ≡ after_finish reference s.held (finish c a s.world)
      → Step s t
  -- a quote is prepared under an id that is new
  prepare :
      (settings : QuoteSettings) (owner : QuoteOwner) (quote_id : String) (request : QuoteRequest)
      (moment : ℕ)
      → lookup quote_id s.world.quotes ≡ none
      → t ≡ record s { world = create_in settings owner quote_id request moment s.world }
      → Step s t
  cancel :
      (owner : QuoteOwner) (id : String) (moment : ℕ)
      → t ≡ record s { world = cancel_in owner id moment s.world }
      → Step s t
  -- a card payment consumes its quote
  consume :
      (owner : QuoteOwner) (id : String)
      → t ≡ record s { world = consume_in owner id s.world }
      → Step s t
  -- a session ends: a logout, or a rotation that failed
  end_session : (sk : String) → t ≡ record s { world = notify_invalidated sk s.world } → Step s t
  elsewhere : (v : World) → SamePurchases s.world v → t ≡ record s { world = v } → Step s t

pub data Reach (s : System) : System → Type 0 where
  here : Reach s s
  next : {t u : System} → Reach s t → Step t u → Reach s u

-- The idempotency keys under which a quote was sent, the last one first.
unfoldable pub sent_keys : String → List PurchaseRequest → List String
sent_keys id [] = []
sent_keys id (r ∷ rs) =
    let rest = sent_keys id rs in if r.quote_reference == id then r.idempotency_key ∷ rest else rest
