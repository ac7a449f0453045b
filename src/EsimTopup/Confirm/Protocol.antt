-- ===== src/EsimTopup/Confirm/Protocol.antt =====
-- Top-ups as they interleave. Each call of `confirm_esim_topup` is cut where it awaits the
-- platform; between two parts any other call of the server may run. `held` has the calls in
-- flight under the quote whose lock they hold.
pub mod Invariant
pub mod Locks
pub mod Records
pub mod Parts
pub mod Ends
pub mod Safety
use esim_opensource_mcp.Prelude.{
  ℕ, ◌+◌, String, Option, none, some, List, [], ◌∷◌, Dict, lookup, insert, remove, ◌==◌,
  if◌then◌else◌, ◌≡◌,
}
use esim_opensource_mcp.Errors.{Result}
use esim_opensource_mcp.Owner.{QuoteOwner}
use esim_opensource_mcp.Selection.{BackendEsim}
use esim_opensource_mcp.Session.{UserSession, AuthAnswer}
use esim_opensource_mcp.Backend.{Answer}
use esim_opensource_mcp.Purchase.Service.{QuoteSettings}
use esim_opensource_mcp.Topup.{EsimTopupTerms}
use esim_opensource_mcp.Topup.Quotes.{create_esim, cancel_esim}
use esim_opensource_mcp.World.{World, TopupRequest}
use esim_opensource_mcp.World.Manager.{notify_invalidated}
use esim_opensource_mcp.EsimTopup.Failure.{BackendLegacyTopupResult}
use esim_opensource_mcp.EsimTopup.Confirm.{
  Call, Stage, done, revalidating, refreshing, sending, Confirmed, TopupConfirmation, begin,
  after_reads, continue_refreshed,
}
use esim_opensource_mcp.EsimTopup.Confirm.Finish.{finish}

pub data Flight : Type 0 where
  awaiting_reads : Call → Flight
  awaiting_refresh : Call → UserSession → Flight
  awaiting_topup : Call → Flight

pub record System : Type 0 where
  pub world : World
  pub held : Dict Flight

-- the lock goes with the call that is still in flight
abbrev pub hold : String → Stage → Dict Flight → Dict Flight
hold reference (done r) held = remove reference held
hold reference (revalidating c) held = insert reference (awaiting_reads c) held
hold reference (refreshing c s) held = insert reference (awaiting_refresh c s) held
hold reference (sending c) held = insert reference (awaiting_topup c) held

abbrev pub after_stage : String → Dict Flight → Stage × World → System
after_stage reference held (stage, w) = record { world = w; held = hold reference stage held }

abbrev pub after_finish : String → Dict Flight → Result TopupConfirmation × World → System
after_finish reference held (r, w) = record { world = w; held = remove reference held }

abbrev pub create_in :
    QuoteSettings → QuoteOwner → String → String → EsimTopupTerms → String → ℕ → World → World
create_in settings owner quote_id source terms locale moment w = record w {
  esim_quotes = (create_esim settings owner quote_id source terms locale moment w.esim_quotes).1;
}

abbrev pub cancel_in : QuoteOwner → String → ℕ → World → World
cancel_in owner id moment w = record w {
  esim_quotes = (cancel_esim owner id moment w.esim_quotes).1;
}

-- What other calls may do that neither reads nor writes the quotes, executions and requests of
-- eSIM top-ups.
abbrev pub SameTopups : World → World → Type 0
SameTopups w v =
    (v.esim_quotes ≡ w.esim_quotes)
    × (v.esim_executions ≡ w.esim_executions)
    × (v.topups_sent ≡ w.topups_sent)

pub data Step (s t : System) : Type 0 where
  -- a call takes the free lock of its reference
  start :
      (given : Confirmed) (owner : QuoteOwner) (reference : String)
      → lookup reference s.held ≡ none
      → t ≡ after_stage reference s.held (begin given owner reference s.world)
      → Step s t
  -- the reads of its revalidation are over; what they do to sessions are steps of their own
  revalidated :
      (reference : String) (c : Call) (window now : ℕ) (target : Result BackendEsim)
      → lookup reference s.held ≡ some (awaiting_reads c)
      → t ≡ after_stage reference s.held (after_reads window now c target s.world)
      → Step s t
  -- the rotation of its tokens is answered
  rotated :
      (reference : String) (c : Call) (session : UserSession) (auth : Option AuthAnswer)
      → lookup reference s.held ≡ some (awaiting_refresh c session)
      → t ≡ after_stage reference s.held (continue_refreshed c session auth s.world)
      → Step s t
  -- the top-up is answered, or lost
  answer :
      (reference : String) (c : Call) (a : Answer BackendLegacyTopupResult)
      → lookup reference s.held ≡ some (awaiting_topup c)
      → t ≡ after_finish reference s.held (finish c a s.world)
      → Step s t
  -- a top-up is prepared under an id that is new
  prepare :
      (settings : QuoteSettings) (owner : QuoteOwner) (quote_id source : String)
      (terms : EsimTopupTerms) (locale : String) (moment : ℕ)
      → lookup quote_id s.world.esim_quotes ≡ none
      → t
        ≡ record s { world = create_in settings owner quote_id source terms locale moment s.world }
      → Step s t
  cancel :
      (owner : QuoteOwner) (id : String) (moment : ℕ)
      → t ≡ record s { world = cancel_in owner id moment s.world }
      → Step s t
  -- a session ends: a logout, a rotation that failed, or a read that was refused
  end_session : (sk : String) → t ≡ record s { world = notify_invalidated sk s.world } → Step s t
  elsewhere : (v : World) → SameTopups s.world v → t ≡ record s { world = v } → Step s t

pub data Reach (s : System) : System → Type 0 where
  here : Reach s s
  next : {t u : System} → Reach s t → Step t u → Reach s u

-- How often a quote was sent.
unfoldable pub times_sent : String → List TopupRequest → ℕ
times_sent id [] = 0
times_sent id (r ∷ rs) =
    let rest = times_sent id rs in if r.quote_reference == id then rest + 1 else rest
