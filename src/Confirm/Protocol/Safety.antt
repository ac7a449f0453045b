-- ===== src/Confirm/Protocol/Safety.antt =====
-- Every step keeps the invariant, so what it says of the purchases that were sent holds on every
-- run.
use esim_opensource_mcp.Prelude.{
  String, [], Dict, lookup, remove, lookup-insert, lookup-remove, ◌≡◌, arith, refl, ap,
}
use esim_opensource_mcp.World.{World}
use esim_opensource_mcp.Confirm.{Stage, done, refreshing, purchasing, finish}
use esim_opensource_mcp.Confirm.Protocol.{
  System, Flight, awaiting_refresh, awaiting_purchase, Step, start, rotated, answer, prepare,
  cancel, consume, end_session, elsewhere, Reach, here, next, after_stage, hold, sent_keys,
}
use esim_opensource_mcp.Confirm.Protocol.Invariant.{
  Inv, free, hold_of, locks_of, Settled, At-Settled,
}
use esim_opensource_mcp.Confirm.Protocol.Records.{
  notify_invalidated-Good, cancel_in-Good, consume_in-Good, elsewhere-Good, create_in-Good,
}
use esim_opensource_mcp.Confirm.Protocol.Locks.{over, over-Good}
use esim_opensource_mcp.Confirm.Protocol.Begin.{begin-Good, Reached, lock_of}
use esim_opensource_mcp.Confirm.Protocol.Finish.{continue_refreshed-Good, finish-Good}

-- The locks after a part of a call are those before it, but for its own.
locks_of-hold :
    (k : String) (stage : Stage) (held : Dict Flight) (id : String)
    → locks_of (hold k stage held) id ≡ over k (lock_of stage) (locks_of held) id
locks_of-hold k (done r) held id = ground (arith, lookup-remove k id held)
locks_of-hold k (refreshing c s) held id =
    ground (arith, lookup-insert k id (awaiting_refresh c s) held)
locks_of-hold k (purchasing c) held id =
    ground (arith, lookup-insert k id (awaiting_purchase c) held)

after_stage-Inv :
    (k : String) (held : Dict Flight) (r : Stage × World)
    → Reached k (locks_of held) r
    → Inv (after_stage k held r)
after_stage-Inv k held (stage, w) g =
    over-Good w (over k (lock_of stage) (locks_of held)) (locks_of (hold k stage held))
      (locks_of-hold k stage held) g

released :
    (k : String) (held : Dict Flight) (id : String)
    → locks_of (remove k held) id ≡ over k free (locks_of held) id
released k held id = ground (arith, lookup-remove k id held)

module _ (s : System) (g : Inv s) where
  -- The invariant in the state that a step leaves.
  after-Inv : (t : System) → Step s t → Inv t
  after-Inv t (start window now device_id owner reference key l e) = rw e (
      after_stage-Inv reference s.held _ (
        begin-Good s.world (locks_of s.held) reference window now device_id owner key (ap hold_of l)
          g))
  after-Inv t (rotated reference c session auth l e) = rw e (
      after_stage-Inv reference s.held _ (
        continue_refreshed-Good s.world (locks_of s.held) reference c session auth (ap hold_of l)
          g))
  after-Inv t (answer reference c a l e) = rw e (
      over-Good (finish c a s.world).1 (over reference free (locks_of s.held)) _
        (released reference s.held)
        (finish-Good s.world (locks_of s.held) reference c a (ap hold_of l) g))
  after-Inv t (prepare settings owner id request moment new e) =
      rw e (create_in-Good s.world (locks_of s.held) g settings owner id request moment new)
  after-Inv t (cancel owner id moment e) =
      rw e (cancel_in-Good s.world (locks_of s.held) g owner id moment)
  after-Inv t (consume owner id e) = rw e (consume_in-Good s.world (locks_of s.held) g owner id)
  after-Inv t (end_session sk e) = rw e (notify_invalidated-Good s.world (locks_of s.held) g sk)
  after-Inv t (elsewhere v same e) = rw e (elsewhere-Good s.world (locks_of s.held) g v same)

pub Reach-Inv : (s t : System) → Reach s t → Inv s → Inv t
Reach-Inv s t here g = g
Reach-Inv s u (next r step) g = after-Inv _ (Reach-Inv s _ r g) u step

-- A server that has just started.
abbrev pub IsFresh : System → Type 0
IsFresh s = (s.held ≡ []) × (s.world.quotes ≡ []) × (s.world.executions ≡ []) × (s.world.sent ≡ [])

pub IsFresh-Inv : (s : System) → IsFresh s → Inv s
unfolding lookup sent_keys
IsFresh-Inv s f = record {
  unique = rw f.2 tt;
  each = λ id. rw (f.0, f.1, f.2, f.3) (refl, refl, refl);
}

-- On every run of a fresh server, however calls interleave, all purchases that were sent under one
-- quote id carry the same idempotency key, and there are three of them at most.
pub sends_one_key :
    (s t : System) (id : String) → IsFresh s → Reach s t → Settled (sent_keys id t.world.sent)
sends_one_key s t id f r = At-Settled id _ _ _ _ ((Reach-Inv s t r (IsFresh-Inv s f)).each id)
