-- ===== src/EsimTopup/Confirm/Protocol/Safety.antt =====
-- Every step keeps the invariant, so what it says of the top-ups that were sent holds on every
-- run.
use esim_opensource_mcp.Prelude.{
  ◌≤◌, String, [], Dict, lookup, remove, lookup-insert, lookup-remove, ◌≡◌, arith, refl, ap,
}
use esim_opensource_mcp.World.{World}
use esim_opensource_mcp.EsimTopup.Confirm.{Stage, done, revalidating, refreshing, sending}
use esim_opensource_mcp.EsimTopup.Confirm.Finish.{finish}
use esim_opensource_mcp.EsimTopup.Confirm.Protocol.{
  System, Flight, awaiting_reads, awaiting_refresh, awaiting_topup, Step, start, revalidated,
  rotated, answer, prepare, cancel, end_session, elsewhere, Reach, here, next, after_stage, hold,
  times_sent,
}
use esim_opensource_mcp.EsimTopup.Confirm.Protocol.Invariant.{Inv, free, hold_of, locks_of, At-once}
use esim_opensource_mcp.EsimTopup.Confirm.Protocol.Records.{
  notify_invalidated-Good, cancel_in-Good, elsewhere-Good, create_in-Good,
}
use esim_opensource_mcp.EsimTopup.Confirm.Protocol.Locks.{over, over-Good}
use esim_opensource_mcp.EsimTopup.Confirm.Protocol.Parts.{
  begin-Good, after_reads-Good, continue_refreshed-Good, Reached, lock_of,
}
use esim_opensource_mcp.EsimTopup.Confirm.Protocol.Ends.{finish-Good}

-- The locks after a part of a call are those before it, but for its own.
locks_of-hold :
    (k : String) (stage : Stage) (held : Dict Flight) (id : String)
    → locks_of (hold k stage held) id ≡ over k (lock_of stage) (locks_of held) id
locks_of-hold k (done r) held id = ground (arith, lookup-remove k id held)
locks_of-hold k (revalidating c) held id =
    ground (arith, lookup-insert k id (awaiting_reads c) held)
locks_of-hold k (refreshing c s) held id =
    ground (arith, lookup-insert k id (awaiting_refresh c s) held)
locks_of-hold k (sending c) held id = ground (arith, lookup-insert k id (awaiting_topup c) held)

after_stage-Inv :
    (k : String) (held : Dict Flight) (r : Stage × World)
    → Reached k (locks_of held) r
    → Inv (after_stage k held r)
after_stage-Inv k held (stage, w) g =
    over-Good w (over k (lock_of stage) (locks_of held)) (locks_of (hold k stage held))
      (locks_of-hold k stage held) g

released :
    (k : String) (held : Dict Flight) (id : String)
    → locks_of (remove k held) id ≡ over k free (locks_of held) id
released k held id = ground (arith, lookup-remove k id held)

module _ (s : System) (g : Inv s) where
  -- The invariant in the state that a step leaves.
  after-Inv : (t : System) → Step s t → Inv t
  after-Inv t (start given owner reference l e) = rw e (
      after_stage-Inv reference s.held _
        (begin-Good s.world (locks_of s.held) reference given owner (ap hold_of l) g))
  after-Inv t (revalidated reference c window now target l e) = rw e (
      after_stage-Inv reference s.held _
        (after_reads-Good s.world (locks_of s.held) reference window now c target (ap hold_of l) g))
  after-Inv t (rotated reference c session auth l e) = rw e (
      after_stage-Inv reference s.held _ (
        continue_refreshed-Good s.world (locks_of s.held) reference c session auth (ap hold_of l)
          g))
  after-Inv t (answer reference c a l e) = rw e (
      over-Good (finish c a s.world).1 (over reference free (locks_of s.held)) _
        (released reference s.held)
        (finish-Good s.world (locks_of s.held) reference c (ap hold_of l) g a))
  after-Inv t (prepare settings owner id source terms locale moment new e) =
      rw e (
        create_in-Good s.world (locks_of s.held) g settings owner id source terms locale moment new)
  after-Inv t (cancel owner id moment e) =
      rw e (cancel_in-Good s.world (locks_of s.held) g owner id moment)
  after-Inv t (end_session sk e) = rw e (notify_invalidated-Good s.world (locks_of s.held) g sk)
  after-Inv t (elsewhere v same e) = rw e (elsewhere-Good s.world (locks_of s.held) g v same)

Reach-Inv : (s t : System) → Reach s t → Inv s → Inv t
Reach-Inv s t here g = g
Reach-Inv s u (next r step) g = after-Inv _ (Reach-Inv s _ r g) u step

-- A server that has just started.
abbrev pub IsFresh : System → Type 0
IsFresh s =
    (s.held ≡ [])
    × (s.world.esim_quotes ≡ [])
    × (s.world.esim_executions ≡ [])
    × (s.world.topups_sent ≡ [])

IsFresh-Inv : (s : System) → IsFresh s → Inv s
unfolding lookup times_sent
IsFresh-Inv s f = record {
  unique = rw f.2 tt;
  each = λ id. rw (f.0, f.1, f.2, f.3) (refl, refl, refl);
}

-- On every run of a fresh server, however confirmations, preparations, cancellations and the ends
-- of sessions interleave, at most one top-up is sent under one quote id.
pub sends_once :
    (s t : System) (id : String) → IsFresh s → Reach s t → times_sent id t.world.topups_sent ≤ 1
sends_once s t id f r = At-once id _ _ _ _ ((Reach-Inv s t r (IsFresh-Inv s f)).each id)
