-- ===== src/Client/Upkeep.antt =====
-- client.go, Start, Shutdown and the maintenance loops of Client, as steps of which any interleaving may
-- happen. When a ticker fires, what a store call returns, and when a context ends are not determined
-- here; a failure is logged and changes nothing.
pub mod Order
mod Examples
use novaque.Action.{Action, pure, attempt, ◌>>=◌, ◌>>◌}
use novaque.Store.Interface.{Store}
use novaque.Client.Options.{Options}
use novaque.Prelude.{ℕ, zero, suc, ◌≡◌, Bool, true, false, List, [], ◌∷◌, ◌++◌, map}

pub data Kind : Type 0 where
  loop_reap loop_purge loop_stats : Kind

-- The store calls of the loops.
pub data Job : Type 0 where
  reap_expired_leases purge_expired flush_stats prune_stats : Job

abbrev pub kind_of : Job → Kind
kind_of reap_expired_leases = loop_reap
kind_of purge_expired = loop_purge
kind_of flush_stats = loop_stats
kind_of prune_stats = loop_stats

-- A call of a loop. Its failure is logged and swallowed.
module _ {S : Type 0} (store : Store S) (opts : Options) where
  pub job_call : Job → Action S (Unit {0})
  job_call reap_expired_leases = do
    attempt (store.reap_expired_leases opts.maintenance_batch)
    pure tt
  job_call purge_expired = do attempt (store.purge_expired opts.maintenance_batch); pure tt
  job_call flush_stats = do attempt store.flush_stats; pure tt
  job_call prune_stats = do attempt (store.prune_stats opts.stats_retention_days); pure tt

-- A goroutine, and whether its context is done.
pub record Loop : Type 0 where
  pub kind : Kind
  pub stopped : Bool

-- What has happened: a start of the loops, a call of one, that a Shutdown has seen all loops end, or the
-- flush that it makes then.
pub data Event : Type 0 where
  began : Event
  did : Job → Event
  joined : Event
  final_flush : Event

-- `live` are the loops that have not returned. `waits` is how many calls of Shutdown wait for them and
-- `flushing` how many have seen them end and have not flushed yet. `events` has the latest event first.
pub record Upkeep : Type 0 where
  pub started : Bool
  pub live : List Loop
  pub waits : ℕ
  pub flushing : ℕ
  pub events : List Event

abbrev pub idle : Upkeep
idle = record { started = false; live = []; waits = 0; flushing = 0; events = [] }

abbrev pub fresh : List Loop
fresh =
    record { kind = loop_reap; stopped = false }
    ∷ record { kind = loop_purge; stopped = false }
    ∷ record { kind = loop_stats; stopped = false }
    ∷ []

abbrev pub stop : Loop → Loop
stop l = record l { stopped = true }

pub data Step : Upkeep → Upkeep → Type 0 where
  start :
      (s : Upkeep)
      → s.started ≡ false
      → Step s (record s { started = true; live = fresh ++ s.live; events = began ∷ s.events })
  start_again : (s : Upkeep) → s.started ≡ true → Step s s
  -- Shutdown stops the loops under the mutex, and then waits for all that are live.
  shutdown :
      (s : Upkeep)
      → s.started ≡ true
      → Step s (record s { started = false; live = map stop s.live; waits = suc s.waits })
  shutdown_never : (s : Upkeep) → s.started ≡ false → Step s s
  shutdown_joined :
      (s : Upkeep) (n : ℕ)
      → s.waits ≡ suc n
      → s.live ≡ []
      → Step s (record s { waits = n; flushing = suc s.flushing; events = joined ∷ s.events })
  shutdown_done :
      (s : Upkeep) (n : ℕ)
      → s.flushing ≡ suc n
      → Step s (record s { flushing = n; events = final_flush ∷ s.events })
  shutdown_expired : (s : Upkeep) (n : ℕ) → s.waits ≡ suc n → Step s (record s { waits = n })
  -- The context that Start got is done.
  context_done : (s : Upkeep) → Step s (record s { live = map stop s.live })
  -- A ticker may win against a context that is done.
  tick :
      (s : Upkeep) (before : List Loop) (l : Loop) (behind : List Loop) (j : Job)
      → s.live ≡ before ++ l ∷ behind
      → kind_of j ≡ l.kind
      → Step s (record s { events = did j ∷ s.events })
  loop_return :
      (s : Upkeep) (before : List Loop) (l : Loop) (behind : List Loop)
      → s.live ≡ before ++ l ∷ behind
      → l.stopped ≡ true
      → Step s (record s { live = before ++ behind })

pub data Reached : Upkeep → Type 0 where
  at_first : Reached idle
  next : {s t : Upkeep} → Reached s → Step s t → Reached t
