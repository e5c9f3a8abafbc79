-- ===== src/Sqlite/Histories.antt =====
-- Any sequence of calls that change the database, with any failures and any work of other processes
-- in between.
mod Examples
use novaque.Sqlite.Lifecycle.{Tracing, traces, unseen, at_once, sparing, Onward, Steps-Onward}
use novaque.Prelude.{ℕ, String, ◌≡◌, refl, Bool, true, false, ◌==◌, Option, some, List, [], ◌∷◌}
use novaque.Prelude.Int.{ℤ}
use novaque.Store.Types.{PublishOpts}
use novaque.Sqlite.Engine.{Env, World}
use novaque.Sqlite.Engine.Rules.{OnDb, OnDb-Preorder}
use novaque.Sqlite.Schema.{Db, DeliveryRow}
use novaque.Prelude.Lists.{All}
use novaque.Prelude.Rows.{first-test}
use novaque.Sqlite.Invariant.{IsValid, OthersValid}
use novaque.Sqlite.Lifecycle.{row_of, SameDelivery, Steps-SameDelivery}
use novaque.Sqlite.Evolution.{Evolves, Evolves-Preorder, Lives, OthersEvolve, untraced}
use novaque.Sqlite.Names
use novaque.Sqlite.Names.Valid.{ensure_topic-IsLawful, ensure_channel-IsLawful}
use novaque.Sqlite.Publish
use novaque.Sqlite.Publish.Valid.{publish-IsLawful}
use novaque.Sqlite.Claim
use novaque.Sqlite.Claim.Valid.{claim-IsLawful}
use novaque.Sqlite.Finish
use novaque.Sqlite.Finish.Valid.{ack-IsLawful, requeue-IsLawful}
use novaque.Sqlite.Maintenance
use novaque.Sqlite.Maintenance.Valid.{reap_expired_leases-IsLawful, purge_expired-IsLawful}
use novaque.Sqlite.Stats
use novaque.Sqlite.Stats.Valid.{prune_stats-IsLawful}
use novaque.Sqlite.Flush
use novaque.Sqlite.Flush.Valid.{flush_stats-IsLawful}
use novaque.Sqlite.Admin.Dead
use novaque.Sqlite.Admin.Dead.Valid.{requeue_dead-IsLawful, delete_dead-IsLawful}
use novaque.Sqlite.Admin.Cascade
use novaque.Sqlite.Admin.Cascade.Valid.{delete_topic-IsLawful, delete_channel-IsLawful}

-- A call of a method of Store that writes.
pub data Call : Type 0 where
  ensure_topic : String → Call
  ensure_channel : String → String → Call
  publish : ℤ → List ℕ → PublishOpts → Call
  claim : ℤ → String → ℤ → ℤ → Call
  ack : ℕ → String → Call
  requeue : ℕ → String → Option ℕ → Call
  reap_expired_leases : ℤ → Call
  purge_expired : ℤ → Call
  prune_stats : ℤ → Call
  flush_stats : Call
  requeue_dead : ℕ → ℕ → ℤ → Call
  delete_dead : ℕ → ℕ → Call
  delete_topic : ℤ → Call
  delete_channel : ℤ → Call

-- A call that revives only what may be revived.
abbrev pub Permitted : Tracing → Call → Type 0
Permitted t (requeue_dead d c f) = t.revivable d ≡ true
Permitted t c = Unit

pub all-Permitted :
    (t : Tracing) → ((i : ℕ) → t.revivable i ≡ true) → (cs : List Call) → All (Permitted t) cs
all-Permitted t every [] = tt
all-Permitted t every (c ∷ cs) = (one c, all-Permitted t every cs)
  where
    one : (c : Call) → Permitted t c
    one (ensure_topic n) = tt
    one (ensure_channel t' n) = tt
    one (publish t' b o) = tt
    one (claim n o l k) = tt
    one (ack d k) = tt
    one (requeue d k a) = tt
    one (reap_expired_leases n) = tt
    one (purge_expired n) = tt
    one (prune_stats n) = tt
    one flush_stats = tt
    one (requeue_dead d n f) = every d
    one (delete_dead d n) = tt
    one (delete_topic t') = tt
    one (delete_channel n) = tt

-- A call that does not requeue the delivery from dead.
abbrev pub Spares : ℕ → Call → Type 0
Spares i (requeue_dead d c f) = (d == i) ≡ false
Spares i c = Unit

pub spared :
    (t : Tracing) (i : ℕ) (cs : List Call) → All (Spares i) cs → All (Permitted (sparing i t)) cs
spared t i [] h = tt
spared t i (c ∷ cs) h = (one c h.0, spared t i cs h.1)
  where
    one : (c : Call) → Spares i c → Permitted (sparing i t) c
    one (ensure_topic n) k = tt
    one (ensure_channel t' n) k = tt
    one (publish t' b o) k = tt
    one (claim n o l m) k = tt
    one (ack d m) k = tt
    one (requeue d m a) k = tt
    one (reap_expired_leases n) k = tt
    one (purge_expired n) k = tt
    one (prune_stats n) k = tt
    one flush_stats k = tt
    one (requeue_dead d n f) k = rw k refl
    one (delete_dead d n) k = tt
    one (delete_topic t') k = tt
    one (delete_channel n) k = tt

-- Of two moments of a delivery that is not revived in between.
pub row-Onward :
    (t : Tracing) (i : ℕ) (a b : Db) (d e : DeliveryRow)
    → Lives (sparing i t) a b
    → row_of a.deliveries i ≡ some d
    → row_of b.deliveries i ≡ some e
    → Onward d e
row-Onward t i a b d e lives h k =
    let named : (d.id == i) ≡ true = first-test (λ r. r.id == i) a.deliveries d h in
    Steps-Onward (lives.moved i d e h k) (rw named refl)

module _ (env : Env) where
  -- The world after a call, whether it succeeded or failed.
  unfoldable pub after : Call → World → World
  after (ensure_topic n) w = (Names.ensure_topic env n w).1
  after (ensure_channel t c) w = (Names.ensure_channel env t c w).1
  after (publish t b o) w = (Publish.publish env t b o w).1
  after (claim c o l n) w = (Claim.claim env c o l n w).1
  after (ack d t) w = (Finish.ack env d t w).1
  after (requeue d t a) w = (Finish.requeue env d t a w).1
  after (reap_expired_leases n) w = (Maintenance.reap_expired_leases env n w).1
  after (purge_expired n) w = (Maintenance.purge_expired env n w).1
  after (prune_stats n) w = (Stats.prune_stats env n w).1
  after flush_stats w = (Flush.flush_stats env w).1
  after (requeue_dead d c f) w = (Dead.requeue_dead env d c f w).1
  after (delete_dead d c) w = (Dead.delete_dead env d c w).1
  after (delete_topic t) w = (Cascade.delete_topic env t w).1
  after (delete_channel c) w = (Cascade.delete_channel env c w).1

  unfoldable pub run : List Call → World → World
  unfolding after
  run [] w = w
  run (c ∷ cs) w = run cs (after c w)

module _ {traced : Tracing} (env : Env) (quiet : OthersEvolve traced env) where
  after-Evolves :
      (c : Call) → Permitted traced c → (w : World) → OnDb (Evolves traced) w (after env c w)
  unfolding after
  after-Evolves (ensure_topic n) may w = (ensure_topic-IsLawful env quiet n).at w
  after-Evolves (ensure_channel t c) may w = (ensure_channel-IsLawful env quiet t c).at w
  after-Evolves (publish t b o) may w = (publish-IsLawful env quiet t b o).at w
  after-Evolves (claim c o l n) may w = (claim-IsLawful env quiet c o l n).at w
  after-Evolves (ack d t) may w = (ack-IsLawful env quiet d t).at w
  after-Evolves (requeue d t a) may w = (requeue-IsLawful env quiet d t a).at w
  after-Evolves (reap_expired_leases n) may w = (reap_expired_leases-IsLawful env quiet n).at w
  after-Evolves (purge_expired n) may w = (purge_expired-IsLawful env quiet n).at w
  after-Evolves (prune_stats n) may w = (prune_stats-IsLawful env quiet n).at w
  after-Evolves flush_stats may w = (flush_stats-IsLawful env quiet).at w
  after-Evolves (requeue_dead d c f) may w = (requeue_dead-IsLawful env quiet d c f may).at w
  after-Evolves (delete_dead d c) may w = (delete_dead-IsLawful env quiet d c).at w
  after-Evolves (delete_topic t) may w = (delete_topic-IsLawful env quiet t).at w
  after-Evolves (delete_channel c) may w = (delete_channel-IsLawful env quiet c).at w

  run-Evolves :
      (cs : List Call)
      → All (Permitted traced) cs
      → (w : World) → OnDb (Evolves traced) w (run env cs w)
  unfolding run
  run-Evolves [] may w = (OnDb-Preorder (Evolves-Preorder traced)).same w
  run-Evolves (c ∷ cs) may w =
      (OnDb-Preorder (Evolves-Preorder traced)).chain (after-Evolves c may.0 w)
        (run-Evolves cs may.1 (after env c w))

-- From a well-formed database every sequence of store calls, each of which may fail at any engine
-- call, leads to a well-formed database, if other processes keep it well-formed too: ids are
-- unique and below their sequences, every channel, message and delivery names rows that exist, and
-- a delivery has an owner, a token and a deadline exactly while it is in flight.
pub run-IsValid :
    (env : Env) (quiet : OthersValid env) (cs : List Call) (w : World)
    → IsValid w.db
    → IsValid (run env cs w).db
run-IsValid env quiet cs w v =
    ((run-Evolves env (untraced env quiet) cs (all-Permitted unseen (λ j. refl) cs) w).holds.from
      v).0

-- Deliveries live as the state machine of their rows says.
run-Lives :
    {traced : Tracing} (env : Env) (quiet : OthersEvolve traced env) (cs : List Call) (w : World)
    → traces traced ≡ true
    → All (Permitted traced) cs
    → IsValid w.db
    → Lives traced w.db (run env cs w).db
run-Lives env quiet cs w seen may v = ((run-Evolves env quiet cs may w).holds.from v).1 seen

-- Over any sequence of store calls, each of which may fail at any engine call, if other processes change
-- the deliveries only as such calls do, and if neither these calls nor other processes requeue the
-- delivery `i` from dead: while its row is there its expiry stays, its attempts never go down, and
-- once it is dead it stays dead.
pub run-Onward :
    (env : Env) (i : ℕ) (quiet : OthersEvolve (sparing i at_once) env) (cs : List Call) (w : World)
    (d e : DeliveryRow)
    → IsValid w.db
    → All (Spares i) cs
    → row_of w.db.deliveries i ≡ some d
    → row_of (run env cs w).db.deliveries i ≡ some e
    → Onward d e
run-Onward env i quiet cs w d e v spare h k =
    row-Onward at_once i w.db _ d e (run-Lives env quiet cs w refl (spared at_once i cs spare) v) h
      k

-- Over any sequence of store calls, each of which may fail at any engine call, and with other processes
-- that change the deliveries only as such calls do, a delivery that is there before and after is still of
-- the same message and channel, and its cap on attempts is the same.
pub run-SameDelivery :
    (env : Env) (quiet : OthersEvolve at_once env) (cs : List Call) (w : World) (i : ℕ)
    (d e : DeliveryRow)
    → IsValid w.db
    → row_of w.db.deliveries i ≡ some d
    → row_of (run env cs w).db.deliveries i ≡ some e
    → SameDelivery d e
run-SameDelivery env quiet cs w i d e v h k =
    Steps-SameDelivery
      ((run-Lives env quiet cs w refl (all-Permitted at_once (λ j. refl) cs) v).moved i d e h k)
