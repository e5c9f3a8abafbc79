-- ===== src/Server/Histories.antt =====
-- Sequences of calls on a store whose operations are lawful: the interface that a driver fills.
use novaque.Prelude.Lists.{All}
use novaque.Prelude.{◌≡◌, true, ℕ, String, Option, List, [], ◌∷◌}
use novaque.Prelude.Int.{ℤ}
use novaque.Store.Types.{PublishOpts}
use novaque.Store.Interface.{Store}
use novaque.Sqlite.Engine.{World}
use novaque.Sqlite.Engine.Rules.{OnDb, OnDb-Preorder}
use novaque.Sqlite.Lifecycle.{Tracing}
use novaque.Sqlite.Evolution.{Evolves, Evolves-Preorder, IsLawful}
use novaque.Sqlite.Histories.{
  Call, ensure_topic, ensure_channel, publish, claim, ack, requeue, reap_expired_leases,
  purge_expired, prune_stats, flush_stats, requeue_dead, delete_dead, delete_topic, delete_channel,
  Permitted,
}

module _ (store : Store World) where
  -- The world after a call, whether it succeeded or failed.
  unfoldable pub after : Call → World → World
  after (ensure_topic n) w = (store.ensure_topic n w).1
  after (ensure_channel t c) w = (store.ensure_channel t c w).1
  after (publish t b o) w = (store.publish t b o w).1
  after (claim c o l n) w = (store.claim c o l n w).1
  after (ack d t) w = (store.ack d t w).1
  after (requeue d t a) w = (store.requeue d t a w).1
  after (reap_expired_leases n) w = (store.reap_expired_leases n w).1
  after (purge_expired n) w = (store.purge_expired n w).1
  after (prune_stats n) w = (store.prune_stats n w).1
  after flush_stats w = (store.flush_stats w).1
  after (requeue_dead d c f) w = (store.requeue_dead d c f w).1
  after (delete_dead d c) w = (store.delete_dead d c w).1
  after (delete_topic t) w = (store.delete_topic t w).1
  after (delete_channel c) w = (store.delete_channel c w).1

  unfoldable pub run_calls : List Call → World → World
  unfolding after
  run_calls [] w = w
  run_calls (c ∷ cs) w = run_calls cs (after c w)

-- The operations that write are lawful.
pub record WritesLawfully (traced : Tracing) (store : Store World) : Type 0 where
  pub ensure_topic : (n : String) → IsLawful traced (store.ensure_topic n)
  pub ensure_channel : (t c : String) → IsLawful traced (store.ensure_channel t c)
  pub publish : (t : ℤ) (b : List ℕ) (o : PublishOpts) → IsLawful traced (store.publish t b o)
  pub claim : (c : ℤ) (o : String) (l n : ℤ) → IsLawful traced (store.claim c o l n)
  pub ack : (d : ℕ) (t : String) → IsLawful traced (store.ack d t)
  pub requeue : (d : ℕ) (t : String) (a : Option ℕ) → IsLawful traced (store.requeue d t a)
  pub reap_expired_leases : (n : ℤ) → IsLawful traced (store.reap_expired_leases n)
  pub purge_expired : (n : ℤ) → IsLawful traced (store.purge_expired n)
  pub prune_stats : (n : ℤ) → IsLawful traced (store.prune_stats n)
  pub flush_stats : IsLawful traced store.flush_stats
  pub requeue_dead :
      (d c : ℕ) (f : ℤ) → traced.revivable d ≡ true → IsLawful traced (store.requeue_dead d c f)
  pub delete_dead : (d c : ℕ) → IsLawful traced (store.delete_dead d c)
  pub delete_topic : (t : ℤ) → IsLawful traced (store.delete_topic t)
  pub delete_channel : (c : ℤ) → IsLawful traced (store.delete_channel c)

module _ {traced : Tracing} (store : Store World) (laws : WritesLawfully traced store) where
  after-Evolves :
      (c : Call) → Permitted traced c → (w : World) → OnDb (Evolves traced) w (after store c w)
  unfolding after
  after-Evolves (ensure_topic n) may w = (laws.ensure_topic n).at w
  after-Evolves (ensure_channel t c) may w = (laws.ensure_channel t c).at w
  after-Evolves (publish t b o) may w = (laws.publish t b o).at w
  after-Evolves (claim c o l n) may w = (laws.claim c o l n).at w
  after-Evolves (ack d t) may w = (laws.ack d t).at w
  after-Evolves (requeue d t a) may w = (laws.requeue d t a).at w
  after-Evolves (reap_expired_leases n) may w = (laws.reap_expired_leases n).at w
  after-Evolves (purge_expired n) may w = (laws.purge_expired n).at w
  after-Evolves (prune_stats n) may w = (laws.prune_stats n).at w
  after-Evolves flush_stats may w = laws.flush_stats.at w
  after-Evolves (requeue_dead d c f) may w = (laws.requeue_dead d c f may).at w
  after-Evolves (delete_dead d c) may w = (laws.delete_dead d c).at w
  after-Evolves (delete_topic t) may w = (laws.delete_topic t).at w
  after-Evolves (delete_channel c) may w = (laws.delete_channel c).at w

  pub run_calls-Evolves :
      (cs : List Call)
      → All (Permitted traced) cs
      → (w : World) → OnDb (Evolves traced) w (run_calls store cs w)
  unfolding run_calls
  run_calls-Evolves [] may w = (OnDb-Preorder (Evolves-Preorder traced)).same w
  run_calls-Evolves (c ∷ cs) may w =
      (OnDb-Preorder (Evolves-Preorder traced)).chain (after-Evolves c may.0 w)
        (run_calls-Evolves cs may.1 (after store c w))
