-- ===== src/Client/Upkeep/Examples.antt =====
-- A client is started, its reaper runs once, and it is shut down.
use novaque.Prelude.{◌≤◌, ◌≡◌, refl, true, false, [], ◌∷◌}
use novaque.Client.Upkeep.{
  Kind, loop_reap, loop_purge, loop_stats, Loop, reap_expired_leases, Upkeep, began, did, joined,
  final_flush, idle, start, shutdown, shutdown_joined, shutdown_done, tick, loop_return, Reached,
  at_first, next,
}
use novaque.Client.Upkeep.Order.{running, is_settled, Reached-upkeep}

abbrev over : Upkeep
over = record {
  started = false;
  live = [];
  waits = 0;
  flushing = 0;
  events = final_flush ∷ joined ∷ did reap_expired_leases ∷ began ∷ [];
}

abbrev stopped_loop : Kind → Loop
stopped_loop k = record { kind = k; stopped = true }

over-Reached : Reached over
over-Reached =
    let ran =
      next (next at_first (start idle refl)) (
        tick _ [] (record { kind = loop_reap; stopped = false }) _ reap_expired_leases refl refl) in
    let stopping = next ran (shutdown _ refl) in
    let no_reaper = next stopping (loop_return _ [] (stopped_loop loop_reap) _ refl refl) in
    let no_purger = next no_reaper (loop_return _ [] (stopped_loop loop_purge) _ refl refl) in
    let no_loop = next no_purger (loop_return _ [] (stopped_loop loop_stats) [] refl refl) in
    next (next no_loop (shutdown_joined _ 0 refl refl)) (shutdown_done _ 0 refl)

Reached-upkeep_example :
    ((k : Kind) → running k over.live ≤ 1)
    × (over.started ≡ false → (k : Kind) → running k over.live ≡ 0)
    × (is_settled over.events ≡ true → over.live ≡ [])
Reached-upkeep_example = Reached-upkeep over over-Reached
