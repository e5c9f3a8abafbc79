-- ===== src/Sqlite/Sink.antt =====
-- driver/sqlite/stats_foundation.go, and the discards of driver/sqlite/stats.go: the in-process
-- counter buffer, a map from a counter cell to a delta.
pub mod Valid
use novaque.Prelude.{ℕ, ◌+◌, Bool, true, false, ◌&&◌, ◌||◌, not, List, [], ◌∷◌, ◌==◌, if◌then◌else◌}
use novaque.Prelude.Lists.{select}
use novaque.Action.{Action, update}
use novaque.Sqlite.Engine.{
  StatKind, stat_publish, stat_claim, stat_ack, stat_requeue, stat_dead, stat_purged, StatCoord,
  StatKey, World,
}

abbrev pub Sink : Type 0
Sink = List (StatKey × ℕ)

abbrev pub kind_index : StatKind → ℕ
kind_index stat_publish = 0
kind_index stat_claim = 1
kind_index stat_ack = 2
kind_index stat_requeue = 3
kind_index stat_dead = 4
kind_index stat_purged = 5

abbrev pub coord_eq : StatCoord → StatCoord → Bool
coord_eq a b = a.topic_id == b.topic_id && a.channel_id == b.channel_id

abbrev pub key_eq : StatKey → StatKey → Bool
key_eq a b = coord_eq a.coord b.coord && kind_index a.kind == kind_index b.kind

-- `buf[key] += n`
unfoldable pub add_delta : StatKey → ℕ → Sink → Sink
add_delta key n [] = (key, n) ∷ []
add_delta key n ((k, m) ∷ rest) =
    if key_eq k key then (k, m + n) ∷ rest else (k, m) ∷ add_delta key n rest

abbrev pub cell : ℕ → ℕ → StatKind → StatKey
cell topic channel kind = record {
  coord = record { topic_id = topic; channel_id = channel };
  kind = kind;
}

unfoldable pub recorded : ℕ → ℕ → StatKind → ℕ → Sink → Sink
recorded topic channel kind n buf =
    if n == 0 || topic == 0 then buf else add_delta (cell topic channel kind) n buf

unfoldable pub record_stat : ℕ → ℕ → StatKind → ℕ → Action World (Unit {0})
unfolding recorded
record_stat topic channel kind n =
    update λ w. record w { stat_buf = recorded topic channel kind n w.stat_buf }

unfoldable pub discard_topic_stats : ℕ → Action World (Unit {0})
discard_topic_stats topic =
    update λ w. record w { stat_buf = select (λ e. not (e.0.topic_id == topic)) w.stat_buf }

unfoldable pub discard_channel_stats : ℕ → Action World (Unit {0})
discard_channel_stats channel =
    update λ w. record w { stat_buf = select (λ e. not (e.0.channel_id == channel)) w.stat_buf }
