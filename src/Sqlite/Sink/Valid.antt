-- ===== src/Sqlite/Sink/Valid.antt =====
-- The counter buffer is no part of the database.
use novaque.Sqlite.Lifecycle.{Tracing}
use novaque.Prelude.{ℕ}
use novaque.Action.{update}
use novaque.Sqlite.Engine.{World, StatKind}
use novaque.Sqlite.Evolution.{Evolves-Preorder, IsLawful}
use novaque.Sqlite.Sink.{Sink, record_stat, discard_topic_stats, discard_channel_stats}

module _ {traced : Tracing} where
  pub IsLawful-buffer :
      (f : Sink → Sink)
      → IsLawful traced (update (λ (w : World). record w { stat_buf = f w.stat_buf }))
  unfolding update
  IsLawful-buffer f = record { at = λ w. record { holds = (Evolves-Preorder traced).same w.db } }

  pub record_stat-IsLawful :
      (topic channel : ℕ) (k : StatKind) (n : ℕ) → IsLawful traced (record_stat topic channel k n)
  unfolding record_stat
  record_stat-IsLawful topic channel k n = IsLawful-buffer _

  pub discard_topic_stats-IsLawful : (topic : ℕ) → IsLawful traced (discard_topic_stats topic)
  unfolding discard_topic_stats
  discard_topic_stats-IsLawful topic = IsLawful-buffer _

  pub discard_channel_stats-IsLawful :
      (channel : ℕ) → IsLawful traced (discard_channel_stats channel)
  unfolding discard_channel_stats
  discard_channel_stats-IsLawful channel = IsLawful-buffer _
