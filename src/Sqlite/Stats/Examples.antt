-- ===== src/Sqlite/Stats/Examples.antt =====
-- The poll and the backlog of a channel with one waiting delivery.
use novaque.Prelude.{ℕ, ◌+◌, ◌≤◌, ◌≡◌, refl, List, [], ◌∷◌}
use novaque.Prelude.Lists.{length, sort_by, insert_by}
use novaque.Store.Errors.{ok}
use novaque.Store.Types.{ChannelBacklog}
use novaque.Sqlite.Engine.{Env, tick_at}
use novaque.Sqlite.Fixture.{calm, waiting, shop, world}
use novaque.Sqlite.Claim.{poll_ready}
use novaque.Sqlite.Stats.{backlog_of, select_backlog, no_counters, prune_stats}
use novaque.Sqlite.Stats.Prune.{Accounts, prune_stats-Accounts}
use novaque.Sqlite.Schema.{Db}
use novaque.Prelude.Int.{pos}
use novaque.Sqlite.Stats.Backlog.{poll_ready-backlog}

abbrev one_ready : ChannelBacklog
one_ready = record { pending = 1; ready = 1; in_flight = 0; dead = 0 }

polls : (poll_ready 1 10 (tick_at calm 0) (shop waiting)).0 ≡ ok (1 ∷ [])
unfolding poll_ready sort_by insert_by
polls = refl

counts : (select_backlog 1 (tick_at calm 0) (shop waiting)).0 ≡ ok one_ready
unfolding select_backlog backlog_of
counts = refl

abbrev found : List ℕ
found = 1 ∷ []

poll_ready-backlog_example : (length found ≡ 1) × (1 ≤ 1) × (1 + 0 + 0 ≡ 1)
poll_ready-backlog_example =
    poll_ready-backlog 1 10 (tick_at calm 0) (shop waiting) found one_ready polls counts

-- Two buckets: one long past, one of today.
abbrev pub two_days : Db
two_days = record (shop waiting) {
  stats =
      record { day_utc = 0; topic_id = 1; channel_id = 1; counts = no_counters }
      ∷ record { day_utc = 20000; topic_id = 1; channel_id = 1; counts = no_counters }
      ∷ [];
}

abbrev pub at_day : Env
at_day = record calm { clock = λ n. 1_728_000_000 }

prune_stats-Accounts_example : Accounts 2 0 (prune_stats at_day (pos 30) (world two_days))
prune_stats-Accounts_example =
    prune_stats-Accounts at_day (λ n. refl) (λ n db. refl) 29 (world two_days)
