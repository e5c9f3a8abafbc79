-- ===== src/Client/Publishing/Examples.antt =====
-- A publish whose memoized topic 1 was deleted, on a store that gives the topic the new id 2.
use novaque.Prelude.{ℕ, ◌≡◌, refl, some, List, [], ◌∷◌, ◌==◌, str_eq, if◌then◌else◌}
use novaque.Prelude.Int.{ℤ, pos, negsuc}
use novaque.Store.Errors.{ok, err, topic_gone, invalid_id}
use novaque.Store.Types.{PublishOpts}
use novaque.Store.Delay.{delay_sec, validate_publish_delay}
use novaque.Store.Interface.{Store}
use novaque.Store.Cache.{Cached, load}
use novaque.Action.{Action}
use novaque.Client.Options.{Options}
use novaque.Client.Publishing.{MessageOpts, store_opts, publish}
use novaque.Client.Publishing.Healing.{publish-heals}
use novaque.Sqlite.Engine.{World}
use novaque.Sqlite.Schema.{empty_db}
use novaque.Sqlite.Fixture.{calm, world}
use novaque.Sqlite.Driver.{sqlite_store}

-- The engine calls count the attempts.
abbrev publish_at : ℤ → List ℕ → PublishOpts → Action World ℕ
publish_at (pos i) body opts w = (if i == 2 then ok 9 else err topic_gone, record w { calls = i })
publish_at (negsuc i) body opts w = (err invalid_id, w)

abbrev moved : Store World
moved = record (sqlite_store calm) { ensure_topic = λ n w. (ok 2, w); publish = publish_at }

abbrev zeros : Options
zeros = record {
  default_ttl = pos 0;
  default_lease = pos 0;
  default_max_attempts = pos 0;
  poll_interval = pos 0;
  max_in_flight = pos 0;
  reap_interval = pos 0;
  purge_interval = pos 0;
  maintenance_batch = pos 0;
  stats_retention_days = pos 0;
  stats_flush_interval = pos 0;
  stats_prune_interval = pos 0;
}

abbrev plain : MessageOpts
plain = record { ttl = pos 0; delay = pos 0; max_attempts = pos 0 }

abbrev stale_cache : Cached World
stale_cache = record { topics = ("orders", 1) ∷ []; channels = []; inner = world empty_db }

abbrev ended : World
ended = record { db = empty_db; stat_buf = []; calls = 2 }

abbrev tried : World
tried = record { db = empty_db; stat_buf = []; calls = 1 }

accepts : validate_publish_delay (store_opts zeros plain) 1000 ≡ ok tt
unfolding validate_publish_delay store_opts delay_sec
accepts = refl

memoized : load str_eq "orders" stale_cache.topics ≡ some 1
unfolding load
memoized = refl

publish-heals_example :
    ((publish moved zeros 1000 "orders" (7 ∷ []) plain stale_cache).0 ≡ ok 9)
    × ((publish moved zeros 1000 "orders" (7 ∷ []) plain stale_cache).1.inner ≡ ended)
    × (load str_eq "orders" (publish moved zeros 1000 "orders" (7 ∷ []) plain stale_cache).1.topics
        ≡ some 2)
publish-heals_example =
    publish-heals moved zeros 1000 "orders" (7 ∷ []) plain stale_cache 1 2 tried tried ended (ok 9)
      accepts memoized refl refl refl
