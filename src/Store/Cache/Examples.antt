-- ===== src/Store/Cache/Examples.antt =====
-- A cache of two topics and a channel of the first, which is deleted.
use Prim.Native.String.{String}
use novaque.Prelude.{ℕ, [], ◌∷◌}
use novaque.Store.Cache.{Cached, channel_key}

abbrev two_topics : Cached ℕ
two_topics = record {
  topics = ("orders", 1) ∷ ("mails", 2) ∷ [];
  channels = (channel_key "orders" "a", 5) ∷ (channel_key "mails" "a", 6) ∷ [];
  inner = 0;
}
