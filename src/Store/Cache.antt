-- ===== src/Store/Cache.antt =====
-- store/cached.go: CachingStore memoizes the ids of topics and channels in front of a Store.
pub mod Sweep
mod Examples
use novaque.Prelude.{
  ℕ, zero, suc, String, Bool, true, false, ◌&&◌, not, Option, none, some, List, [], ◌∷◌, ◌++◌, map,
  ◌==◌, str_eq, if◌then◌else◌,
}
use novaque.Prelude.Int.{ℤ, pos, negsuc}
use novaque.Prelude.Lists.{is_empty, select, exists, list_eq, is_prefix}
use novaque.Action.{Action, pure, gets, update, ◌>>=◌, ◌>>◌}
use novaque.Store.Interface.{Store}
use novaque.Prelude.Text.{codes}

-- The two sync.Maps and the state of the inner store. A channel's key is a list of characters.
pub record Cached (S : Type 0) : Type 0 where
  pub topics : List (String × ℕ)
  pub channels : List (List ℕ × ℕ)
  pub inner : S

-- topic, the separator \x00, channel
abbrev pub key_prefix : String → List ℕ
key_prefix topic = codes topic ++ 0 ∷ []

pub channel_key : String → String → List ℕ
channel_key topic channel = key_prefix topic ++ codes channel

-- Load of a sync.Map, with the equality of its keys.
unfoldable pub load {κ} : {K : Type κ} → (K → K → Bool) → K → List (K × ℕ) → Option ℕ
load eq k [] = none
load eq k ((j, v) ∷ rest) = if eq j k then some v else load eq k rest

-- Store of a sync.Map.
unfoldable pub insert {κ} : {K : Type κ} → (K → K → Bool) → K → ℕ → List (K × ℕ) → List (K × ℕ)
insert eq k v [] = (k, v) ∷ []
insert eq k v ((j, w) ∷ rest) = if eq j k then (k, v) ∷ rest else (j, w) ∷ insert eq k v rest

-- Whether a memoized id is the id that a caller names.
abbrev pub id_is : ℤ → ℕ → Bool
id_is (pos i) v = i == v
id_is (negsuc i) v = false

module _ {S : Type 0} where
  -- The name entry of a topic and the channel entries under it go.
  unfoldable pub swept_topic : ℤ → Cached S → Cached S
  swept_topic topic s =
      let names = select (λ e. id_is topic e.1) s.topics in
      record s {
        topics = select (λ e. not (id_is topic e.1)) s.topics;
        channels =
            select (λ e. not (exists (λ n. is_prefix (key_prefix n.0) e.0) names)) s.channels;
      }

  unfoldable pub invalidate_topic_id : ℤ → Cached S → Cached S
  invalidate_topic_id topic s = record s { topics = select (λ e. not (id_is topic e.1)) s.topics }

  unfoldable pub invalidate_topic : String → Cached S → Cached S
  invalidate_topic name s = record s {
    topics = select (λ e. not (str_eq e.0 name)) s.topics;
    channels = select (λ e. not (is_prefix (key_prefix name) e.0)) s.channels;
  }

  unfoldable pub invalidate_channel_id : ℤ → Cached S → Cached S
  invalidate_channel_id channel s = record s {
    channels = select (λ e. not (id_is channel e.1)) s.channels;
  }

  -- An operation of the inner store.
  unfoldable pub through : {A : Type 0} → Action S A → Action (Cached S) A
  through m s = let (r, s') = m s.inner in (r, record s { inner = s' })

module _ {S : Type 0} (inner : Store S) where
  unfoldable pub or_ensure_topic : String → Option ℕ → Action (Cached S) ℕ
  or_ensure_topic name (some v) = pure v
  or_ensure_topic name none = do
    id ← through (inner.ensure_topic name)
    update (λ s. record s { topics = insert str_eq name id s.topics })
    pure id

  unfoldable pub ensure_topic : String → Action (Cached S) ℕ
  unfolding or_ensure_topic
  ensure_topic name = do hit ← gets (λ s. load str_eq name s.topics); or_ensure_topic name hit

  or_ensure_channel : String → String → Option ℕ → Action (Cached S) ℕ
  unfolding channel_key
  or_ensure_channel topic channel (some v) = pure v
  or_ensure_channel topic channel none = do
    ensure_topic topic
    id ← through (inner.ensure_channel topic channel)
    update (λ s. record s { channels = insert list_eq (channel_key topic channel) id s.channels })
    pure id

  unfoldable pub ensure_channel : String → String → Action (Cached S) ℕ
  unfolding channel_key or_ensure_channel
  ensure_channel topic channel = do
    hit ← gets (λ s. load list_eq (channel_key topic channel) s.channels)
    or_ensure_channel topic channel hit

  unfoldable pub delete_topic : ℤ → Action (Cached S) (Unit {0})
  delete_topic topic = do update (swept_topic topic); through (inner.delete_topic topic)

  unfoldable pub delete_channel : ℤ → Action (Cached S) (Unit {0})
  delete_channel channel = do
    update (invalidate_channel_id channel)
    through (inner.delete_channel channel)

  -- All other operations pass straight through.
  abbrev pub caching_store : Store (Cached S)
  caching_store = record {
    ensure_topic = ensure_topic;
    ensure_channel = ensure_channel;
    publish = λ t b o. through (inner.publish t b o);
    claim = λ c o l n. through (inner.claim c o l n);
    ack = λ d t. through (inner.ack d t);
    requeue = λ d t a. through (inner.requeue d t a);
    reap_expired_leases = λ n. through (inner.reap_expired_leases n);
    purge_expired = λ n. through (inner.purge_expired n);
    channel_counters = λ c. through (inner.channel_counters c);
    topic_counters = λ t. through (inner.topic_counters t);
    channel_backlog = λ c. through (inner.channel_backlog c);
    prune_stats = λ n. through (inner.prune_stats n);
    flush_stats = through inner.flush_stats;
    list_topics = through inner.list_topics;
    list_channels = through inner.list_channels;
    backlogs = through inner.backlogs;
    backlogs_for_topic = λ t. through (inner.backlogs_for_topic t);
    topic_daily_counters = λ t n. through (inner.topic_daily_counters t n);
    channel_daily_counters = λ c n. through (inner.channel_daily_counters c n);
    cluster_daily_counters = λ n. through (inner.cluster_daily_counters n);
    list_dead = λ c b l p. through (inner.list_dead c b l p);
    requeue_dead = λ d c f. through (inner.requeue_dead d c f);
    delete_dead = λ d c. through (inner.delete_dead d c);
    delete_topic = delete_topic;
    delete_channel = delete_channel;
  }
