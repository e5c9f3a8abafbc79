-- ===== src/Client/Publishing.antt =====
-- client.go, Publish: default-filling, validation, and one retry after the topic was deleted.
pub mod Healing
mod Examples
use novaque.Prelude.{ℕ, String, List, none}
use novaque.Prelude.Int.{ℤ, pos, above_or}
use novaque.Store.Errors.{Error, Result, ok, err, topic_gone}
use novaque.Store.Types.{PublishOpts}
use novaque.Store.Delay.{validate_publish_delay}
use novaque.Store.Interface.{Store}
use novaque.Store.Cache.{Cached, caching_store, invalidate_topic}
use novaque.Action.{Action, pure, fail, lift, attempt, update, ◌>>=◌, ◌>>◌}
use novaque.Client.Options.{Options}

-- The caller's options: there is no absolute expiry.
pub record MessageOpts : Type 0 where
  pub ttl : ℤ
  pub delay : ℤ
  pub max_attempts : ℤ

pub store_opts : Options → MessageOpts → PublishOpts
store_opts o m = record {
  ttl = above_or o.default_ttl m.ttl;
  expires_at = none;
  delay = m.delay;
  max_attempts = above_or o.default_max_attempts m.max_attempts;
}

module _ {S : Type 0} (inner : Store S) (opts : Options) where
  -- The store's Publish, with the id that EnsureTopic gave.
  unfoldable pub send : ℕ → List ℕ → PublishOpts → Action (Cached S) ℕ
  send topic_id body po = (caching_store inner).publish (pos topic_id) body po

  -- A topic that is gone is evicted with its channels, created again, and tried once more.
  unfoldable pub heal : String → List ℕ → PublishOpts → Result ℕ → Action (Cached S) ℕ
  unfolding send
  heal topic body po (ok id) = pure id
  heal topic body po (err topic_gone) = do
    update (invalidate_topic topic)
    topic_id ← (caching_store inner).ensure_topic topic
    send topic_id body po
  heal topic body po (err e) = fail e

  -- `now` is the host's clock, time.Now().Unix().
  pub publish : ℕ → String → List ℕ → MessageOpts → Action (Cached S) ℕ
  unfolding store_opts send heal
  publish now topic body m = do
    topic_id ← (caching_store inner).ensure_topic topic
    let po = store_opts opts m
    lift (validate_publish_delay po now)
    sent ← attempt (send topic_id body po)
    heal topic body po sent
