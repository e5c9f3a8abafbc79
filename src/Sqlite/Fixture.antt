-- ===== src/Sqlite/Fixture.antt =====
-- A small database and a quiet engine, for the examples.
pub mod Lives
use novaque.Prelude.{ℕ, none, some, [], ◌∷◌, refl, arith, false}
use novaque.Prelude.Int.{pos}
use novaque.Store.Types.{PublishOpts, pending, in_flight}
use novaque.Sqlite.Schema.{Db, DeliveryRow}
use novaque.Sqlite.Engine.{Env, World}
use novaque.Sqlite.Invariant.{IsValid, OthersValid}

-- The clock stands still, nothing fails, and there is no other process.
abbrev pub calm : Env
calm = record {
  clock = λ n. 1000;
  fault = λ n. none;
  blob = λ n i. "t1";
  others = λ n db. db;
  cancelled = λ n. false;
}

pub calm-OthersValid : OthersValid calm
calm-OthersValid = record { keep = λ n db v. v }

abbrev pub waiting : DeliveryRow
waiting = record {
  id = 1;
  message_id = 1;
  channel_id = 1;
  status = pending;
  available_at = 900;
  expires_at = 5000;
  attempts = 0;
  max_attempts = 5;
  lease_until = none;
  lease_owner = none;
  lease_token = none;
}

-- The delivery under a lease that ends at `until`.
abbrev pub held : ℕ → DeliveryRow
held until = record waiting {
  status = in_flight;
  attempts = 1;
  lease_until = some until;
  lease_owner = some "worker";
  lease_token = some "t1";
}

-- One topic, one channel, one message with one delivery.
abbrev pub shop : DeliveryRow → Db
shop d = record {
  topics = record { id = 1; name = "orders" } ∷ [];
  channels = record { id = 1; topic_id = 1; name = "mail" } ∷ [];
  messages = record { id = 1; topic_id = 1; body = 7 ∷ []; expires_at = 5000 } ∷ [];
  deliveries = d ∷ [];
  stats = [];
  next_topic = 2;
  next_channel = 2;
  next_message = 2;
  next_delivery = 2;
}

pub shop-waiting-IsValid : IsValid (shop waiting)
shop-waiting-IsValid = record {
  topic_ids = (omega arith, omega arith);
  channel_ids = (omega arith, omega arith);
  message_ids = (omega arith, omega arith);
  delivery_ids = (omega arith, omega arith);
  channel_topics = (refl, tt);
  message_topics = (refl, tt);
  delivery_messages = (refl, tt);
  delivery_channels = (refl, tt);
  leases = ((refl, refl, refl), tt);
}

pub shop-held-IsValid : (until : ℕ) → IsValid (shop (held until))
shop-held-IsValid until = record {
  topic_ids = (omega arith, omega arith);
  channel_ids = (omega arith, omega arith);
  message_ids = (omega arith, omega arith);
  delivery_ids = (omega arith, omega arith);
  channel_topics = (refl, tt);
  message_topics = (refl, tt);
  delivery_messages = (refl, tt);
  delivery_channels = (refl, tt);
  leases = ((refl, refl, refl), tt);
}

abbrev pub world : Db → World
world db = record { db = db; stat_buf = []; calls = 0 }

-- A message for a minute, at once, with the default number of attempts.
abbrev pub minute : PublishOpts
minute = record { ttl = pos 60_000_000_000; expires_at = none; delay = pos 0; max_attempts = pos 0 }
