-- ===== src/Admin/Api.antt =====
-- admin/api.go and the JSON endpoints of admin/dead.go. Only the endpoint of one dead delivery has a
-- payload.
use novaque.Prelude.{ℕ, String, Bool, Option, none, some, List, [], ◌∷◌, ltb}
use novaque.Store.Errors.{Error, Result, ok, err, id_not_found}
use novaque.Store.Types.{BacklogRow, DailyCounters, DeadDelivery}
use novaque.Store.Interface.{Store}
use novaque.Action.{Action, pure, attempt, ◌>>=◌}
use novaque.Client.Options.{Options}
use novaque.Admin.Prefix.{path_id}
use novaque.Admin.Views.{ChannelView, TopicGroupView}
use novaque.Admin.Replies.{ChannelMeta, TopicView, ChannelDetailView, DeadRowView, DeadView}
use novaque.Admin.Loads.{load_groups, load_topic, load_channel}
use novaque.Admin.Dead.{
  dead_remaining, dead_before, dead_path_ids, load_dead_list, load_dead_delivery,
}

pub record BacklogJson : Type 0 where
  pub pending : ℕ
  pub ready : ℕ
  pub in_flight : ℕ
  pub dead : ℕ

pub record ChannelJson : Type 0 where
  pub id : ℕ
  pub topic_id : ℕ
  pub name : String
  pub backlog : BacklogJson

pub record TopicJson : Type 0 where
  pub id : ℕ
  pub name : String
  pub totals : BacklogJson
  pub channels : List ChannelJson

pub record DeadRowJson : Type 0 where
  pub id : ℕ
  pub message_id : ℕ
  pub attempts : ℕ
  pub max_attempts : ℕ
  pub remaining_ttl : Option ℕ
  pub available_at : Option ℕ
  pub expires_at : Option ℕ
  pub has_body : Bool
  pub body_bytes : ℕ

pub record DeadListJson : Type 0 where
  pub channel_id : ℕ
  pub before : ℕ
  pub has_older : Bool
  pub dead : List DeadRowJson

pub record DeadDeliveryJson : Type 0 where
  pub id : ℕ
  pub message_id : ℕ
  pub channel_id : ℕ
  pub topic : String
  pub channel : String
  pub body : List ℕ
  pub body_bytes : ℕ
  pub attempts : ℕ
  pub max_attempts : ℕ
  pub available_at : Option ℕ
  pub expires_at : Option ℕ
  pub remaining_ttl : Option ℕ

-- The days of a detail are written field by field as they are.
pub data Json : Type 0 where
  summary : List TopicJson → Json
  topic_detail : TopicJson → List DailyCounters → Json
  channel_detail : ChannelJson → String → List DailyCounters → Json
  dead_list : DeadListJson → Json
  dead_delivery : DeadDeliveryJson → Json

-- A value with status 200, or a status with the error, if there is one.
pub data ApiReply : Type 0 where
  json : Json → ApiReply
  json_error : ℕ → Option Error → ApiReply

abbrev pub missing : ApiReply
missing = json_error 404 none

pub json_answer : {A : Type 0} → (A → Json) → Result A → ApiReply
json_answer view (ok a) = json (view a)
json_answer view (err id_not_found) = missing
json_answer view (err e) = json_error 500 (some e)

-- A failure of the summary is 500, whatever it is.
abbrev summary_answer : (List TopicGroupView → Json) → Result (List TopicGroupView) → ApiReply
summary_answer view (ok groups) = json (view groups)
summary_answer view (err e) = json_error 500 (some e)

abbrev pub backlog_to_json : BacklogRow → BacklogJson
backlog_to_json b = record {
  pending = b.pending;
  ready = b.ready;
  in_flight = b.in_flight;
  dead = b.dead;
}

pub channels_to_json : ℕ → List ChannelView → List ChannelJson
channels_to_json topic [] = []
channels_to_json topic (c ∷ cs) =
    record { id = c.id; topic_id = topic; name = c.name; backlog = backlog_to_json c.backlog }
    ∷ channels_to_json topic cs

pub groups_to_json : List TopicGroupView → List TopicJson
unfolding channels_to_json
groups_to_json [] = []
groups_to_json (g ∷ gs) =
    record {
      id = g.id;
      name = g.name;
      totals = backlog_to_json g.totals;
      channels = channels_to_json g.id g.channels;
    }
    ∷ groups_to_json gs

abbrev topic_json : TopicView → Json
topic_json v =
    topic_detail
      (record {
        id = v.id;
        name = v.name;
        totals = backlog_to_json v.totals;
        channels = channels_to_json v.id v.channels;
      })
      v.days

abbrev channel_json : ChannelDetailView → Json
channel_json v =
    channel_detail
      (record {
        id = v.channel.channel_id;
        topic_id = v.channel.topic_id;
        name = v.channel.channel_name;
        backlog = backlog_to_json v.backlog;
      })
      v.channel.topic_name v.days

abbrev dead_row_json : DeadRowView → DeadRowJson
dead_row_json row = record {
  id = row.id;
  message_id = row.message_id;
  attempts = row.attempts;
  max_attempts = row.max_attempts;
  remaining_ttl = row.remaining;
  available_at = row.available_at;
  expires_at = row.expires_at;
  has_body = ltb 0 row.body_bytes;
  body_bytes = row.body_bytes;
}

abbrev dead_rows_json : List DeadRowView → List DeadRowJson
dead_rows_json [] = []
dead_rows_json (r ∷ rs) = dead_row_json r ∷ dead_rows_json rs

abbrev dead_list_json : ℕ → DeadView → Json
dead_list_json before v = dead_list (record {
  channel_id = v.channel.channel_id;
  before = before;
  has_older = v.has_older;
  dead = dead_rows_json v.rows;
})

abbrev dead_delivery_json : ℕ → ChannelMeta × DeadDelivery → Json
dead_delivery_json now (channel, d) = dead_delivery (record {
  id = d.id;
  message_id = d.message_id;
  channel_id = d.channel_id;
  topic = d.topic;
  channel = d.channel;
  body = d.body;
  body_bytes = d.body_len;
  attempts = d.attempts;
  max_attempts = d.max_attempts;
  available_at = d.available_at;
  expires_at = d.expires_at;
  remaining_ttl = dead_remaining now d.expires_at;
})

module _ {S : Type 0} (store : Store S) (opts : Options) where
  pub api_summary : Action S ApiReply
  unfolding groups_to_json
  api_summary = do
    r ← attempt (load_groups store opts)
    pure (summary_answer (λ groups. summary (groups_to_json groups)) r)

  -- `today` is the day and `now` the time in nanoseconds of the host's clock.
  pub api_topic : ℕ → List ℕ → Action S ApiReply
  unfolding json_answer
  api_topic today id = elim (path_id id) [
    | none ↦ pure missing
    | some topic ↦ do
      r ← attempt (load_topic store opts today topic)
      pure (json_answer topic_json r)
  ]

  pub api_channel : ℕ → List ℕ → Action S ApiReply
  unfolding json_answer
  api_channel today id = elim (path_id id) [
    | none ↦ pure missing
    | some channel ↦ do
      r ← attempt (load_channel store opts today channel)
      pure (json_answer channel_json r)
  ]

  pub api_dead_list : ℕ → List ℕ → List ℕ → Action S ApiReply
  unfolding json_answer
  api_dead_list now id before = elim (path_id id) [
    | none ↦ pure missing
    | some channel ↦ do
      r ← attempt (load_dead_list store opts now channel (dead_before before))
      pure (json_answer (dead_list_json (dead_before before)) r)
  ]

  pub api_dead_delivery : ℕ → List ℕ → List ℕ → Action S ApiReply
  unfolding json_answer
  api_dead_delivery now id delivery = elim (dead_path_ids id delivery) [
    | none ↦ pure missing
    | some (channel, i) ↦ do
      r ← attempt (load_dead_delivery store opts channel i)
      pure (json_answer (dead_delivery_json now) r)
  ]
