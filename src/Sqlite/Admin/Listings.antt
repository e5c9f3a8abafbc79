-- ===== src/Sqlite/Admin/Listings.antt =====
-- driver/sqlite/admin.go: topic and channel listings and the batched backlogs.
use novaque.Prelude.{
  ℕ, String, Bool, true, false, ◌&&◌, ◌||◌, none, some, List, [], ◌∷◌, map, ltb, ◌==◌,
  if◌then◌else◌,
}
use novaque.Prelude.Int.{ℤ, positive?}
use novaque.Prelude.Lists.{select, exists, list_eq, sort_by}
use novaque.Store.Errors.{ok, invalid_id}
use novaque.Store.Types.{TopicInfo, ChannelInfo, BacklogRow, ChannelBacklog}
use novaque.Action.{Action, fail}
use novaque.Sqlite.Schema.{Db, TopicRow, ChannelRow, DeliveryRow, topic_by_id}
use novaque.Sqlite.Engine.{Env, World, Stmt, autocommit}
use novaque.Prelude.Text.{codes}
use novaque.Sqlite.Stats.{backlog_of}

-- The BINARY order of texts, which for names is the order of their bytes.
pub codes_leb : List ℕ → List ℕ → Bool
codes_leb [] bs = true
codes_leb (a ∷ as') [] = false
codes_leb (a ∷ as') (b ∷ bs) = ltb a b || a == b && codes_leb as' bs

pub select_topics : Stmt (List TopicInfo)
unfolding codes_leb
select_topics t db = (
  ok (
      map (λ r. record { id = r.id; name = r.name })
        (sort_by (λ a b. codes_leb (codes a.name) (codes b.name)) db.topics)),
  db,
)

-- The inner join with the topics: a channel row and its topic's name.
pub with_topic : List TopicRow → List ChannelRow → List (String × ChannelRow)
unfolding topic_by_id
with_topic ts [] = []
with_topic ts (c ∷ cs) = elim (topic_by_id ts c.topic_id) [
  | none ↦ with_topic ts cs
  | some t ↦ (t.name, c) ∷ with_topic ts cs
]

-- ORDER BY t.name ASC, c.name ASC
abbrev by_names : (String × ChannelRow) → (String × ChannelRow) → Bool
by_names a b =
    if list_eq (codes a.0) (codes b.0)
    then codes_leb (codes a.1.name) (codes b.1.name)
    else codes_leb (codes a.0) (codes b.0)

pub select_channels : Stmt (List ChannelInfo)
unfolding codes_leb with_topic
select_channels t db = (
  ok (
      map (λ j. record { id = j.1.id; topic_id = j.1.topic_id; name = j.1.name })
        (sort_by by_names (with_topic db.topics db.channels))),
  db,
)

abbrev pub backlog_row : ℕ → ChannelBacklog → BacklogRow
backlog_row c b = record {
  channel_id = c;
  pending = b.pending;
  ready = b.ready;
  in_flight = b.in_flight;
  dead = b.dead;
}

-- The distinct channel ids, ascending.
pub insert_id : ℕ → List ℕ → List ℕ
insert_id a [] = a ∷ []
insert_id a (b ∷ bs) = if a == b then b ∷ bs else if ltb a b then a ∷ b ∷ bs else b ∷ insert_id a bs

pub group_ids : List DeliveryRow → List ℕ
unfolding insert_id
group_ids [] = []
group_ids (d ∷ ds) = insert_id d.channel_id (group_ids ds)

-- GROUP BY channel_id ORDER BY channel_id ASC, with the shared select list.
pub grouped : ℕ → List DeliveryRow → List BacklogRow
unfolding group_ids backlog_of
grouped now ds =
    map (λ c. backlog_row c (backlog_of now (select (λ d. d.channel_id == c) ds))) (group_ids ds)

pub select_backlogs : Stmt (List BacklogRow)
unfolding grouped
select_backlogs t db = (ok (grouped t.now db.deliveries), db)

abbrev pub channel_under : Db → ℕ → ℕ → Bool
channel_under db topic channel = exists (λ c. c.id == channel && c.topic_id == topic) db.channels

pub select_backlogs_for : ℕ → Stmt (List BacklogRow)
unfolding grouped
select_backlogs_for topic t db =
    (ok (grouped t.now (select (λ d. channel_under db topic d.channel_id) db.deliveries)), db)

module _ (env : Env) where
  pub list_topics : Action World (List TopicInfo)
  unfolding select_topics
  list_topics = autocommit env select_topics

  pub list_channels : Action World (List ChannelInfo)
  unfolding select_channels
  list_channels = autocommit env select_channels

  pub backlogs : Action World (List BacklogRow)
  unfolding select_backlogs
  backlogs = autocommit env select_backlogs

  pub backlogs_for_topic : ℤ → Action World (List BacklogRow)
  unfolding select_backlogs_for
  backlogs_for_topic topic = elim (positive? topic) [
    | none ↦ fail invalid_id
    | some i ↦ autocommit env (select_backlogs_for i)
  ]
