-- ===== src/Admin/Pages.antt =====
-- admin/admin.go: the page and form handlers. A handler takes the path values and form values as texts.
use novaque.Prelude.{ℕ, String, none, some, List, [], ◌∷◌, ◌==◌, str_eq, if◌then◌else◌}
use novaque.Prelude.Int.{pos}
use novaque.Prelude.Lists.{length, first}
use novaque.Prelude.Text.{codes, trim_space}
use novaque.Store.Errors.{Result, ok, err, id_not_found}
use novaque.Store.Types.{TopicInfo}
use novaque.Store.Interface.{Store}
use novaque.Action.{Action, pure, attempt, ◌>>=◌}
use novaque.Client.Options.{Options}
use novaque.Client.Reads.{list_topics, create_topic, create_channel, delete_topic, delete_channel}
use novaque.Admin.Prefix.{text, number, path, path_id}
use novaque.Admin.Replies.{
  FormState, name_required, refused, ChannelDetailView, TopicView, confirm_topic, confirm_channel,
  Page, dashboard_page, topic_page, channel_page, confirm_page, Reply, page, error_page, see_other,
}
use novaque.Admin.Loads.{
  name_of, load_groups, load_cluster_days, load_topic_base, load_topic, load_channel_base,
  load_channel,
}

abbrev pub not_found : Reply
not_found = error_page 404 none

-- An unknown id is 404, any other failure 500.
unfoldable pub answer : {A : Type 0} → (A → Page) → Result A → Reply
answer view (ok a) = page (view a)
answer view (err id_not_found) = not_found
answer view (err e) = error_page 500 (some e)

-- Where a missing entity is no error.
abbrev pub done_or_500 : {A : Type 0} → (A → Reply) → Result A → Reply
done_or_500 reply (ok a) = reply a
done_or_500 reply (err e) = error_page 500 (some e)

module _ {S : Type 0} (store : Store S) (opts : Options) (prefix : List ℕ) (today : ℕ) where
  unfoldable pub render_dashboard_form : FormState → Action S Reply
  render_dashboard_form form = do
    r ← attempt (do
      groups ← load_groups store opts
      days ← load_cluster_days store opts today
      pure (dashboard_page groups days form))
    pure (done_or_500 page r)

  pub page_dashboard : Action S Reply
  unfolding render_dashboard_form
  page_dashboard = render_dashboard_form ("", none)

  unfoldable pub render_topic_form : ℕ → FormState → Action S Reply
  unfolding answer
  render_topic_form topic form = do
    r ← attempt (load_topic store opts today topic)
    pure (answer (λ v. topic_page v form) r)

  pub page_topic : List ℕ → Action S Reply
  unfolding render_topic_form
  page_topic id = elim (path_id id) [
    | none ↦ pure not_found
    | some topic ↦ render_topic_form topic ("", none)
  ]

  pub page_channel : List ℕ → Action S Reply
  unfolding answer
  page_channel id = elim (path_id id) [
    | none ↦ pure not_found
    | some channel ↦ do
      r ← attempt (load_channel store opts today channel)
      pure (answer channel_page r)
  ]

  abbrev topic_confirmed : TopicView → Page
  topic_confirmed v = confirm_page (confirm_topic v.id v.name (length v.channels) v.totals)

  pub page_confirm_delete_topic : List ℕ → Action S Reply
  unfolding answer
  page_confirm_delete_topic id = elim (path_id id) [
    | none ↦ pure not_found
    | some topic ↦ do
      r ← attempt (load_topic_base store opts topic)
      pure (answer topic_confirmed r)
  ]

  abbrev channel_confirmed : ChannelDetailView → Page
  channel_confirmed v = confirm_page (confirm_channel v.channel v.backlog)

  pub page_confirm_delete_channel : List ℕ → Action S Reply
  unfolding answer
  page_confirm_delete_channel id = elim (path_id id) [
    | none ↦ pure not_found
    | some channel ↦ do
      r ← attempt (load_channel_base store opts channel)
      pure (answer channel_confirmed r)
  ]

  abbrev pub topic_url : ℕ → List ℕ
  topic_url i = path prefix (text (codes "/topics/") ∷ number i ∷ [])

  abbrev pub channel_url : ℕ → List ℕ
  channel_url i = path prefix (text (codes "/channels/") ∷ number i ∷ [])

  abbrev pub root_url : List ℕ
  root_url = path prefix (text (codes "/") ∷ [])

  created_topic : String → Result ℕ → Action S Reply
  unfolding render_dashboard_form
  created_topic name (ok i) = pure (see_other (topic_url i))
  created_topic name (err e) = render_dashboard_form (name, some (refused e))

  pub form_create_topic : String → Action S Reply
  unfolding render_dashboard_form created_topic
  form_create_topic submitted =
      let name = trim_space submitted in
      if str_eq name ""
      then render_dashboard_form (name, some name_required)
      else do r ← attempt (create_topic store opts name); created_topic name r

  created_channel : ℕ → String → Result ℕ → Action S Reply
  unfolding render_topic_form
  created_channel topic name (ok i) = pure (see_other (channel_url i))
  created_channel topic name (err e) = render_topic_form topic (name, some (refused e))

  -- The topic's name is known: create the channel under it.
  channel_under : ℕ → String → String → Action S Reply
  unfolding render_topic_form created_channel
  channel_under topic topic_name submitted =
      let name = trim_space submitted in
      if str_eq topic_name ""
      then pure not_found
      else if str_eq name ""
      then render_topic_form topic (name, some name_required)
      else do r ← attempt (create_channel store opts topic_name name); created_channel topic name r

  topic_listed : ℕ → String → Result (List TopicInfo) → Action S Reply
  unfolding channel_under
  topic_listed topic submitted (ok topics) =
      channel_under topic (name_of (first (λ t. t.id == topic) topics)) submitted
  topic_listed topic submitted (err e) = pure (error_page 500 (some e))

  pub form_create_channel : List ℕ → String → Action S Reply
  unfolding topic_listed
  form_create_channel topic_id submitted = elim (path_id topic_id) [
    | none ↦ pure not_found
    | some topic ↦ do r ← attempt (list_topics store opts); topic_listed topic submitted r
  ]

  pub form_delete_topic : List ℕ → Action S Reply
  form_delete_topic id = elim (path_id id) [
    | none ↦ pure not_found
    | some topic ↦ do
      r ← attempt (delete_topic store opts (pos topic))
      pure (done_or_500 (λ _. see_other root_url) r)
  ]

  pub form_delete_channel : List ℕ → Action S Reply
  form_delete_channel id = elim (path_id id) [
    | none ↦ pure not_found
    | some channel ↦ do
      r ← attempt (delete_channel store opts (pos channel))
      pure (done_or_500 (λ _. see_other root_url) r)
  ]
