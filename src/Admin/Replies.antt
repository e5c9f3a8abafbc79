-- ===== src/Admin/Replies.antt =====
-- admin/: the answers of the handlers, before the templates and the JSON encoder write them.
use novaque.Prelude.{ℕ, String, Bool, Option, List}
use novaque.Store.Errors.{Error}
use novaque.Store.Types.{BacklogRow, DailyCounters}
use novaque.Admin.Views.{ChannelView, TopicGroupView}

-- The id and the names of a channel and its topic.
pub record ChannelMeta : Type 0 where
  pub channel_id : ℕ
  pub channel_name : String
  pub topic_id : ℕ
  pub topic_name : String

-- Why a form is shown again: the name was empty, or the client refused it.
pub data FormError : Type 0 where
  name_required : FormError
  refused : Error → FormError

-- The text that was submitted, and what was wrong with it.
abbrev pub FormState : Type 0
FormState = String × Option FormError

pub record TopicView : Type 0 where
  pub id : ℕ
  pub name : String
  pub totals : BacklogRow
  pub channels : List ChannelView
  pub days : List DailyCounters

pub record ChannelDetailView : Type 0 where
  pub channel : ChannelMeta
  pub backlog : BacklogRow
  pub days : List DailyCounters

-- The remaining time is in whole seconds; a row whose time is over has none.
pub record DeadRowView : Type 0 where
  pub id : ℕ
  pub message_id : ℕ
  pub body : List ℕ
  pub truncated : Bool
  pub body_bytes : ℕ
  pub attempts : ℕ
  pub max_attempts : ℕ
  pub remaining : Option ℕ
  pub available_at : Option ℕ
  pub expires_at : Option ℕ

pub record DeadView : Type 0 where
  pub channel : ChannelMeta
  pub rows : List DeadRowView
  pub before : ℕ
  pub has_older : Bool
  pub older_before : ℕ

-- The ?done= flag of a redirect, as the page shows it.
pub data Notice : Type 0 where
  requeued deleted already_gone : Notice

-- The counts that a confirmation page shows.
pub data ConfirmView : Type 0 where
  confirm_topic : ℕ → String → ℕ → BacklogRow → ConfirmView
  confirm_channel : ChannelMeta → BacklogRow → ConfirmView

pub data Page : Type 0 where
  dashboard_page : List TopicGroupView → List DailyCounters → FormState → Page
  topic_page : TopicView → FormState → Page
  channel_page : ChannelDetailView → Page
  confirm_page : ConfirmView → Page
  dead_page : DeadView → Option Notice → Page
  dead_delivery_page : ChannelMeta → DeadRowView → String → String → Page

-- A page with status 200, the error page with a status, or a redirect with status 303. The error page
-- says "Not found." where it has no error.
pub data Reply : Type 0 where
  page : Page → Reply
  error_page : ℕ → Option Error → Reply
  see_other : List ℕ → Reply
