-- ===== src/Admin/Dead.antt =====
-- admin/dead.go: the dead-letter pages and actions.
pub mod Cursor
pub mod Browse
pub mod Point
mod Examples
use novaque.Prelude.{
  ℕ, suc, ◌+◌, ◌-◌, ◌*◌, ◌/◌, ◌^◌, String, Bool, Option, none, some, List, [], ◌∷◌, ltb, leb, ◌==◌,
  str_eq, if◌then◌else◌,
}
use novaque.Prelude.Int.{ℤ, pos, negsuc}
use novaque.Prelude.Lists.{length, take, first}
use novaque.Prelude.Text.{codes}
use novaque.Store.Errors.{Error, Result, ok, err, id_not_found, dead_gone}
use novaque.Store.Types.{ChannelInfo, DeadDelivery}
use novaque.Store.Interface.{Store}
use novaque.Action.{Action, pure, fail, lift, attempt, ◌>>=◌, ◌>>◌}
use novaque.Client.Options.{Options}
use novaque.Client.Reads.{list_channels, list_dead, requeue_dead, delete_dead}
use novaque.Admin.Prefix.{Part, text, number, path, path_id}
use novaque.Admin.Replies.{
  ChannelMeta, DeadRowView, DeadView, Notice, requeued, deleted, already_gone, Page, dead_page,
  dead_delivery_page, Reply, page, error_page, see_other,
}
use novaque.Admin.Loads.{resolve_channel}
use novaque.Admin.Pages.{not_found, answer}

abbrev pub dead_page_size : ℕ
dead_page_size = 50

abbrev pub dead_body_truncate : ℕ
dead_body_truncate = 4096

abbrev pub nanos : ℕ
nanos = 1_000_000_000

-- Rounded to whole seconds, with `now` in nanoseconds. The zero time is over.
unfoldable pub dead_remaining : ℕ → Option ℕ → Option ℕ
dead_remaining now none = none
dead_remaining now (some s) =
    if leb (s * nanos) now then none else some ((s * nanos - now + nanos / 2) / nanos)

unfoldable pub new_dead_row_view : ℕ → DeadDelivery → DeadRowView
unfolding dead_remaining
new_dead_row_view now d = record {
  id = d.id;
  message_id = d.message_id;
  body = d.body;
  truncated = ltb (length d.body) d.body_len;
  body_bytes = d.body_len;
  attempts = d.attempts;
  max_attempts = d.max_attempts;
  remaining = dead_remaining now d.expires_at;
  available_at = d.available_at;
  expires_at = d.expires_at;
}

unfoldable pub row_views : ℕ → List DeadDelivery → List DeadRowView
unfolding new_dead_row_view
row_views now [] = []
row_views now (d ∷ ds) = new_dead_row_view now d ∷ row_views now ds

-- The id of the last row.
unfoldable pub last_id : ℕ → List DeadDelivery → ℕ
last_id i [] = i
last_id i (d ∷ ds) = last_id d.id ds

-- The page of the rows that a read of one more row gave.
unfoldable pub dead_view : ChannelMeta → ℕ → ℕ → List DeadDelivery → DeadView
unfolding row_views last_id
dead_view channel now before rows =
    let has_older = ltb dead_page_size (length rows) in
    let shown = (if has_older then take dead_page_size rows else rows) in
    record {
      channel = channel;
      rows = row_views now shown;
      before = before;
      has_older = has_older;
      older_before = (if has_older then last_id 0 shown else 0);
    }

-- `deliveryID + 1` on int64.
abbrev pub after_id : ℕ → ℤ
after_id i = if i == 2 ^ 63 - 1 then negsuc (2 ^ 63 - 1) else pos (i + 1)

-- The ?before= cursor; anything but a positive number is the first page.
unfoldable pub dead_before : List ℕ → ℕ
dead_before s = elim (path_id s) [ none ↦ 0 | some before ↦ before ]

pub dead_notice : String → Option Notice
dead_notice done =
    if str_eq done "requeued"
    then some requeued
    else if str_eq done "deleted"
    then some deleted
    else if str_eq done "already-gone"
    then some already_gone
    else none

-- The row that was asked for is the only one that the read may give.
pub exactly : ChannelMeta → ℕ → List DeadDelivery → Result (ChannelMeta × DeadDelivery)
exactly channel i [] = err id_not_found
exactly channel i (d ∷ ds) = if d.id == i then ok (channel, d) else err id_not_found

-- Both path values, or none.
abbrev pub dead_path_ids : List ℕ → List ℕ → Option (ℕ × ℕ)
dead_path_ids id delivery = elim (path_id id) [
  | none ↦ none
  | some channel ↦ elim (path_id delivery) [ none ↦ none | some i ↦ some (channel, i) ]
]

module _ {S : Type 0} (store : Store S) (opts : Options) where
  unfoldable pub load_dead_list : ℕ → ℕ → ℕ → Action S DeadView
  unfolding dead_view
  load_dead_list now channel before = do
    meta ← resolve_channel store opts channel
    rows ←
        list_dead store opts (pos channel) (pos before) (pos (dead_page_size + 1))
          (pos dead_body_truncate)
    pure (dead_view meta now before rows)

  unfoldable pub load_dead_delivery : ℕ → ℕ → Action S (ChannelMeta × DeadDelivery)
  unfolding exactly
  load_dead_delivery channel i = do
    meta ← resolve_channel store opts channel
    rows ← list_dead store opts (pos channel) (after_id i) (pos 1) (pos 0)
    lift (exactly meta i rows)

  listed : Option ChannelInfo → Action S (Unit {0})
  listed none = fail id_not_found
  listed (some c) = pure tt

  pub require_channel : ℕ → Action S (Unit {0})
  unfolding listed
  require_channel channel = do
    channels ← list_channels store opts
    listed (first (λ c. c.id == channel) channels)

  module _ (prefix : List ℕ) (now : ℕ) where
    pub page_dead : List ℕ → List ℕ → String → Action S Reply
    unfolding load_dead_list
    page_dead id before done = elim (path_id id) [
      | none ↦ pure not_found
      | some channel ↦ do
        r ← attempt (load_dead_list now channel (dead_before before))
        pure (answer (λ v. dead_page v (dead_notice done)) r)
    ]

    abbrev delivery_view : ChannelMeta × DeadDelivery → Page
    delivery_view (channel, d) =
        dead_delivery_page channel (new_dead_row_view now d) d.topic d.channel

    pub page_dead_delivery : List ℕ → List ℕ → Action S Reply
    unfolding load_dead_delivery
    page_dead_delivery id delivery = elim (dead_path_ids id delivery) [
      | none ↦ pure not_found
      | some (channel, i) ↦ do
        r ← attempt (load_dead_delivery channel i)
        pure (answer delivery_view r)
    ]

    abbrev dead_url : ℕ → String → List ℕ
    dead_url channel done = path prefix (
        text (codes "/channels/")
        ∷ number channel
        ∷ text (codes "/dead?done=")
        ∷ text (codes done)
        ∷ [])

    -- A row that is gone counts as done.
    unfoldable pub dead_action_done : ℕ → String → Result (Unit {0}) → Reply
    dead_action_done channel done (ok _) = see_other (dead_url channel done)
    dead_action_done channel done (err dead_gone) = see_other (dead_url channel "already-gone")
    dead_action_done channel done (err e) = error_page 500 (some e)

    unfoldable pub dead_channel_error : Error → Reply
    dead_channel_error id_not_found = not_found
    dead_channel_error e = error_page 500 (some e)

    act_on : ℕ → String → Action S (Unit {0}) → Result (Unit {0}) → Action S Reply
    unfolding dead_action_done dead_channel_error
    act_on channel done action (ok _) = do
      r ← attempt action
      pure (dead_action_done channel done r)
    act_on channel done action (err e) = pure (dead_channel_error e)

    pub form_requeue_dead : List ℕ → List ℕ → Action S Reply
    unfolding require_channel act_on
    form_requeue_dead id delivery = elim (dead_path_ids id delivery) [
      | none ↦ pure not_found
      | some (channel, i) ↦ do
        known ← attempt (require_channel channel)
        act_on channel "requeued" (requeue_dead store opts i channel) known
    ]

    pub form_delete_dead : List ℕ → List ℕ → Action S Reply
    unfolding require_channel act_on
    form_delete_dead id delivery = elim (dead_path_ids id delivery) [
      | none ↦ pure not_found
      | some (channel, i) ↦ do
        known ← attempt (require_channel channel)
        act_on channel "deleted" (delete_dead store opts i channel) known
    ]
