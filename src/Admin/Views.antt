-- ===== src/Admin/Views.antt =====
-- admin/admin.go: the view models, and how they are assembled from the rows of the client's reads.
pub mod Window
pub mod Sums
mod Examples
use novaque.Prelude.{
  ℕ, zero, suc, ◌+◌, ◌-◌, String, Option, none, some, List, [], ◌∷◌, ◌==◌, if◌then◌else◌,
}
use novaque.Store.Types.{ChannelInfo, BacklogRow, DailyCounters}

abbrev pub trend_days : ℕ
trend_days = 30

pub record ChannelView : Type 0 where
  pub id : ℕ
  pub name : String
  pub backlog : BacklogRow

pub record TopicGroupView : Type 0 where
  pub id : ℕ
  pub name : String
  pub totals : BacklogRow
  pub channels : List ChannelView

abbrev pub zero_backlog : BacklogRow
zero_backlog = record { channel_id = 0; pending = 0; ready = 0; in_flight = 0; dead = 0 }

-- The map by channel: a later row of a channel replaces an earlier one.
unfoldable pub backlogs_by_channel : List BacklogRow → ℕ → Option BacklogRow
backlogs_by_channel [] channel = none
backlogs_by_channel (b ∷ bs) channel = elim (backlogs_by_channel bs channel) [
  | some later ↦ some later
  | none ↦ if b.channel_id == channel then some b else none
]

-- A missing row reads as zero.
abbrev pub or_zero : Option BacklogRow → BacklogRow
or_zero none = zero_backlog
or_zero (some b) = b

abbrev pub add_backlog : BacklogRow → BacklogRow → BacklogRow
add_backlog totals b = record totals {
  pending = totals.pending + b.pending;
  ready = totals.ready + b.ready;
  in_flight = totals.in_flight + b.in_flight;
  dead = totals.dead + b.dead;
}

-- One pass over the channels, with the totals so far.
unfoldable pub collect :
    ℕ → (ℕ → Option BacklogRow) → List ChannelInfo → BacklogRow → List ChannelView × BacklogRow
collect topic by_channel [] totals = ([], totals)
collect topic by_channel (c ∷ cs) totals =
    let b = or_zero (by_channel c.id) in
    let taken = collect topic by_channel cs (add_backlog totals b) in
    let skipped = collect topic by_channel cs totals in
    if c.topic_id == topic
    then (record { id = c.id; name = c.name; backlog = b } ∷ taken.0, taken.1)
    else skipped

unfoldable pub channels_with_backlog :
    List ChannelInfo → ℕ → (ℕ → Option BacklogRow) → List ChannelView × BacklogRow
unfolding collect
channels_with_backlog channels topic by_channel = collect topic by_channel channels zero_backlog

-- The row of a day, the last one that the rows have.
unfoldable pub by_day : List DailyCounters → ℕ → Option DailyCounters
by_day [] day = none
by_day (r ∷ rs) day = elim (by_day rs day) [
  | some later ↦ some later
  | none ↦ if r.day == day then some r else none
]

abbrev pub zero_day : ℕ → DailyCounters
zero_day day = record {
  day = day;
  publish = 0;
  claim = 0;
  ack = 0;
  requeue = 0;
  dead = 0;
  purge = 0;
}

abbrev pub or_zero_day : ℕ → Option DailyCounters → DailyCounters
or_zero_day day none = zero_day day
or_zero_day day (some r) = record r { day = day }

-- The days `today - i`, `today - i - 1` and so on, `n` of them.
unfoldable pub fill_from : List DailyCounters → ℕ → ℕ → ℕ → List DailyCounters
unfolding by_day
fill_from rows today i zero = []
fill_from rows today i (suc n) =
    or_zero_day (today - i) (by_day rows (today - i)) ∷ fill_from rows today (suc i) n

-- A day is its number of UTC days from the epoch; the window does not reach before it.
unfoldable pub zero_fill_daily : List DailyCounters → ℕ → ℕ → List DailyCounters
unfolding fill_from
zero_fill_daily rows days today = fill_from rows today 0 days
