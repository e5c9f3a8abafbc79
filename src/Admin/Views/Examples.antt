-- ===== src/Admin/Views/Examples.antt =====
-- A window of three days with one row, and a topic with two channels.
use novaque.Prelude.{ℕ, ◌-◌, ◌<◌, ◌≡◌, none, some, List, [], ◌∷◌, map, ◌==◌, arith}
use novaque.Prelude.Lists.{length, first, select}
use novaque.Store.Types.{ChannelInfo, BacklogRow, DailyCounters}
use novaque.Admin.Views.{
  or_zero, zero_day, backlogs_by_channel, channels_with_backlog, zero_fill_daily,
}
use novaque.Admin.Views.Window.{get_elem?, zero_fill_daily-window}
use novaque.Admin.Views.Sums.{sum_of, channels_with_backlog-sums}

abbrev busy_day : List DailyCounters
busy_day = record (zero_day 99) { publish = 4 } ∷ []

zero_fill_daily-window_example :
    (length (zero_fill_daily busy_day 3 100) ≡ 3)
    × ((k : ℕ)
        → k < 3
        → get_elem? (zero_fill_daily busy_day 3 100) k
          ≡ some (elim (first (λ r. r.day == 100 - k) busy_day) [
            | none ↦ zero_day (100 - k)
            | some r ↦ r
          ]))
zero_fill_daily-window_example =
    zero_fill_daily-window 0 200 busy_day 3 100 (omega arith, omega arith)

abbrev listed : List ChannelInfo
listed =
    record { id = 1; topic_id = 1; name = "mail" }
    ∷ record { id = 2; topic_id = 1; name = "sms" }
    ∷ []

abbrev found : List BacklogRow
found = record { channel_id = 2; pending = 3; ready = 2; in_flight = 1; dead = 0 } ∷ []

channels_with_backlog-sums_example :
    let v = channels_with_backlog listed 1 (backlogs_by_channel found) in
    (v.0
      ≡ map
          (λ c. record {
            id = c.id;
            name = c.name;
            backlog = or_zero (backlogs_by_channel found c.id);
          })
          (select (λ c. c.topic_id == 1) listed))
    × (v.1.pending ≡ sum_of (λ b. b.pending) v.0)
    × (v.1.ready ≡ sum_of (λ b. b.ready) v.0)
    × (v.1.in_flight ≡ sum_of (λ b. b.in_flight) v.0)
    × (v.1.dead ≡ sum_of (λ b. b.dead) v.0)
channels_with_backlog-sums_example = channels_with_backlog-sums 1 (backlogs_by_channel found) listed
