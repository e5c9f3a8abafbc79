-- ===== src/Admin/Heatmap.antt =====
-- admin/heatmap.go: intensity levels and the contribution graph. A day is a number of UTC days.
pub mod Levels
mod Examples
use novaque.Prelude.{
  ℕ, zero, suc, ◌+◌, ◌-◌, ◌*◌, ◌/◌, ◌%◌, ◌^◌, Bool, true, false, ◌||◌, Option, none, some, List, [],
  ◌∷◌, map, ltb, leb, ◌==◌, if◌then◌else◌,
}
use novaque.Prelude.Lists.{length}
use novaque.Store.Types.{DailyCounters}
use mathlib.Core.List.{reverse}

abbrev pub heatmap_scale_floor : ℕ
heatmap_scale_floor = 1000

abbrev pub at_least : ℕ → ℕ → ℕ
at_least lo v = if ltb v lo then lo else v

abbrev pub at_most : ℕ → ℕ → ℕ
at_most hi v = if ltb hi v then hi else v

-- `(value*4 + scale - 1) / scale` on int64, whose sum wraps. Where that is negative the quotient is zero or
-- below, which the callers raise to 1 all the same.
pub quartile : ℕ → ℕ → ℕ
quartile value scale =
    let sum = (value * 4 + scale - 1) % 2 ^ 64 in if ltb sum (2 ^ 63) then sum / scale else 0

-- Quartiles against the row maximum, or against the floor for a quiet row.
pub counter_level : ℕ → ℕ → ℕ
unfolding quartile
counter_level value max =
    if value == 0 || max == 0
    then 0
    else (let scale = at_least heatmap_scale_floor max in
        let lvl = quartile value scale in if ltb lvl 1 then 1 else if ltb 4 lvl then 4 else lvl)

-- Within the row only, and never below 2.
pub dead_counter_level : ℕ → ℕ → ℕ
unfolding quartile
dead_counter_level value max =
    if value == 0 || max == 0 then 0 else at_least 2 (at_most 4 (at_least 1 (quartile value max)))

pub data Metric : Type 0 where
  publish claim ack requeue purge dead : Metric

abbrev pub heatmap_metrics : List Metric
heatmap_metrics = publish ∷ claim ∷ ack ∷ requeue ∷ purge ∷ dead ∷ []

abbrev pub metric_value : Metric → DailyCounters → ℕ
metric_value publish d = d.publish
metric_value claim d = d.claim
metric_value ack d = d.ack
metric_value requeue d = d.requeue
metric_value purge d = d.purge
metric_value dead d = d.dead

abbrev level_fn : Metric → ℕ → ℕ → ℕ
level_fn dead = dead_counter_level
level_fn m = counter_level

pub record MetricCell : Type 0 where
  pub day : ℕ
  pub value : ℕ
  pub level : ℕ

pub record MetricRow : Type 0 where
  pub metric : Metric
  pub cells : List MetricCell

abbrev first_day : ℕ → List DailyCounters → ℕ
first_day d [] = d
first_day d (x ∷ xs) = x.day

pub last_day : ℕ → List DailyCounters → ℕ
last_day d [] = d
last_day d (x ∷ xs) = last_day x.day xs

-- Oldest first: a list whose first day is after its last is turned round.
pub chronological_day_views : List DailyCounters → List DailyCounters
unfolding last_day
chronological_day_views days =
    if ltb (length days) 2
    then days
    else if ltb (last_day 0 days) (first_day 0 days)
    then reverse days
    else days

pub row_max : ℕ → Metric → List DailyCounters → ℕ
row_max acc m [] = acc
row_max acc m (d ∷ ds) = row_max (if ltb acc (metric_value m d) then metric_value m d else acc) m ds

pub metric_row : Metric → List DailyCounters → MetricRow
unfolding row_max counter_level dead_counter_level
metric_row m ds = record {
  metric = m;
  cells =
      map
        (λ d. record {
          day = d.day;
          value = metric_value m d;
          level = level_fn m (metric_value m d) (row_max 0 m ds);
        })
        ds;
}

pub total_publish : List DailyCounters → ℕ
total_publish [] = 0
total_publish (d ∷ ds) = d.publish + total_publish ds

-- `month_labels` marks the columns that get a label: the first, and each where the month changes.
pub record ContributionGraph : Type 0 where
  pub total : ℕ
  pub window_days : ℕ
  pub month_labels : List Bool
  pub metrics : List MetricRow

-- The month of a day is the calendar's, a library call.
module _ (month : ℕ → ℕ) where
  pub label_changes : ℕ → List DailyCounters → List Bool
  label_changes prev [] = []
  label_changes prev (d ∷ ds) =
      (if month d.day == month prev then false else true) ∷ label_changes d.day ds

  pub month_columns : List DailyCounters → List Bool
  unfolding label_changes
  month_columns [] = []
  month_columns (d ∷ ds) = true ∷ label_changes d.day ds

  pub build_contribution_graph : List DailyCounters → ContributionGraph
  unfolding chronological_day_views month_columns metric_row total_publish
  build_contribution_graph days =
      let chrono = chronological_day_views days in
      if ltb 0 (length days)
      then record {
        total = total_publish chrono;
        window_days = length days;
        month_labels = month_columns chrono;
        metrics = map (λ m. metric_row m chrono) heatmap_metrics;
      }
      else record { total = 0; window_days = 0; month_labels = []; metrics = [] }
