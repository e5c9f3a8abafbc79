-- ===== src/Admin/Heatmap/Examples.antt =====
-- Levels of a row whose busiest day has 4000 events.
use novaque.Prelude.{◌≤◌, arith}
use novaque.Admin.Heatmap.{counter_level, dead_counter_level}
use novaque.Admin.Heatmap.Levels.{counter_level_mono, levels-range}

counter_level_mono_example :
    (counter_level 500 4000 ≤ counter_level 3500 4000)
    × (dead_counter_level 500 4000 ≤ dead_counter_level 3500 4000)
counter_level_mono_example = counter_level_mono 500 3500 4000 (omega arith) (omega arith)

levels-range_example :
    (1 ≤ counter_level 500 4000)
    × (counter_level 500 4000 ≤ 4)
    × (2 ≤ dead_counter_level 500 4000)
    × (dead_counter_level 500 4000 ≤ 4)
levels-range_example = levels-range 500 4000 (omega arith) (omega arith)
