-- ===== src/Store/Delay.antt =====
-- store/delay.go: publish-time delay and retention in whole seconds.
pub mod Window
mod Examples
use novaque.Prelude.{ℕ, ◌+◌, ◌*◌, ◌/◌, ◌≡◌, Option, none, some, ltb, leb, ◌==◌, if◌then◌else◌}
use novaque.Prelude.Int.{ℤ, pos, negsuc, positive?}
use novaque.Store.Errors.{Result, ok, err, delay_negative, delay_too_long, delay_exceeds_ttl}
use novaque.Store.Types.{PublishOpts}

-- time.Second, in nanoseconds.
abbrev pub second : ℕ
second = 1_000_000_000

abbrev pub max_delay : ℕ
max_delay = 90 * 24 * 3600 * second

abbrev pub default_publish_ttl : ℤ
default_publish_ttl = pos (7 * 24 * 3600 * second)

-- Division rounds towards zero, so that any value below a second gives 1.
unfoldable pub duration_sec : ℤ → ℕ
duration_sec (pos d) = let sec = d / second in if ltb sec 1 then 1 else sec
duration_sec (negsuc d) = 1

unfoldable pub delay_sec : ℤ → ℕ
delay_sec (pos d) = d / second
delay_sec (negsuc d) = 0

-- The TTL if it is positive, else the absolute expiry, else the default TTL.
unfoldable pub expires_at_unix : PublishOpts → ℕ → ℕ
expires_at_unix opts now = elim (positive? opts.ttl) [
  | some d ↦ now + duration_sec (pos d)
  | none ↦ elim opts.expires_at [ some at ↦ at | none ↦ now + duration_sec default_publish_ttl ]
]

check_window : PublishOpts → ℕ → Result (Unit {0})
check_window opts now =
    if delay_sec opts.delay == 0
    then ok tt
    else if leb (expires_at_unix opts now) (now + delay_sec opts.delay)
    then err delay_exceeds_ttl
    else ok tt

check_delay : ℤ → Result (Unit {0}) → Result (Unit {0})
check_delay (negsuc d) rest = err delay_negative
check_delay (pos d) rest = if ltb max_delay d then err delay_too_long else rest

unfoldable pub validate_publish_delay : PublishOpts → ℕ → Result (Unit {0})
unfolding check_window check_delay
validate_publish_delay opts now = check_delay opts.delay (check_window opts now)
