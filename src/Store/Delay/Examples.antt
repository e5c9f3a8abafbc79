-- ===== src/Store/Delay/Examples.antt =====
-- A delay of thirty seconds of a message that lives for a minute.
use novaque.Prelude.{◌≡◌, ◌↔◌, none}
use novaque.Prelude.Int.{pos}
use novaque.Store.Errors.{ok}
use novaque.Store.Types.{PublishOpts}
use novaque.Store.Delay.{validate_publish_delay}
use novaque.Store.Delay.Window.{Acceptable, validate_publish_delay_iff}

abbrev half_minute : PublishOpts
half_minute = record {
  ttl = pos 60_000_000_000;
  expires_at = none;
  delay = pos 30_000_000_000;
  max_attempts = pos 0;
}

validate_publish_delay_iff_example :
    validate_publish_delay half_minute 1000 ≡ ok tt ↔ Acceptable half_minute 1000
validate_publish_delay_iff_example = validate_publish_delay_iff half_minute 1000
