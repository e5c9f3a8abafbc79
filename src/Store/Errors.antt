-- ===== src/Store/Errors.antt =====
-- Errors of the packages store, novaque and admin and of the drivers, and fallible results.

-- What the database engine reports: the primary busy code 5, the stale snapshot 517, the foreign
-- key violation 787, and any other failure.
pub data DbError : Type 0 where
  busy busy_snapshot foreign_key other : DbError

-- Sentinels are constructors. Wrapping by `%w` keeps the sentinel, so it is the sentinel here.
pub data Error : Type 0 where
  topic_gone dead_gone : Error
  delay_negative delay_too_long delay_exceeds_ttl : Error
  invalid_id invalid_name invalid_ttl invalid_days : Error
  lease_mismatch : Error
  context_done : Error
  store_nil handler_nil : Error
  id_not_found : Error
  busy_after_retries : DbError → Error
  engine : DbError → Error

pub data Result (A : Type 0) : Type 0 where
  ok : A → Result A
  err : Error → Result A
