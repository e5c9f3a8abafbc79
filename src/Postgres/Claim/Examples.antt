-- ===== src/Postgres/Claim/Examples.antt =====
-- A claim of one waiting delivery on PostgreSQL.
use novaque.Server.Claim.Offered.{Offered}
