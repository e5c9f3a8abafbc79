-- ===== src/Postgres/Claim/Offered.antt =====
-- What a claim of the PostgreSQL driver hands out.
use novaque.Server.Engine.{Server}
use novaque.Server.Claim.Offered.{Offered}
