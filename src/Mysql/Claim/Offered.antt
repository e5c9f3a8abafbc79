-- ===== src/Mysql/Claim/Offered.antt =====
-- What a claim of the MySQL driver hands out.
use novaque.Server.Engine.{Server}
use novaque.Server.Claim.Offered.{Offered}
