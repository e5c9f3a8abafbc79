-- ===== src/Mysql/Histories.antt =====
-- Any sequence of calls of the MySQL driver that change the database, with any failures and any work of
-- other processes in between, inside of its transactions too.
mod Examples
use novaque.Server.Engine.{Server}
