-- ===== src/Sqlite/Fixture/Lives.antt =====
-- The quiet engine leaves every delivery where it is.
use novaque.Sqlite.Lifecycle.{Tracing}
use novaque.Sqlite.Fixture.{calm}
use novaque.Sqlite.Evolution.{Evolves-Preorder, OthersEvolve}

-- There are no other processes.
pub calm-OthersEvolve : {traced : Tracing} → OthersEvolve traced calm
calm-OthersEvolve {traced} = record { keep = λ n db. (Evolves-Preorder traced).same db }
