-- ===== src/Mysql/Claim/Examples.antt =====
-- A claim of one waiting delivery on MySQL, and the leases that it takes one by one.
use novaque.Prelude.{◌≡◌, refl, [], ◌∷◌}
use novaque.Sqlite.Fixture.{waiting, shop, world}
use novaque.Server.Engine.{begin, query}
use novaque.Server.Claim.Offered.{Offered}
use novaque.Server.Fixture.{calm_server}
use novaque.Mysql.Claim.{lease_each}
use novaque.Postgres.Claim.{lease_all}
use novaque.Mysql.Claim.Batch.{lease_each-Batch}

-- Two ids, of which the second is of no row.
lease_each-Batch_example :
    let s = begin calm_server (world (shop waiting)) in
    let each = lease_each calm_server "worker" 30 (1 ∷ 2 ∷ []) s in
    let all = query calm_server (lease_all "worker" 30 (1 ∷ 2 ∷ [])) s in
    (each.0 ≡ all.0) × (each.1.world.db ≡ all.1.world.db)
lease_each-Batch_example =
    lease_each-Batch calm_server
      (record { up = λ n. refl; alone = λ n ids db. refl; still = λ n. refl }) "worker" 30
      (1 ∷ 2 ∷ []) (begin calm_server (world (shop waiting))) (refl, (refl, tt))
