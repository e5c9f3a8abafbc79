-- ===== src/Client/Finishing/Examples.antt =====
-- An ack that fails twice and then succeeds; the state counts the tries.
use novaque.Prelude.{ℕ, zero, suc, ◌≡◌, refl, Bool, false, [], ◌∷◌}
use novaque.Store.Errors.{ok, err, lease_mismatch}
use novaque.Action.{Action, pure, fail, attempt, ◌>>=◌}
use novaque.Client.Finishing.{settle_try, try_finish, finish_with_retry}
use novaque.Client.Finishing.Tries.{logged, Tried, finish_with_retry-Tried}

abbrev third_time : Action ℕ (Unit {0})
third_time zero = (err lease_mismatch, 1)
third_time (suc zero) = (err lease_mismatch, 2)
third_time (suc (suc n)) = (ok tt, 3)

abbrev lasting : ℕ → Bool
lasting i = false

-- Three tries.
tries_third_time :
    finish_with_retry lasting (logged third_time) (0, [])
    ≡ (ok tt, (3, ok tt ∷ err lease_mismatch ∷ err lease_mismatch ∷ []))
unfolding finish_with_retry try_finish settle_try attempt pure fail ◌>>=◌
tries_third_time = refl

finish_with_retry-Tried_example :
    let ran = finish_with_retry lasting (logged third_time) (0, []) in Tried lasting ran.1.1 ran.0
finish_with_retry-Tried_example = finish_with_retry-Tried lasting third_time 0
