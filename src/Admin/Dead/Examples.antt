-- ===== src/Admin/Dead/Examples.antt =====
-- A channel with two dead rows.
use novaque.Prelude.{ℕ, ◌-◌, ◌^◌, ◌≢◌, ◌==◌, ◌≡◌, refl, some, List, [], ◌∷◌, arith}
use novaque.Prelude.Int.{pos}
use novaque.Prelude.Lists.{first, sort_by}
use novaque.Store.Errors.{ok, err, id_not_found}
use novaque.Store.Types.{DeadDelivery, dead}
use novaque.Sqlite.Schema.{Db, DeliveryRow}
use novaque.Sqlite.Engine.{Tick}
use novaque.Sqlite.Invariant.{IsValid}
use novaque.Sqlite.Fixture.{shop, waiting}
use novaque.Sqlite.Admin.Dead.{select_dead, dead_rows, dead_row}
use novaque.Sqlite.Admin.Dead.Pages.{Desc, dead_letters}
use novaque.Admin.Replies.{ChannelMeta}
use novaque.Admin.Dead.{dead_body_truncate, row_views}
use novaque.Admin.Dead.Point.{found_or_missing, delivery_read, delivery_read-exact}
use novaque.Admin.Dead.Browse.{browse, browse-all}

abbrev lost : DeliveryRow
lost = record waiting { status = dead; attempts = 6 }

abbrev morgue : Db
morgue = record (shop lost) { deliveries = lost ∷ record lost { id = 2 } ∷ []; next_delivery = 3 }

morgue-IsValid : IsValid morgue
morgue-IsValid = record {
  topic_ids = (omega arith, omega arith);
  channel_ids = (omega arith, omega arith);
  message_ids = (omega arith, omega arith);
  delivery_ids = (omega arith, (omega arith, omega arith));
  channel_topics = (refl, tt);
  message_topics = (refl, tt);
  delivery_messages = (refl, (refl, tt));
  delivery_channels = (refl, (refl, tt));
  leases = ((refl, refl, refl), ((refl, refl, refl), tt));
}

abbrev mail : ChannelMeta
mail = record { channel_id = 1; channel_name = "mail"; topic_id = 1; topic_name = "orders" }

abbrev noon : Tick
noon = record { now = 1000; blob = λ i. "" }

abbrev letter : ℕ → DeadDelivery
letter i = record {
  id = i;
  message_id = 1;
  channel_id = 1;
  topic = "orders";
  channel = "mail";
  body = 7 ∷ [];
  body_len = 1;
  status = dead;
  attempts = 6;
  max_attempts = 5;
  available_at = some 900;
  expires_at = some 5000;
}

abbrev letters : List DeadDelivery
letters = letter 2 ∷ letter 1 ∷ []

read_letters : (select_dead 1 (pos 0) 100 dead_body_truncate noon morgue).0 ≡ ok letters
unfolding select_dead dead_rows dead_row sort_by
read_letters = refl

browse-all_example :
    (browse mail 2000 noon morgue 1 3 0 ≡ some (row_views 2000 letters)) × Desc letters
browse-all_example =
    browse-all mail 2000 noon morgue 1 100 letters morgue-IsValid read_letters (omega arith)

delivery_read-exact_example :
    (2 ≢ 2 ^ 63 - 1
      → delivery_read mail noon morgue 1 2
        ≡ found_or_missing mail (first (λ r. r.id == 2) (dead_letters morgue 0 1)))
    × (2 ≡ 2 ^ 63 - 1 → delivery_read mail noon morgue 1 2 ≡ err id_not_found)
delivery_read-exact_example = delivery_read-exact mail noon morgue 1 2 morgue-IsValid
