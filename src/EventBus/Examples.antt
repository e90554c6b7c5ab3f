-- ===== src/EventBus/Examples.antt =====
-- A handler that always fails, with the default configuration.
use nimburion.Base.{true, false, some, ◌⊎◌, codes, ◌≡◌, [], ◌∷◌, some, pos}
use nimburion.Errors.{Err, message}
use nimburion.EventBus.{Message}
use nimburion.EventBus.Consume.{consume_with_retry}
use nimburion.EventBus.Delivery.{Rejected, Consumed, consume_with_retry-Consumed}
use nimburion.EventBus.Masking.{failing, default_consumer}

abbrev event : Message
event = record {
  id = codes "m1";
  key = codes "k";
  value = 1 ∷ 2 ∷ [];
  headers = [];
  content_type = codes "application/json";
  timestamp = pos 0;
}

abbrev down : Err
down = message (codes "down")

consume_with_retry-Consumed_example :
    let r =
      consume_with_retry
        (failing down)
        true
        (default_consumer (codes "orders"))
        (some event)
        true
        true
        true
        [] in
    ((true ≡ false) × Rejected [] r)
    ⊎ ((true ≡ true)
        × (m : Message) × (some event ≡ some m)
        × Consumed (failing down) (default_consumer (codes "orders")) m [] r)
consume_with_retry-Consumed_example =
    consume_with_retry-Consumed (failing down) true (default_consumer (codes "orders")) (some event)
      true true true []
