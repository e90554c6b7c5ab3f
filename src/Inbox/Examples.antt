-- ===== src/Inbox/Examples.antt =====
-- A message that is delivered twice, with a database that lists what was handled.
use nimburion.Base.{
  Text, codes, ◌≡◌, ◌≢◌, refl, List, [], ◌∷◌, any, Bool, true, ◌&&◌, Option, none, some, arith, pos,
  eq_text, eq_text_refl,
}
use nimburion.Errors.{Err}
use nimburion.Effect.{ok}
use nimburion.Transaction.Direct.{direct, direct-IsTransactional}
use nimburion.Inbox.{Entry, Writer, validate, execute_transactional}
use nimburion.Inbox.Delivery.{
  Outcome, execute_transactional-Outcome, Remembers, execute_transactional-redelivery,
}

abbrev Database : Type 0
Database = List (Text × Text)

abbrev same : Text → Text → Text × Text → Bool
same consumer id entry = eq_text consumer entry.0 && eq_text id entry.1

abbrev writer : Writer Database
writer = record {
  is_handled = λ consumer id d. ok (any (same consumer id) d);
  insert_received = λ e d. (none, d);
  mark_handled = λ consumer id at d. (none, (consumer, id) ∷ d);
}

writer-Remembers : Remembers writer
writer-Remembers = record {
  recall = λ consumer id at d d' h. ground (arith, eq_text_refl consumer, eq_text_refl id);
}

abbrev entry : Entry
entry = record {
  consumer_name = codes "billing";
  message_id = codes "m1";
  received_at = pos 0;
  handled_at = none;
  status = [];
}

abbrev charge : Database → Option Err × Database
charge d = (none, (codes "charge", codes "m1") ∷ d)

abbrev after : Database
after = (codes "billing", codes "m1") ∷ (codes "charge", codes "m1") ∷ []

first_delivery :
    execute_transactional writer (some direct) (some entry) (pos 5) (pos 6) (some charge) []
    ≡ (ok true, after)
unfolding execute_transactional validate
first_delivery = refl

execute_transactional-Outcome_example :
    Outcome writer entry
      (pos 5)
      (pos 6)
      charge
      []
      (execute_transactional writer (some direct) (some entry) (pos 5) (pos 6) (some charge) [])
execute_transactional-Outcome_example =
    execute_transactional-Outcome writer direct entry (pos 5) (pos 6) charge []
      direct-IsTransactional

execute_transactional-redelivery_example :
    let r =
      execute_transactional writer (some direct) (some entry) (pos 7) (pos 8) (some charge) after in
    (r.1 ≡ after) × (r.0 ≢ ok true)
execute_transactional-redelivery_example =
    execute_transactional-redelivery writer direct entry entry (pos 5) (pos 6) (pos 7) (pos 8)
      charge charge [] after direct-IsTransactional writer-Remembers first_delivery refl refl
