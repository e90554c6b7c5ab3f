-- ===== src/Outbox/Examples.antt =====
-- A relay that publishes two of three entries, and one transactional write.
use nimburion.Base.{
  ◌++◌, ◌*◌, ◌≡◌, refl, ◌⊎◌, Text, codes, List, [], ◌∷◌, true, false, Option, none, some, pos,
}
use nimburion.Errors.{Err, message}
use nimburion.Effect.{ok, err}
use nimburion.Transaction.Direct.{direct, direct-IsTransactional}
use nimburion.Outbox.{Record, Entry, validate, PublisherConfig, second, execute_transactional}
use nimburion.Outbox.Relay.{
  Call, publish, fetch_pending, Environment, Relay, poll, clean, tick, run,
}
use nimburion.Outbox.Settling.{IsSettled, run-IsSettled}
use nimburion.Outbox.Relaying.{published, marked, sending, of_valid, tick_tries_all}
use nimburion.Outbox.Writing.{Written, execute_transactional-atomic}

abbrev body : Record
body = record {
  id = codes "r";
  key = [];
  payload = 1 ∷ 2 ∷ [];
  headers = [];
  content_type = codes "application/json";
}

abbrev entry : Text → Text → Entry
entry id topic = record {
  id = id;
  topic = topic;
  payload_record = some body;
  created_at = pos 0;
  available_at = pos 0;
  published = false;
  published_at = none;
  retry_count = pos 2;
  last_error = [];
}

-- The second entry has no topic.
abbrev batch : List Entry
batch = entry (codes "a") (codes "t") ∷ entry (codes "b") [] ∷ entry (codes "c") (codes "down") ∷ []

abbrev config : PublisherConfig
config = record {
  poll_interval = pos second;
  batch_size = pos 100;
  cleanup_every = pos (60 * second);
  cleanup_retention = pos (3600 * second);
  initial_backoff = pos 1000;
  max_backoff = pos 60_000;
}

abbrev relay : Relay
relay = record { config = config; metrics = true }

-- The broker refuses what follows its first message.
abbrev broker : List Call → Option Err
broker (publish topic rec ∷ []) = none
broker (publish topic rec ∷ fetch_pending n now ∷ []) = none
broker _ = some (message (codes "down"))

abbrev environment : Environment
environment = record {
  fetch = λ calls. ok batch;
  publishes = broker;
  marks = λ calls. none;
  cleans = λ calls. ok (pos 0);
  counts = λ calls. ok (pos 1);
  ages = λ calls. err (message (codes "down"));
}

run-IsSettled_example :
    IsSettled environment
      (run environment relay false
        (pos 5)
        (some (poll (pos 9) ∷ clean (pos 10) ∷ [], message (codes "done")))
        []).1
run-IsSettled_example =
    run-IsSettled environment relay false (pos 5)
      (some (poll (pos 9) ∷ clean (pos 10) ∷ [], message (codes "done")))

published_two : of_valid sending batch ≡ (codes "down", some body) ∷ (codes "t", some body) ∷ []
unfolding validate
published_two = refl

tick_tries_all_example :
    let t = tick environment relay (pos 5) [] in
    (t.0 ≡ none)
    × (published t.1 ≡ of_valid sending batch ++ [])
    × (marked t.1 ≡ of_valid (λ e. e.id) batch ++ [])
tick_tries_all_example = tick_tries_all environment relay (pos 5) [] batch refl

-- The database lists the ids of the entries, and the business change puts one of its own.
abbrev insert : Entry → List Text → Option Err × List Text
insert e d = (none, e.id ∷ d)

abbrev change : List Text → Option Err × List Text
change d = (none, codes "order" ∷ d)

execute_transactional-atomic_example :
    let r =
      execute_transactional insert
        (some direct)
        (some (entry (codes "a") (codes "t")))
        (some change)
        [] in
    ((r.0 ≡ none) × Written insert change (entry (codes "a") (codes "t")) [] r.1)
    ⊎ ((g : Err) × (r.0 ≡ some g) × (r.1 ≡ []))
execute_transactional-atomic_example =
    execute_transactional-atomic insert direct (entry (codes "a") (codes "t")) change []
      direct-IsTransactional
