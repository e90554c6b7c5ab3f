-- ===== src/Outbox/Relaying.antt =====
-- What a tick does for the entries that it fetched, and when a failed entry is due again.
use mathlib.Core.List.{reverse-cons, append_assoc}
use nimburion.Base.{
  reverse, map, Text, ◌++◌, Option, Bool-cases, inl, inr, refl, sym, ap, ◌∙◌, ℕ, ◌+◌, ◌≤◌, ◌<◌,
  List, [], ◌∷◌, none, some, ℤ, pos, ◌≡◌, arith, inc_64-pos, is_none, if◌then◌else◌, All, ◌≤ℤ◌,
  ◌<ℤ◌, ◌+ℤ◌, two_63,
}
use nimburion.Effect.{ok}
use nimburion.Retry.Backoff.{pow-ge-one}
use nimburion.Outbox.{Record, Entry, validate, exponential_backoff}
use nimburion.Outbox.Backoff.{backoff_loop-min}
use nimburion.Outbox.Relay.{
  Call, publish, fetch_pending, mark_published, mark_failed, Environment, Relay, publish_entry,
  publish_all, snapshot, tick, tick_fetched, next_attempt,
}

-- The entries that pass `Validate`, of a list without a nil.
abbrev pub valid_entries : List Entry → List Entry
valid_entries [] = []
valid_entries (e ∷ es) =
    if is_none (validate (some e)) then e ∷ valid_entries es else valid_entries es

-- What was given to the publisher, the last record first.
abbrev pub published : List Call → List (Text × Option Record)
published [] = []
published (publish topic rec ∷ calls) = (topic, rec) ∷ published calls
published (_ ∷ calls) = published calls

abbrev pub sending : Entry → Text × Option Record
sending e = (e.topic, e.payload_record)

-- The ids that were marked, as published or as failed, the last one first.
abbrev pub marked : List Call → List Text
marked [] = []
marked (mark_published id at ∷ calls) = id ∷ marked calls
marked (mark_failed id n next reason ∷ calls) = id ∷ marked calls
marked (_ ∷ calls) = marked calls

-- Something of each valid entry, the last entry first.
abbrev pub of_valid {ℓ} : {A : Type ℓ} → (Entry → A) → List Entry → List A
of_valid f entries = reverse (map f (valid_entries entries))

of_valid-cons {ℓ} :
    {A : Type ℓ} (f : Entry → A) (e : Entry) (es : List Entry) (rest : List A)
    → of_valid f (e ∷ es) ++ rest
      ≡ of_valid f es ++ (if is_none (validate (some e)) then f e ∷ rest else rest)
of_valid-cons f e es rest = elim (Bool-cases (is_none (validate (some e)))) [
  | inl valid ↦ rw valid (simp (reverse-cons, append_assoc))
  | inr invalid ↦ rw invalid refl
]

module _ (env : Environment) (r : Relay) where
  publish_entry-calls :
      (e : Entry) (now : ℤ) (calls : List Call)
      → let after = (publish_entry env r e now calls).1 in
        let valid = is_none (validate (some e)) in
        (published after ≡ (if valid then sending e ∷ published calls else published calls))
        × (marked after ≡ (if valid then e.id ∷ marked calls else marked calls))
  unfolding publish_entry
  publish_entry-calls e now calls = (ground arith, ground arith)

  publish_all-calls :
      (entries : List Entry) (now : ℤ) (calls : List Call)
      → let after = (publish_all env r entries now calls).1 in
        (published after ≡ of_valid sending entries ++ published calls)
        × (marked after ≡ of_valid (λ e. e.id) entries ++ marked calls)
  unfolding publish_all
  publish_all-calls [] now calls = (refl, refl)
  publish_all-calls (e ∷ es) now calls =
      let one = publish_entry-calls e now calls in
      let rest = publish_all-calls es now (publish_entry env r e now calls).1 in
      (
        rest.0
            ∙ ap (λ l. of_valid sending es ++ l) one.0
            ∙ sym (of_valid-cons sending e es (published calls)),
        rest.1
            ∙ ap (λ l. of_valid (λ e. e.id) es ++ l) one.1
            ∙ sym (of_valid-cons (λ e. e.id) e es (marked calls)),
      )

  snapshot-calls :
      (now : ℤ) (calls : List Call)
      → let after = (snapshot env r now calls).1 in
        (published after ≡ published calls) × (marked after ≡ marked calls)
  unfolding snapshot
  snapshot-calls now calls = (ground arith, ground arith)

  -- A tick whose fetch succeeds, with entries none of which is nil, gives the record of each valid
  -- entry to the publisher under the entry's topic, once, in the order of the entries, also behind
  -- entries that fail or are invalid, and marks each valid entry by its id, once, in the same order.
  -- It publishes and marks nothing else, and reports no error.
  pub tick_tries_all :
      (now : ℤ) (calls : List Call) (entries : List Entry)
      → env.fetch (fetch_pending r.config.batch_size now ∷ calls) ≡ ok entries
      → let t = tick env r now calls in
        (t.0 ≡ none)
        × (published t.1 ≡ of_valid sending entries ++ published calls)
        × (marked t.1 ≡ of_valid (λ e. e.id) entries ++ marked calls)
  unfolding tick tick_fetched
  tick_tries_all now calls entries h =
      let asked = fetch_pending r.config.batch_size now ∷ calls in
      let sent = (publish_all env r entries now asked).1 in
      let all = publish_all-calls entries now asked in
      let last = snapshot-calls now sent in
      (ground arith, ground (arith, all.0, last.0), ground (arith, all.1, last.1))

-- A failed entry is due again later than now, and by no more than the limit.
abbrev pub IsScheduled : ℤ → ℕ → Call → Type 0
IsScheduled now m (mark_failed id n next reason) = (now <ℤ next) × (next ≤ℤ now +ℤ pos m)
IsScheduled now m _ = Unit {0}

abbrev pub HasCount : Entry → Type 0
HasCount e = (n : ℕ) × (e.retry_count ≡ pos n) × (n + 1 < two_63)

delay_bounds :
    (now : ℤ) (n i m : ℕ)
    → 0 < i
    → i < 4611686018427387904
    → 0 < m
    → m ≤ 4611686018427387904
    → (now <ℤ now +ℤ exponential_backoff (pos (n + 1)) (pos i) (pos m))
      × (now +ℤ exponential_backoff (pos (n + 1)) (pos i) (pos m) ≤ℤ now +ℤ pos m)
unfolding exponential_backoff ◌+ℤ◌
delay_bounds now n i m a b c d = ground (arith, backoff_loop-min n i m b d, pow-ge-one i n)

module _ (env : Environment) (r : Relay) (i m : ℕ) (starts : r.config.initial_backoff ≡ pos i)
    (ends : r.config.max_backoff ≡ pos m) (i_pos : 0 < i) (i_small : i < 4611686018427387904)
    (m_pos : 0 < m) (m_small : m ≤ 4611686018427387904) where
  publish_entry-IsScheduled :
      (entry : Entry) (now : ℤ) (calls : List Call)
      → HasCount entry
      → All (IsScheduled now m) calls
      → All (IsScheduled now m) (publish_entry env r entry now calls).1
  unfolding publish_entry next_attempt
  publish_entry-IsScheduled entry now calls (n, c, s) h =
      ground (arith, inc_64-pos n s, delay_bounds now n i m i_pos i_small m_pos m_small)

  -- With backoffs between 1 ns and 2^62 ns, whatever fails while the entries of one tick are
  -- published is due again after now, and at most the limit later.
  pub publish_all-IsScheduled :
      (entries : List Entry) (now : ℤ) (calls : List Call)
      → All HasCount entries
      → All (IsScheduled now m) calls
      → All (IsScheduled now m) (publish_all env r entries now calls).1
  unfolding publish_all
  publish_all-IsScheduled [] now calls v h = h
  publish_all-IsScheduled (e ∷ es) now calls v h =
      publish_all-IsScheduled es now (publish_entry env r e now calls).1 v.1
        (publish_entry-IsScheduled e now calls v.0 h)
