-- ===== src/PubSub/Buffers.antt =====
-- The subscribers of a bus and their buffers, however its calls interleave: Publish sends, and Close
-- closes the subscribers, after they have let go of the lock of the bus.
use nimburion.Base.{
  ℕ, ◌+◌, ◌<◌, ◌≤◌, ◌≡◌, refl, sym, ap, subst, Text, List, [], ◌∷◌, ◌++◌, true, false, Bool-cases,
  inl, inr, none, some, Option-cases, ℤ, All, is_empty, length, eq_text, if◌then◌else◌, lookup,
  insert, lookup-insert, lookup-remove, arith,
}
use nimburion.PubSub.{
  Message, Subscriber, InMemoryBus, new_in_memory_bus, members, some_members, with_sub, subscribed,
  subscribe, sent, shut, try_send, close_subscriber, without, forgotten, Leaver, own,
  of_another_bus, of_another_type, unsubscribe, begin_close, received,
}
use nimburion.PubSub.Members.{Distinct, All-later, new-has, All-without, Distinct-without}

pub data Move : InMemoryBus → InMemoryBus → Type 0 where
  subscribes : (b : InMemoryBus) (topic : Text) → Move b (subscribe topic b).1
  unsubscribes :
      (b : InMemoryBus) (topic : Text) (sub : Leaver) → Move b (unsubscribe topic sub b).1
  sends : (b : InMemoryBus) (id : ℕ) (msg : Message) → Move b (try_send id msg b)
  receives : (b : InMemoryBus) (id : ℕ) → Move b (received id b).1
  shuts : (b : InMemoryBus) (id : ℕ) → Move b (close_subscriber id b)
  closes : (b : InMemoryBus) → Move b (begin_close b)

pub data Reaches (b : InMemoryBus) : InMemoryBus → Type 0 where
  here : Reaches b b
  further : {c d : InMemoryBus} → Reaches b c → Move c d → Reaches b d

abbrev IsFitting : Subscriber → Type 0
IsFitting s = length s.ch ≤ s.capacity

-- Every buffer holds no more than its channel was made for; a topic names each of its
-- subscribers once, and none that was never made; a bus that is closed has no subscribers.
pub record IsSound (b : InMemoryBus) : Type 0 where
  pub fitting : (id : ℕ) → length (b.subs id).ch ≤ (b.subs id).capacity
  pub made : (topic : Text) → All (λ i. i < b.next) (members topic b)
  pub distinct : (topic : Text) → Distinct (members topic b)
  pub gone : b.closed ≡ true → (topic : Text) → members topic b ≡ []

length-snoc : (ms : List Message) (m : Message) → length (ms ++ (m ∷ [])) ≡ length ms + 1
length-snoc [] m = omega arith
length-snoc (x ∷ ms) m = omega (arith, length-snoc ms m)

sent-IsFitting : (msg : Message) (s : Subscriber) → IsFitting s → IsFitting (sent msg s)
unfolding sent
sent-IsFitting msg s h = ground (arith, length-snoc s.ch msg)

with_sub-IsFitting :
    (id : ℕ) (s : Subscriber) (b : InMemoryBus) (i : ℕ)
    → IsFitting s
    → IsFitting (b.subs i)
    → IsFitting ((with_sub id s b).subs i)
with_sub-IsFitting id s b i h k = ground (arith, h, k)

with_sub-IsSound :
    (id : ℕ) (s : Subscriber) (b : InMemoryBus)
    → IsFitting s
    → IsSound b
    → IsSound (with_sub id s b)
with_sub-IsSound id s b h v = record {
  fitting = λ i. with_sub-IsFitting id s b i h (v.fitting i);
  made = v.made;
  distinct = v.distinct;
  gone = v.gone;
}

-- The members of a topic once those of one topic are replaced.
replaced :
    (k topic : Text) (ids : List ℕ) (b : InMemoryBus)
    → some_members (lookup k (insert topic ids b.subscribers))
      ≡ (if eq_text topic k then ids else members k b)
replaced k topic ids b = ground (arith, lookup-insert topic k ids b.subscribers)

by_topic :
    (k topic : Text) (ids : List ℕ) (b : InMemoryBus) (P : List ℕ → Type 0)
    → P ids
    → P (members k b)
    → P (some_members (lookup k (insert topic ids b.subscribers)))
by_topic k topic ids b P new old =
    rw (replaced k topic ids b)
      (elim (Bool-cases (eq_text topic k)) [ inl same ↦ rw same new | inr other ↦ rw other old ])

subscribed-IsSound :
    (topic : Text) (b : InMemoryBus) → b.closed ≡ false → IsSound b → IsSound (subscribed topic b)
subscribed-IsSound topic b opened v = record {
  fitting = λ i. with_sub-IsFitting b.next _ b i (omega arith) (v.fitting i);
  made = λ k.
      by_topic k topic (b.next ∷ members topic b) b (λ ids. All (λ i. i < b.next + 1) ids)
        (omega arith, All-later b.next (members topic b) (v.made topic))
        (All-later b.next (members k b) (v.made k));
  distinct = λ k.
      by_topic k topic (b.next ∷ members topic b) b Distinct
        (new-has b.next (members topic b) (v.made topic), v.distinct topic) (v.distinct k);
  gone = λ h. absurd (ground (arith, h, opened));
}

subscribe-IsSound : (topic : Text) (b : InMemoryBus) → IsSound b → IsSound (subscribe topic b).1
subscribe-IsSound topic b v = elim (Bool-cases b.closed) [
  | inl done ↦ subst IsSound (sym (refused done)) v
  | inr opened ↦ subst IsSound (sym (added opened)) (subscribed-IsSound topic b opened v)
]
  where
    refused : b.closed ≡ true → (subscribe topic b).1 ≡ b
    refused h = unfold subscribe in ground (arith, h)

    added : b.closed ≡ false → (subscribe topic b).1 ≡ subscribed topic b
    added h = unfold subscribe in ground (arith, h)

-- The members of a topic behind an Unsubscribe.
left_members :
    (k topic : Text) (id : ℕ) (ids : List ℕ) (b : InMemoryBus)
    → members k (forgotten topic id ids b)
      ≡ (if eq_text topic k then without id ids else members k b)
left_members k topic id ids b = ground (
  arith,
  lookup-insert topic k (without id ids) b.subscribers,
  lookup-remove topic k b.subscribers,
  empty-nil (without id ids),
)
  where
    empty-nil : (l : List ℕ) → is_empty l ≡ true → l ≡ []
    empty-nil [] h = refl
    empty-nil (x ∷ l) h = cc

forgotten-IsSound :
    (topic : Text) (id : ℕ) (ids : List ℕ) (b : InMemoryBus)
    → lookup topic b.subscribers ≡ some ids
    → b.closed ≡ false
    → IsSound b
    → IsSound (forgotten topic id ids b)
forgotten-IsSound topic id ids b found opened v =
    let there : members topic b ≡ ids = rw found refl in
    record {
      fitting = v.fitting;
      made = λ k.
          left k (λ l. All (λ i. i < b.next) l)
            (All-without b.next id ids (subst (λ l. All (λ i. i < b.next) l) there (v.made topic)))
            (v.made k);
      distinct = λ k.
          left k Distinct (Distinct-without id ids (subst Distinct there (v.distinct topic)))
            (v.distinct k);
      gone = λ h. absurd (ground (arith, h, opened));
    }
  where
    left :
        (k : Text) (P : List ℕ → Type 0)
        → P (without id ids)
        → P (members k b)
        → P (members k (forgotten topic id ids b))
    left k P new old =
        rw (left_members k topic id ids b) (elim (Bool-cases (eq_text topic k)) [
          | inl same ↦ rw same new
          | inr other ↦ rw other old
        ])

close_subscriber-IsSound : (id : ℕ) (b : InMemoryBus) → IsSound b → IsSound (close_subscriber id b)
unfolding close_subscriber
close_subscriber-IsSound id b v = with_sub-IsSound id (shut (b.subs id)) b (v.fitting id) v

unsubscribe-IsSound :
    (topic : Text) (sub : Leaver) (b : InMemoryBus)
    → IsSound b
    → IsSound (unsubscribe topic sub b).1
unsubscribe-IsSound topic sub b v = elim (Bool-cases b.closed) [
  | inl done ↦ subst IsSound (sym (refused done)) v
  | inr opened ↦ by_sub sub opened
]
  where
    refused : b.closed ≡ true → (unsubscribe topic sub b).1 ≡ b
    refused h = unfold unsubscribe in ground (arith, h)

    unknown :
        (id : ℕ)
        → b.closed ≡ false
        → lookup topic b.subscribers ≡ none
        → (unsubscribe topic (own id) b).1 ≡ b
    unknown id h m = unfold unsubscribe in ground (arith, h, m)

    known :
        (id : ℕ) (ids : List ℕ)
        → b.closed ≡ false
        → lookup topic b.subscribers ≡ some ids
        → (unsubscribe topic (own id) b).1 ≡ close_subscriber id (forgotten topic id ids b)
    known id ids h m = unfold unsubscribe in ground (arith, h, m)

    elsewhere : b.closed ≡ false → (unsubscribe topic of_another_bus b).1 ≡ b
    elsewhere h = unfold unsubscribe in ground (arith, h)

    foreign : b.closed ≡ false → (unsubscribe topic of_another_type b).1 ≡ b
    foreign h = unfold unsubscribe in ground (arith, h)

    by_sub : (s : Leaver) → b.closed ≡ false → IsSound (unsubscribe topic s b).1
    by_sub of_another_bus opened = subst IsSound (sym (elsewhere opened)) v
    by_sub of_another_type opened = subst IsSound (sym (foreign opened)) v
    by_sub (own id) opened = elim (Option-cases (lookup topic b.subscribers)) [
      | inl missing ↦ subst IsSound (sym (unknown id opened missing)) v
      | inr (ids, found) ↦
          subst IsSound (sym (known id ids opened found))
            (close_subscriber-IsSound id _ (forgotten-IsSound topic id ids b found opened v))
    ]

received-IsSound : (id : ℕ) (b : InMemoryBus) → IsSound b → IsSound (received id b).1
received-IsSound id b v = by_buffer (b.subs id).ch refl
  where
    nothing : (b.subs id).ch ≡ [] → (received id b).1 ≡ b
    nothing h = unfold received in rw (h, received) refl

    first :
        (msg : Message) (rest : List Message)
        → (b.subs id).ch ≡ msg ∷ rest
        → (received id b).1 ≡ with_sub id (record (b.subs id) { ch = rest }) b
    first msg rest h = unfold received in rw (h, received) refl

    by_buffer : (ms : List Message) → (b.subs id).ch ≡ ms → IsSound (received id b).1
    by_buffer [] h = subst IsSound (sym (nothing h)) v
    by_buffer (msg ∷ rest) h = subst IsSound (sym (first msg rest h)) (
        with_sub-IsSound id (record (b.subs id) { ch = rest }) b
          (omega (arith, v.fitting id, ap length h)) v)

begin_close-IsSound : (b : InMemoryBus) → IsSound b → IsSound (begin_close b)
unfolding begin_close lookup
begin_close-IsSound b v = record {
  fitting = v.fitting;
  made = λ k. tt;
  distinct = λ k. tt;
  gone = λ h k. refl;
}

Move-IsSound : {b c : InMemoryBus} → Move b c → IsSound b → IsSound c
unfolding try_send
Move-IsSound (subscribes b topic) v = subscribe-IsSound topic b v
Move-IsSound (unsubscribes b topic sub) v = unsubscribe-IsSound topic sub b v
Move-IsSound (sends b id msg) v =
    with_sub-IsSound id (sent msg (b.subs id)) b (sent-IsFitting msg (b.subs id) (v.fitting id)) v
Move-IsSound (receives b id) v = received-IsSound id b v
Move-IsSound (shuts b id) v = close_subscriber-IsSound id b v
Move-IsSound (closes b) v = begin_close-IsSound b v

reached-IsSound : {b c : InMemoryBus} → Reaches b c → IsSound b → IsSound c
reached-IsSound here v = v
reached-IsSound (further r m) v = Move-IsSound m (reached-IsSound r v)

new-IsSound : (buffer : ℤ) → IsSound (new_in_memory_bus buffer)
unfolding new_in_memory_bus lookup
new-IsSound buffer = record {
  fitting = λ id. omega arith;
  made = λ k. tt;
  distinct = λ k. tt;
  gone = λ h k. refl;
}

-- However subscribing, leaving, sending, reading and closing interleave on a new bus: every buffer
-- holds no more than its channel was made for, a topic names each of its subscribers once, and
-- only such as were made, and a bus that is closed has no subscribers.
pub Reaches-IsSound :
    (buffer : ℤ) {b : InMemoryBus} → Reaches (new_in_memory_bus buffer) b → IsSound b
Reaches-IsSound buffer r = reached-IsSound r (new-IsSound buffer)
