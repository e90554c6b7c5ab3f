-- ===== src/PubSub/Delivery.antt =====
-- Who gets a message that is published.
use nimburion.Base.{
  ℕ, ◌≡◌, refl, sym, ap, ◌∙◌, List, [], ◌∷◌, ◌++◌, Bool, true, false, not, ◌&&◌, Bool-cases, inl,
  inr, none, ℤ, ltb, ◌==◌, length, if◌then◌else◌, arith,
}
use nimburion.PubSub.{
  Message, Subscriber, InMemoryBus, new_in_memory_bus, members, sent, try_send, send_all, publish,
}
use nimburion.PubSub.Buffers.{Reaches, Reaches-IsSound}
use nimburion.PubSub.Members.{has, Distinct}

-- The subscriber is open, and its buffer has room.
abbrev pub has_room : Subscriber → Bool
has_room s = not s.closed && ltb (length s.ch) s.capacity

abbrev pub with_message : Message → Subscriber → Subscriber
with_message msg s = record s { ch = s.ch ++ (msg ∷ []) }

sent-has_room :
    (msg : Message) (s : Subscriber) → sent msg s ≡ (if has_room s then with_message msg s else s)
unfolding sent
sent-has_room msg s = ground arith

try_send-subs :
    (id : ℕ) (msg : Message) (b : InMemoryBus) (i : ℕ)
    → (try_send id msg b).subs i ≡ (if i == id then sent msg (b.subs i) else b.subs i)
unfolding try_send
try_send-subs id msg b i = elim (Bool-cases (i == id)) [
  | inl e ↦ rw e (ap (λ (j : ℕ). sent msg (b.subs j)) (sym (same i id e)))
  | inr e ↦ rw e refl
]
  where
    same : (i j : ℕ) → i == j ≡ true → i ≡ j
    same i j e = ground arith

has-cons : (i id : ℕ) (ids : List ℕ) → i == id ≡ true → has id ids ≡ false → has i ids ≡ false
has-cons i id ids e h = let p : i ≡ id = ground arith in rw p h

send_all-subs :
    (ids : List ℕ) (msg : Message) (b : InMemoryBus) (i : ℕ)
    → Distinct ids
    → (send_all ids msg b).subs i ≡ (if has i ids then sent msg (b.subs i) else b.subs i)
unfolding send_all
send_all-subs [] msg b i h = refl
send_all-subs (id ∷ ids) msg b i h = ground (
  arith,
  send_all-subs ids msg (try_send id msg b) i h.1,
  try_send-subs id msg b i,
  has-cons i id ids,
  h.0,
)

send_all-registry :
    (ids : List ℕ) (msg : Message) (b : InMemoryBus)
    → ((send_all ids msg b).subscribers ≡ b.subscribers) × ((send_all ids msg b).closed ≡ b.closed)
unfolding send_all try_send
send_all-registry [] msg b = (refl, refl)
send_all-registry (id ∷ ids) msg b = send_all-registry ids msg (try_send id msg b)

publish-open :
    (msg : Message) (b : InMemoryBus)
    → b.closed ≡ false
    → publish none none msg b ≡ (none, send_all (members msg.topic b) msg b)
unfolding publish
publish-open msg b h = ground (arith, h)

-- On an open bus that its calls have made, where the context is not done and the store takes the
-- message or is not there, a publish succeeds: each subscriber of the topic that is open and has
-- room gets the message once, behind those in its buffer; every other subscriber, and who
-- subscribes to what, stays as it was.
pub publish-delivers :
    (buffer : ℤ) (msg : Message) (b : InMemoryBus)
    → Reaches (new_in_memory_bus buffer) b
    → b.closed ≡ false
    → let (result, c) = publish none none msg b in
      (result ≡ none)
      × ((i : ℕ)
          → c.subs i ≡ (
              if has i (members msg.topic b) && has_room (b.subs i)
              then with_message msg (b.subs i)
              else b.subs i))
      × (c.subscribers ≡ b.subscribers)
publish-delivers buffer msg b r opened =
    let ids = members msg.topic b in
    let v = Reaches-IsSound buffer r in
    let e = publish-open msg b opened in
    (
      ap (λ x. x.0) e,
      (λ i.
          ap (λ x. x.1.subs i) e
          ∙ send_all-subs ids msg b i (v.distinct msg.topic)
          ∙ ground (arith, sent-has_room msg (b.subs i))),
      ap (λ x. x.1.subscribers) e ∙ (send_all-registry ids msg b).0,
    )
