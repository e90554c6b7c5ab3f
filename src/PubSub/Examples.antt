-- ===== src/PubSub/Examples.antt =====
-- The theorems on the in-process bus at a small bus, and tests of its calls.
use nimburion.Base.{
  ℕ, ◌≡◌, refl, Text, codes, [], ◌∷◌, true, ◌&&◌, none, pos, if◌then◌else◌, lookup,
}
use nimburion.PubSub.{
  Message, InMemoryBus, new_in_memory_bus, members, subscribe, publish, own, unsubscribe, close,
}
use nimburion.PubSub.Buffers.{Reaches, here, further, subscribes, IsSound, Reaches-IsSound}
use nimburion.PubSub.Members.{has}
use nimburion.PubSub.Delivery.{has_room, with_message, publish-delivers}

abbrev news : Text
news = codes "news"

abbrev hello : Message
hello = record { topic = news; payload = 104 ∷ []; headers = [] }

-- A bus with one place in each buffer and two subscribers.
abbrev two_readers : InMemoryBus
unfolding subscribe new_in_memory_bus
two_readers = (subscribe news (subscribe news (new_in_memory_bus (pos 1))).1).1

Reaches-two_readers : Reaches (new_in_memory_bus (pos 1)) two_readers
unfolding two_readers
Reaches-two_readers = further (further here (subscribes _ news)) (subscribes _ news)

Reaches-IsSound_example : IsSound two_readers
Reaches-IsSound_example = Reaches-IsSound (pos 1) Reaches-two_readers

publish-delivers_example :
    let (result, c) = publish none none hello two_readers in
    (result ≡ none)
    × ((i : ℕ)
        → c.subs i ≡ (
            if has i (members news two_readers) && has_room (two_readers.subs i)
            then with_message hello (two_readers.subs i)
            else two_readers.subs i))
    × (c.subscribers ≡ two_readers.subscribers)
unfolding subscribe new_in_memory_bus two_readers
publish-delivers_example = publish-delivers (pos 1) hello two_readers Reaches-two_readers refl

-- The second message finds the buffer full.
full_test :
    ((publish none none hello (publish none none hello two_readers).1).1.subs 0).ch ≡ hello ∷ []
unfolding publish subscribe new_in_memory_bus two_readers
full_test = refl

unsubscribe_test : members news (unsubscribe news (own 1) two_readers).1 ≡ 0 ∷ []
unfolding unsubscribe subscribe new_in_memory_bus two_readers lookup
unsubscribe_test = refl

close_test : ((close none two_readers).1.subs 0).closed ≡ true
unfolding close subscribe new_in_memory_bus two_readers
close_test = refl
