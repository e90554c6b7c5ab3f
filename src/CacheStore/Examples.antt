-- ===== src/CacheStore/Examples.antt =====
-- The theorem on the in-process cache store at a small store, and a test of its calls.
use nimburion.Base.{◌≡◌, refl, codes, none, some, pos}
use nimburion.CacheStore.{InMemoryStore, new_in_memory_store, get, set, delete}

abbrev one_item : InMemoryStore
unfolding set
one_item = set (codes "a") (codes "1") (pos 10) (pos 5) new_in_memory_store

get_test : (get (codes "a") (pos 15) one_item).0 ≡ some (codes "1")
unfolding get one_item
get_test = refl

expired_test : get (codes "a") (pos 16) one_item ≡ (none, new_in_memory_store)
unfolding get one_item
expired_test = refl

delete_test : delete (codes "a") one_item ≡ new_in_memory_store
unfolding delete one_item
delete_test = refl
