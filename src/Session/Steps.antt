-- ===== src/Session/Steps.antt =====
-- Sessions do not disturb each other, and what a load that finds an expired session may destroy.
use nimburion.Base.{
  Text, List, [], ◌∷◌, ◌≡◌, refl, Option, none, some, arith, ℤ, ◌<ℤ◌, ◌+ℤ◌, lookup, lookup-insert,
  lookup-remove, eq_text, eq_text_iff, if◌then◌else◌, ap, ◌∙◌, Option-cases, inl, inr,
}
use nimburion.Session.{Data, Entry, Store, is_expired, peek, evict, load, save, delete, touch}

-- An operation, with the time at which it reads the clock.
pub data Operation : Type 0 where
  loads : Text → ℤ → Operation
  saves : Text → Data → ℤ → ℤ → Operation
  deletes : Text → Operation
  touches : Text → ℤ → ℤ → Operation

unfoldable pub step : Store → Operation → Store
step s (loads id now) = (load id now s).1
step s (saves id values ttl now) = save id values ttl now s
step s (deletes id) = delete id s
step s (touches id ttl now) = (touch id ttl now s).1

unfoldable pub run : Store → List Operation → Store
run s [] = s
run s (o ∷ os) = run (step s o) os

-- What remains of one session at a load, and at a touch.
abbrev kept : ℤ → Option Entry → Option Entry
kept now none = none
kept now (some e) = if is_expired now e then none else some e

abbrev prolonged : ℤ → Option Entry → Option Entry
prolonged until none = none
prolonged until (some e) = some (record e { expires_at = until })

-- The specification of one session: only the operations on its id concern it.
abbrev pub after : Text → Operation → Option Entry → Option Entry
after key (loads id now) e = if eq_text id key then kept now e else e
after key (saves id values ttl now) e =
    if eq_text id key then some (record { values = values; expires_at = now +ℤ ttl }) else e
after key (deletes id) e = if eq_text id key then none else e
after key (touches id ttl now) e = if eq_text id key then prolonged (now +ℤ ttl) e else e

abbrev pub after_all : Text → List Operation → Option Entry → Option Entry
after_all key [] e = e
after_all key (o ∷ os) e = after_all key os (after key o e)

lookup-step :
    (key : Text) (s : Store) (o : Operation) → lookup key (step s o) ≡ after key o (lookup key s)
unfolding step load peek evict save delete touch
lookup-step key s (loads id now) = ground (arith, eq_text_iff id key, lookup-remove id key s)
lookup-step key s (saves id values ttl now) =
    lookup-insert id key (record { values = values; expires_at = now +ℤ ttl }) s
lookup-step key s (deletes id) = lookup-remove id key s
lookup-step key s (touches id ttl now) = elim (Option-cases (lookup id s)) [
  | inl missing ↦ ground (arith, missing, eq_text_iff id key)
  | inr (e, found) ↦
      let e' : Entry = record e { expires_at = now +ℤ ttl } in
      ground (arith, found, eq_text_iff id key, lookup-insert id key e' s)
]

-- After any sequence of operations the store holds of each session what the operations on its
-- own id leave: the last save, with the time of the last touch, unless it was deleted or a load
-- found it expired.
pub lookup-run :
    (key : Text) (s : Store) (os : List Operation)
    → lookup key (run s os) ≡ after_all key os (lookup key s)
unfolding run
lookup-run key s [] = refl
lookup-run key s (o ∷ os) =
    lookup-run key (step s o) os ∙ ap (after_all key os) (lookup-step key s o)

-- A load that finds an expired session deletes whatever the store holds under its id by then: a
-- session that is saved between its two halves is lost.
evict_loses_save :
    (id : Text) (values : Data) (ttl now later : ℤ) (e : Entry) (s : Store)
    → lookup id s ≡ some e
    → e.expires_at <ℤ now
    → lookup id (evict (peek now (lookup id s)).1 id (save id values ttl later s)) ≡ none
unfolding peek evict
evict_loses_save id values ttl now later e s h x =
    ground (arith, eq_text_iff id id, lookup-remove id id (save id values ttl later s))
