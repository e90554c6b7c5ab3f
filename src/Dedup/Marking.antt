-- ===== src/Dedup/Marking.antt =====
-- What the duplicate check of dedup.go promises a caller.
use nimburion.Base.{Text, ◌≡◌, true, false, none, some, arith, ℤ, ◌+ℤ◌}
use nimburion.Effect.{ok}
use nimburion.Retry.{positive_or}
use nimburion.Dedup.{Store, check, conclude, check_and_mark, default_retention}

pub record Remembers {D : Type 0} (s : Store D) : Type 0 where
  pub recall :
      (scope key : Text) (now until : ℤ) (d d' : D)
      → s.mark_seen scope key now until d ≡ (none, d')
      → s.is_duplicate scope key d' ≡ ok true

module _ {D : Type 0} (s : Store D) (scope key : Text) (retention now : ℤ) where
  -- A second check behind one that reported `false` reports a duplicate and changes nothing.
  check_and_mark_twice :
      (retention' now' : ℤ) (d d' : D)
      → Remembers s
      → check_and_mark (some s) scope key retention now d ≡ (ok false, d')
      → check_and_mark (some s) scope key retention' now' d' ≡ (ok true, d')
  unfolding check_and_mark check conclude
  check_and_mark_twice retention' now' d d' m h =
      ground (arith, m.recall scope key now (now +ℤ positive_or retention default_retention) d d')
