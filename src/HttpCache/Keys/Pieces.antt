-- ===== src/HttpCache/Keys/Pieces.antt =====
-- What a key tells apart: an escaped value never holds a mark that stands between the parts.
use mathlib.Core.List.{append_assoc, reverse-append, reverse-cons, reverse-reverse}
use nimburion.Base.{
  ℕ, ◌+◌, ◌-◌, ◌*◌, ◌/◌, ◌%◌, ◌≡◌, ◌≢◌, refl, sym, ap, ◌∙◌, Text, List, [], ◌∷◌, ◌++◌, reverse, ltb,
  ◌==◌, if◌then◌else◌, All, All-append, arith,
}
use nimburion.Policy.{join}
use nimburion.HttpCache.Keys.{upper_hex, escape_bytes, utf8, query_escape}
use nimburion.HttpCache.Keys.Runes.{utf8-injective}

-- The text does not hold the character.
abbrev pub Lacks : ℕ → Text → Type 0
Lacks mark = All (λ c. c ≢ mark)

abbrev lower_hex : ℕ → ℕ
lower_hex d = if ltb d 58 then d - 48 else d - 55

upper-lower_hex : (d : ℕ) → lower_hex (upper_hex d) ≡ d
upper-lower_hex d = ground arith

unescape : Text → Text
unescape [] = []
unescape (c ∷ []) = (if c == b'+' then 32 else c) ∷ []
unescape (c ∷ a ∷ []) = (if c == b'+' then 32 else c) ∷ unescape (a ∷ [])
unescape (c ∷ a ∷ b ∷ s) =
    let escaped = unescape s in
    let plain = unescape (a ∷ b ∷ s) in
    if c == b'%'
    then (lower_hex a * 16 + lower_hex b) ∷ escaped
    else (if c == b'+' then 32 else c) ∷ plain

unescape-cons :
    (c : ℕ) (s : Text) → c ≢ b'%' → unescape (c ∷ s) ≡ (if c == b'+' then 32 else c) ∷ unescape s
unfolding unescape
unescape-cons c [] h = refl
unescape-cons c (a ∷ []) h = refl
unescape-cons c (a ∷ b ∷ s) h = ground arith

unescape-percent :
    (a b : ℕ) (s : Text)
    → unescape (b'%' ∷ a ∷ b ∷ s) ≡ (lower_hex a * 16 + lower_hex b) ∷ unescape s
unfolding unescape
unescape-percent a b s = refl

hex_digits : (c : ℕ) → lower_hex (upper_hex (c / 16)) * 16 + lower_hex (upper_hex (c % 16)) ≡ c
hex_digits c = omega (arith, upper-lower_hex (c / 16), upper-lower_hex (c % 16))

unescape-escape_bytes : (s : Text) → unescape (escape_bytes s) ≡ s
unfolding escape_bytes
unescape-escape_bytes [] = unfold unescape in refl
unescape-escape_bytes (c ∷ s) =
    let rest = escape_bytes s in
    ground (
      arith,
      unescape-escape_bytes s,
      unescape-cons c rest,
      unescape-cons b'+' rest,
      unescape-percent (upper_hex (c / 16)) (upper_hex (c % 16)) rest,
      hex_digits c,
    )

escape_bytes-injective : (s t : Text) → escape_bytes s ≡ escape_bytes t → s ≡ t
escape_bytes-injective s t h =
    sym (unescape-escape_bytes s) ∙ ap unescape h ∙ unescape-escape_bytes t

pub query_escape-injective : (s t : Text) → query_escape s ≡ query_escape t → s ≡ t
unfolding query_escape
query_escape-injective s t h = utf8-injective s t (escape_bytes-injective (utf8 s) (utf8 t) h)

escape_bytes-Lacks : (s : Text) → Lacks b'=' (escape_bytes s)
unfolding escape_bytes
escape_bytes-Lacks [] = tt
escape_bytes-Lacks (c ∷ s) = let rest = escape_bytes-Lacks s in ground (arith, rest)

-- An escaped value holds no `=`.
pub query_escape-Lacks : (s : Text) → Lacks b'=' (query_escape s)
unfolding query_escape
query_escape-Lacks s = escape_bytes-Lacks (utf8 s)

-- The first mark in a text is found again.
pub first_mark :
    (mark : ℕ) (s t a b : Text)
    → s ++ (mark ∷ a) ≡ t ++ (mark ∷ b)
    → Lacks mark s
    → Lacks mark t
    → (s ≡ t) × (a ≡ b)
first_mark mark [] [] a b e hs ht = (refl, cc)
first_mark mark [] (c ∷ t) a b e hs ht = ground (arith, ht.0)
first_mark mark (c ∷ s) [] a b e hs ht = ground (arith, hs.0)
first_mark mark (c ∷ s) (d ∷ t) a b e hs ht =
    let (p, q) = first_mark mark s t a b (cc) hs.1 ht.1 in (cc, q)

Lacks-reverse : (mark : ℕ) (s : Text) → Lacks mark s → Lacks mark (reverse s)
Lacks-reverse mark [] h = tt
Lacks-reverse mark (c ∷ s) h =
    rw (reverse-cons c s) (All-append _ (reverse s) (c ∷ []) (Lacks-reverse mark s h.1) (h.0, tt))

reverse-mark : (mark : ℕ) (a s : Text) → reverse (a ++ (mark ∷ s)) ≡ reverse s ++ (mark ∷ reverse a)
reverse-mark mark a s = simp (reverse-append, reverse-cons, append_assoc)

reverse-injective : (s t : Text) → reverse s ≡ reverse t → s ≡ t
reverse-injective s t h = sym (reverse-reverse s) ∙ ap reverse h ∙ reverse-reverse t

-- So is the last.
pub last_mark :
    (mark : ℕ) (a b s t : Text)
    → a ++ (mark ∷ s) ≡ b ++ (mark ∷ t)
    → Lacks mark s
    → Lacks mark t
    → (a ≡ b) × (s ≡ t)
last_mark mark a b s t e hs ht =
    let (p, q) =
      first_mark mark (reverse s) (reverse t) (reverse a) (reverse b)
        (sym (reverse-mark mark a s) ∙ ap reverse e ∙ reverse-mark mark b t)
        (Lacks-reverse mark s hs) (Lacks-reverse mark t ht) in
    (reverse-injective a b q, reverse-injective s t p)

-- strings.Join with one more part.
pub join-append :
    (mark p q : Text) (ps : List Text)
    → join mark ((p ∷ ps) ++ (q ∷ [])) ≡ join mark (p ∷ ps) ++ (mark ++ q)
unfolding join
join-append mark p q [] = refl
join-append mark p q (r ∷ ps) =
    ap (λ t. p ++ (mark ++ t)) (join-append mark r q ps) ∙ simp append_assoc
