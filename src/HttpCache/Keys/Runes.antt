-- ===== src/HttpCache/Keys/Runes.antt =====
-- The UTF-8 that url.QueryEscape escapes: two texts with the same bytes are the same text.
use nimburion.Base.{
  ℕ, ◌+◌, ◌-◌, ◌*◌, ◌≡◌, refl, sym, ap, ◌∙◌, Text, [], ◌∷◌, ◌++◌, ltb, if◌then◌else◌, arith,
}
use nimburion.HttpCache.Keys.{encode_rune, utf8}

-- A text read from its end: the bits of the bytes that continue a character whose first byte is
-- still to come, the weight of the next bits, and the characters that are complete.
record Reading : Type 0 where
  bits : ℕ
  weight : ℕ
  text : Text

abbrev at_start : Text → Reading
at_start text = record { bits = 0; weight = 1; text = text }

abbrev lead_bits : ℕ → ℕ
lead_bits b = if ltb b 224 then b - 192 else if ltb b 240 then b - 224 else b - 240

abbrev read_byte : ℕ → Reading → Reading
read_byte b r =
    if ltb b 128
    then at_start (b ∷ r.text)
    else if ltb b 192
    then record r { bits = r.bits + (b - 128) * r.weight; weight = r.weight * 64 }
    else at_start ((lead_bits b * r.weight + r.bits) ∷ r.text)

reading : Text → Reading
reading [] = at_start []
reading (b ∷ s) = read_byte b (reading s)

reading-encode_rune :
    (c : ℕ) (s t : Text) → reading s ≡ at_start t → reading (encode_rune c ++ s) ≡ at_start (c ∷ t)
unfolding reading encode_rune
reading-encode_rune c s t h = ground (arith, h)

reading-utf8 : (s : Text) → reading (utf8 s) ≡ at_start s
unfolding utf8
reading-utf8 [] = unfold reading in refl
reading-utf8 (c ∷ s) = reading-encode_rune c (utf8 s) s (reading-utf8 s)

pub utf8-injective : (s t : Text) → utf8 s ≡ utf8 t → s ≡ t
utf8-injective s t h = ap (λ r. r.text) (sym (reading-utf8 s) ∙ ap reading h ∙ reading-utf8 t)
