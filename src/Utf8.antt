-- ===== src/Utf8.antt =====
-- Rust's `String` as its UTF-8 bytes: the standard library's `String::from_utf8`,
-- and `s.trim().is_empty()`.
use egg_project.Prelude.{
  ℕ, zero, suc, Bool, true, false, ◌&&◌, ◌||◌, Option, none, some, [], ◌∷◌, leb, ltb, ◌==◌,
  if◌then◌else◌,
}
use egg_project.Bytes.{Bytes}

-- A lead byte says how many bytes follow, and in which range the first of them lies.
lead : ℕ → Option (ℕ × ℕ × ℕ)
lead b =
    if ltb b 0x80
    then some (0, 0x80, 0xbf)
    else if ltb b 0xc2
    then none
    else if ltb b 0xe0
    then some (1, 0x80, 0xbf)
    else if b == 0xe0
    then some (2, 0xa0, 0xbf)
    else if b == 0xed
    then some (2, 0x80, 0x9f)
    else if ltb b 0xf0
    then some (2, 0x80, 0xbf)
    else if b == 0xf0
    then some (3, 0x90, 0xbf)
    else if ltb b 0xf4
    then some (3, 0x80, 0xbf)
    else if b == 0xf4
    then some (3, 0x80, 0x8f)
    else none

utf8_rest : ℕ → ℕ → ℕ → Bytes → Bool
utf8_rest zero lo hi [] = true
utf8_rest (suc n) lo hi [] = false
utf8_rest zero lo hi (b ∷ bs) = elim (lead b) [
  | none ↦ false
  | some (n, lo', hi') ↦ utf8_rest n lo' hi' bs
]
utf8_rest (suc n) lo hi (b ∷ bs) = (leb lo b && leb b hi) && utf8_rest n 0x80 0xbf bs

unfoldable pub is_utf8 : Bytes → Bool
unfolding lead utf8_rest
is_utf8 = utf8_rest 0 0x80 0xbf

-- U+0009 to U+000D and U+0020
white1 : ℕ → Bool
white1 a = (leb 9 a && leb a 13) || (a == 32)

-- U+0085 and U+00A0
white2 : ℕ → ℕ → Bool
white2 a b = (a == 0xc2) && ((b == 0x85) || (b == 0xa0))

-- U+1680, U+2000 to U+200A, U+2028, U+2029, U+202F, U+205F and U+3000
white3 : ℕ → ℕ → ℕ → Bool
white3 a b c =
    ((a == 0xe1) && ((b == 0x9a) && (c == 0x80)))
    || (((a == 0xe2) && ((b == 0x80) && (leb 0x80 c && leb c 0x8a)))
        || (((a == 0xe2) && ((b == 0x80) && ((c == 0xa8) || ((c == 0xa9) || (c == 0xaf)))))
            || (((a == 0xe2) && ((b == 0x81) && (c == 0x9f)))
                || ((a == 0xe3) && ((b == 0x80) && (c == 0x80))))))

-- The characters with the property White_Space, each in its UTF-8 form.
unfoldable pub is_blank : Bytes → Bool
unfolding white1 white2 white3
is_blank [] = true
is_blank (a ∷ []) = white1 a
is_blank (a ∷ b ∷ []) = elim (white1 a) [ true ↦ is_blank (b ∷ []) | false ↦ white2 a b ]
is_blank (a ∷ b ∷ c ∷ bs) = elim (white1 a) [
  | true ↦ is_blank (b ∷ c ∷ bs)
  | false ↦ elim (white2 a b) [
    | true ↦ is_blank (c ∷ bs)
    | false ↦ elim (white3 a b c) [ true ↦ is_blank bs | false ↦ false ]
  ]
]
