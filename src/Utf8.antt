-- ===== src/Utf8.antt =====
-- `String::from_utf8`: which bytes are UTF-8.
use quinn_ffi.Prelude.{
  ℕ, zero, suc, Bool, true, false, ◌&&◌, ◌==◌, ltb, leb, List, [], ◌∷◌, Option, none, some,
  if◌then◌else◌,
}

-- What a leading byte asks for: how many bytes follow, and the range of the first of them.
lead : ℕ → Option (ℕ × ℕ × ℕ)
lead b =
    if ltb b 0x80
    then some (0, 0x80, 0xbf)
    else if ltb b 0xc2
    then none
    else if ltb b 0xe0
    then some (1, 0x80, 0xbf)
    else if b == 0xe0
    then some (2, 0xa0, 0xbf)
    else if b == 0xed
    then some (2, 0x80, 0x9f)
    else if ltb b 0xf0
    then some (2, 0x80, 0xbf)
    else if b == 0xf0
    then some (3, 0x90, 0xbf)
    else if ltb b 0xf4
    then some (3, 0x80, 0xbf)
    else if b == 0xf4
    then some (3, 0x80, 0x8f)
    else none

-- The bytes that are still to follow come first, then the range of the next one.
utf8_from : ℕ → ℕ → ℕ → List ℕ → Bool
utf8_from zero lo hi [] = true
utf8_from (suc n) lo hi [] = false
utf8_from zero lo hi (b ∷ r) = elim (lead b) [
  | none ↦ false
  | some (n, lo', hi') ↦ utf8_from n lo' hi' r
]
utf8_from (suc n) lo hi (b ∷ r) =
    let rest = utf8_from n 0x80 0xbf r in leb lo b && (leb b hi && rest)

unfoldable pub is_utf8 : List ℕ → Bool
unfolding lead utf8_from
is_utf8 bs = utf8_from 0 0x80 0xbf bs
