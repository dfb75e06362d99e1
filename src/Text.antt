-- ===== src/Text.antt =====
-- common/string_utils.h: names are compared after `normalize_name`, which lowers the ASCII letters
-- and takes the accents off the Spanish letters of UTF-8 (0xC3 and a second byte).
pub mod Normal
mod Tests
use argentum_online_taller_g.Prelude.{
  ℕ, ◌+◌, Bool, ◌&&◌, ◌||◌, Option, none, some, List, [], ◌∷◌, ltb, leb, ◌==◌, if◌then◌else◌, Bytes,
}

-- `std::tolower` of the "C" locale, on an ASCII byte.
unfoldable pub to_lower : ℕ → ℕ
to_lower c = if leb b'A' c && leb c b'Z' then c + 32 else c

-- The `switch` on the byte behind 0xC3; `none` is `base == '\0'`.
unfoldable pub base_letter : ℕ → Option ℕ
base_letter n =
    if n == 0x80 || n == 0x81
    then some b'a'
    else if n == 0x88 || n == 0x89
    then some b'e'
    else if n == 0x8C || n == 0x8D
    then some b'i'
    else if n == 0x92 || n == 0x93
    then some b'o'
    else if n == 0x99 || n == 0x9A
    then some b'u'
    else if n == 0x9C
    then some b'u'
    else if n == 0x91
    then some b'n'
    else if n == 0xA0 || n == 0xA1
    then some b'a'
    else if n == 0xA8 || n == 0xA9
    then some b'e'
    else if n == 0xAC || n == 0xAD
    then some b'i'
    else if n == 0xB2 || n == 0xB3
    then some b'o'
    else if n == 0xB9 || n == 0xBA
    then some b'u'
    else if n == 0xBC
    then some b'u'
    else if n == 0xB1
    then some b'n'
    else none

-- The byte that is written where no accent is taken off.
unfoldable pub plain_byte : ℕ → ℕ
unfolding to_lower
plain_byte c = if ltb c 0x80 then to_lower c else c

unfoldable pub normalize_name : Bytes → Bytes
unfolding plain_byte base_letter
normalize_name [] = []
normalize_name (c ∷ []) = plain_byte c ∷ []
normalize_name (c ∷ n ∷ s) =
    let kept = plain_byte c ∷ normalize_name (n ∷ s) in
    let stripped : Option Bytes = elim (base_letter n) [
      | none ↦ none
      | some b ↦ some (b ∷ normalize_name s)
    ] in
    if c == 0xC3 then elim stripped [ none ↦ kept | some r ↦ r ] else kept
