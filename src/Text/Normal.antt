-- ===== src/Text/Normal.antt =====
-- common/string_utils.h: the normal forms of `normalize_name`.
use argentum_online_taller_g.Prelude.{
  ℕ, ◌<◌, ◌≡◌, refl, ap, inl, inr, false, none, some, [], ◌∷◌, arith, ◌==◌, Bytes, Option-cases,
  Bool-cases, true, List, ◌⊎◌, member,
}
use argentum_online_taller_g.Text.{to_lower, base_letter, plain_byte, normalize_name}

-- A byte that stays as it is.
abbrev IsPlain : ℕ → Type 0
IsPlain c = plain_byte c ≡ c

-- No letter follows `c` from which an accent could be taken off.
abbrev NoAccent : ℕ → Bytes → Type 0
NoAccent c [] = Unit {0}
NoAccent c (n ∷ s) = (c == 0xC3) ≡ true → base_letter n ≡ none

-- A text that no step of `normalize_name` changes.
abbrev IsKept : Bytes → Type 0
IsKept [] = Unit {0}
IsKept (c ∷ s) = IsPlain c × NoAccent c s × IsKept s

plain_byte-IsPlain : (c : ℕ) → IsPlain (plain_byte c)
unfolding plain_byte
plain_byte-IsPlain c = ground arith

plain_byte-eq_C3 : (c : ℕ) → (plain_byte c == 0xC3) ≡ true → (c == 0xC3) ≡ true
unfolding plain_byte
plain_byte-eq_C3 c h = ground arith

-- The letters that stand for accented ones are lower case ASCII.
base_letter-lt : (n b : ℕ) → base_letter n ≡ some b → (b < 0x80) × IsPlain b
unfolding base_letter plain_byte
base_letter-lt n b h = ground arith

base_letter-none : (n : ℕ) → n < 0x80 → base_letter n ≡ none
unfolding base_letter
base_letter-none n h = ground arith

base_letter-plain_byte : (n : ℕ) → base_letter n ≡ none → base_letter (plain_byte n) ≡ none
unfolding base_letter plain_byte
base_letter-plain_byte n h = ground arith

abbrev NoAccentHead : Bytes → Type 0
NoAccentHead [] = Unit {0}
NoAccentHead (n ∷ s) = base_letter n ≡ none

NoAccent-of_head : (c : ℕ) (s : Bytes) → NoAccentHead s → NoAccent c s
NoAccent-of_head c [] h = tt
NoAccent-of_head c (n ∷ s) h = λ e. h

NoAccent-of_ne : (c : ℕ) (s : Bytes) → (c == 0xC3) ≡ false → NoAccent c s
NoAccent-of_ne c [] h = tt
NoAccent-of_ne c (n ∷ s) h = λ e. cc

normalize_name-NoAccentHead :
    (n : ℕ) (s : Bytes) → base_letter n ≡ none → NoAccentHead (normalize_name (n ∷ s))
unfolding normalize_name
normalize_name-NoAccentHead n [] h = base_letter-plain_byte n h
normalize_name-NoAccentHead n (m ∷ s) h = elim (Bool-cases (n == 0xC3)) [
  | inl e ↦ elim (Option-cases (base_letter m)) [
    | inl f ↦ rw (e, f) (base_letter-plain_byte n h)
    | inr (b, f) ↦ rw (e, f) (base_letter-none b (base_letter-lt m b f).0)
  ]
  | inr e ↦ rw e (base_letter-plain_byte n h)
]

plain_byte-ne : (c : ℕ) → (c == 0xC3) ≡ false → (plain_byte c == 0xC3) ≡ false
unfolding plain_byte
plain_byte-ne c h = ground arith

lt-ne : (b : ℕ) → b < 0x80 → (b == 0xC3) ≡ false
lt-ne b h = ground arith

normalize_name-IsKept : (s : Bytes) → IsKept (normalize_name s)
unfolding normalize_name
normalize_name-IsKept [] = tt
normalize_name-IsKept (c ∷ []) = (plain_byte-IsPlain c, tt, tt)
normalize_name-IsKept (c ∷ n ∷ s) = elim (Bool-cases (c == 0xC3)) [
  | inl e ↦ elim (Option-cases (base_letter n)) [
    | inl f ↦
        rw (e, f)
          (
            plain_byte-IsPlain c,
            NoAccent-of_head _ _ (normalize_name-NoAccentHead n s f),
            normalize_name-IsKept (n ∷ s),
          )
    | inr (b, f) ↦
        rw (e, f)
          (
            (base_letter-lt n b f).1,
            NoAccent-of_ne b _ (lt-ne b (base_letter-lt n b f).0),
            normalize_name-IsKept s,
          )
  ]
  | inr e ↦
      rw e (
        plain_byte-IsPlain c,
        NoAccent-of_ne _ _ (plain_byte-ne c e),
        normalize_name-IsKept (n ∷ s),
      )
]

-- Such a text is left as it is.
normalize_name-id : (s : Bytes) → IsKept s → normalize_name s ≡ s
unfolding normalize_name
normalize_name-id [] h = refl
normalize_name-id (c ∷ []) h = ap (λ b. b ∷ []) h.0
normalize_name-id (c ∷ n ∷ s) h = ground (arith, h.0, h.1, normalize_name-id (n ∷ s) h.2)

-- Normalising twice is normalising once, for every sequence of bytes, so that names which are
-- stored normalised are found again.
pub normalize_name-idempotent : (s : Bytes) → normalize_name (normalize_name s) ≡ normalize_name s
normalize_name-idempotent s = normalize_name-id (normalize_name s) (normalize_name-IsKept s)

-- The second bytes, in UTF-8, of the accented letters behind 0xC3: À Á È É Ì Í Ò Ó Ù Ú Ü Ñ, and then
-- à á è é ì í ò ó ù ú ü ñ.
abbrev pub accented : List ℕ
accented =
    0x80 ∷ 0x81 ∷ 0x88 ∷ 0x89 ∷ 0x8C ∷ 0x8D ∷ 0x92 ∷ 0x93 ∷ 0x99 ∷ 0x9A ∷ 0x9C ∷ 0x91 ∷ 0xA0 ∷ 0xA1
    ∷ 0xA8 ∷ 0xA9 ∷ 0xAC ∷ 0xAD ∷ 0xB2 ∷ 0xB3 ∷ 0xB9 ∷ 0xBA ∷ 0xBC ∷ 0xB1 ∷ []

-- Not one of `A` to `Z`.
abbrev pub IsNoCapital : ℕ → Type 0
IsNoCapital c = (c < 65) ⊎ (90 < c)

-- The two bytes are not an accented letter.
abbrev pub IsNoAccented : ℕ → ℕ → Type 0
IsNoAccented c n = c ≡ 0xC3 → member n accented ≡ false

-- A text with no upper case ASCII letter, in which no two bytes are an accented letter.
abbrev pub IsNormal : Bytes → Type 0
IsNormal [] = Unit {0}
IsNormal (c ∷ []) = IsNoCapital c
IsNormal (c ∷ n ∷ s) = IsNoCapital c × IsNoAccented c n × IsNormal (n ∷ s)

IsPlain-IsNoCapital : (c : ℕ) → IsPlain c → IsNoCapital c
unfolding plain_byte to_lower
IsPlain-IsNoCapital c h = ground arith

base_letter-accented : (n : ℕ) → base_letter n ≡ none → member n accented ≡ false
unfolding base_letter member
base_letter-accented n h = ground arith

IsKept-IsNormal : (s : Bytes) → IsKept s → IsNormal s
IsKept-IsNormal [] h = tt
IsKept-IsNormal (c ∷ []) h = IsPlain-IsNoCapital c h.0
IsKept-IsNormal (c ∷ n ∷ s) h = (
  IsPlain-IsNoCapital c h.0,
  λ e. base_letter-accented n (h.1 (ground (arith, e))),
  IsKept-IsNormal (n ∷ s) h.2,
)

-- A normalised name has no byte from `A` to `Z` and no two bytes that are, in UTF-8, one of the letters
-- A, E, I, O and U with a grave or an acute accent, U with a diaeresis and N with a tilde, upper or lower
-- case, for every sequence of bytes.
pub normalize_name-IsNormal : (s : Bytes) → IsNormal (normalize_name s)
normalize_name-IsNormal s = IsKept-IsNormal (normalize_name s) (normalize_name-IsKept s)
