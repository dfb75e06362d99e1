-- ===== src/Text/Tests.antt =====
-- `normalize_name` on concrete names.
use argentum_online_taller_g.Prelude.{◌≡◌, refl, [], ◌∷◌}
use argentum_online_taller_g.Text.{normalize_name}

-- "Báculo" and "BACULO".
accented_name :
    normalize_name (b'B' ∷ 0xC3 ∷ 0xA1 ∷ b'c' ∷ b'u' ∷ b'l' ∷ b'o' ∷ [])
    ≡ b'b' ∷ b'a' ∷ b'c' ∷ b'u' ∷ b'l' ∷ b'o' ∷ []
unfolding normalize_name
accented_name = refl
