-- ===== src/Examples/Clans.antt =====
-- A clan of at most three, founded by player 1: players 2 and 3 ask to join, 2 is accepted, 3 is
-- banned.
use argentum_online_taller_g.Prelude.{[], ◌∷◌, List, arith}
use argentum_online_taller_g.Prelude.Int.{pos}
use argentum_online_taller_g.Clan.{
  Clan, ClanStep, new_clan, apply, apply_all, request_join_step, accept_step, ban_step, leave_step,
}
use argentum_online_taller_g.Clan.Valid.{IsValid, apply_all-IsValid}
use argentum_online_taller_g.Clan.Standing.{Follows, apply-Follows}

abbrev history : List ClanStep
history = request_join_step 2 ∷ request_join_step 3 ∷ accept_step 1 2 ∷ ban_step 1 3 ∷ []

abbrev guild : Clan
guild = apply_all (pos 3) history (new_clan 5 (b'g' ∷ []) 1)

apply_all-IsValid_example : IsValid (pos 3) guild
apply_all-IsValid_example = apply_all-IsValid (pos 3) history 5 (b'g' ∷ []) 1 (ground arith)

-- Player 2 leaves it.
apply-Follows_example : Follows (pos 3) (leave_step 2) guild (apply (pos 3) (leave_step 2) guild)
apply-Follows_example =
    apply-Follows (pos 3) (leave_step 2) guild
      (apply_all-IsValid (pos 3) history 5 (b'g' ∷ []) 1 (ground arith))
