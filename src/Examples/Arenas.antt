-- ===== src/Examples/Arenas.antt =====
-- The world of a match, on a map of three by three with one player.
use argentum_online_taller_g.Prelude.{◌≡◌, ◌⊎◌, refl, true, false, none, some, [], insert, lookup}
use argentum_online_taller_g.Config.{Position}
use argentum_online_taller_g.Player.Character.{right}
use argentum_online_taller_g.World.Map.{
  WorldMap, new_map, is_valid_position, is_position_blocked, cell_at, set_at,
}
use argentum_online_taller_g.World.Search.{find_closest_free_position, is_free}
use argentum_online_taller_g.World.Search.Sound.{IsFree}
use argentum_online_taller_g.World.Search.Total.{find_closest_free_position_total}
use argentum_online_taller_g.World.State.{
  World, Game, empty_world, with_players, occupy, player_exists, is_position_occupied,
}
use argentum_online_taller_g.World.Movement.{add_player, move_character}
use argentum_online_taller_g.World.Places.{IsPlaced}
use argentum_online_taller_g.World.Reach.{here, next, joins, moves, reached-IsPlaced}
use argentum_online_taller_g.Examples.{shop, small_env, origin, ana}

-- Every throw gives the lowest number, and there are no hostile characters.
abbrev small_game : Game
small_game = record {
  shop = shop;
  rand_int = λ n low high. low;
  rand_float = λ n low high. low;
  new_address = λ n. n;
  templates = [];
  level_ups = 3;
}

abbrev small_map : WorldMap
unfolding new_map
small_map = new_map 3 3

with_ana : World
with_ana = with_players (insert 7 ana []) (occupy origin true (empty_world small_env small_map))

ana_joins : add_player 7 ana (empty_world small_env small_map) ≡ some with_ana
unfolding with_ana add_player empty_world player_exists is_position_occupied is_valid_position
    is_position_blocked new_map cell_at set_at insert lookup
ana_joins = refl

-- She joins and goes to the right.
reached-IsPlaced_example : IsPlaced (move_character 7 right with_ana).1
reached-IsPlaced_example =
    reached-IsPlaced small_game small_map (next (next here (joins 7 ana ana_joins)) (moves 7 right))

origin_is_valid : is_valid_position small_map origin ≡ true
unfolding is_valid_position new_map
origin_is_valid = refl

-- From a corner, with every position accepted.
find_closest_free_position_total_example :
    ((p : Position) × (find_closest_free_position small_map (λ p. true) origin ≡ some p)
      × IsFree small_map (λ p. true) p)
    ⊎ ((find_closest_free_position small_map (λ p. true) origin ≡ none)
        × ((p : Position)
            → is_valid_position small_map p ≡ true
            → is_free small_map (λ p. true) p ≡ false))
find_closest_free_position_total_example =
    find_closest_free_position_total small_map (λ p. true) origin origin_is_valid
