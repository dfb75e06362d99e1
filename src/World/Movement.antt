-- ===== src/World/Movement.antt =====
-- server/world/world.cpp: who stands where. Players come and go, characters walk, are teleported and
-- are spawned, and `occupied` says which positions are taken.
use argentum_online_taller_g.Prelude.{
  ℕ, zero, suc, ◌-◌, Bool, true, false, not, ◌&&◌, ◌||◌, Option, none, some, if◌then◌else◌, insert,
  erase, lookup, map,
}
use argentum_online_taller_g.Prelude.Int.{pos, pos_part, ◌+ℤ◌, ◌-ℤ◌}
use argentum_online_taller_g.Config.{Env, Position}
use argentum_online_taller_g.Player.Character.{Player, Direction, up, down, left, right}
use argentum_online_taller_g.World.Map.{
  is_valid_position, is_position_blocked, is_safe, get_zone_type,
}
use argentum_online_taller_g.World.Search.{find_closest_free_position, scan_row}
use argentum_online_taller_g.World.State.{
  World, Who, who_player, Npc, body, alter_body, get_character, player_exists, is_position_occupied,
  occupy, can_enter_safe_zones, can_enter_zone_type, with_players,
}

unfoldable pub calculate_destination : Position → Direction → Position
calculate_destination p up = record p { y = p.y -ℤ pos 1 }
calculate_destination p down = record p { y = p.y +ℤ pos 1 }
calculate_destination p left = record p { x = p.x -ℤ pos 1 }
calculate_destination p right = record p { x = p.x +ℤ pos 1 }

-- The statements that `move_character` and `teleport_player` share: the position that is left is
-- free, and the new one is taken.
unfoldable pub relocate : Who → Position → Position → World → World
relocate who current next w =
    let v = occupy current false w in
    occupy next true (alter_body who (λ c. record c { position = next }) v)

-- The conditions on the position that is entered, in their order.
unfoldable pub may_enter : Who → Position → World → Bool
may_enter who next w =
    if not (is_valid_position w.map next)
    then false
    else if is_position_blocked w.map next
    then false
    else if is_safe w.map next && not (can_enter_safe_zones who)
    then false
    else if not (can_enter_zone_type who (get_zone_type w.map next) w)
    then false
    else not (is_position_occupied w next)

-- Who waits for its resurrection stands still.
unfoldable pub is_pending : ℕ → World → Bool
is_pending id w = elim (lookup id w.pending_resurrections) [ none ↦ false | some _ ↦ true ]

unfoldable pub walk : Who → Position → Direction → World → Bool × World
unfolding may_enter
walk who current dir w =
    let next = calculate_destination current dir in
    if may_enter who next w
    then (
      true,
      alter_body who (λ c. record c { direction = dir; moving = true })
          (relocate who current next w),
    )
    else (false, w)

unfoldable pub move_character : ℕ → Direction → World → Bool × World
unfolding is_pending
move_character id dir w = elim (get_character id w) [
  | none ↦ (false, w)
  | some who ↦
      if is_pending id w
      then (false, w)
      else elim (body who w) [ none ↦ (false, w) | some c ↦ walk who c.position dir w ]
]

-- `reset_player_movement`, on the players.
unfoldable pub still : ℕ × Player → ℕ × Player
still (i, p) = (i, record p { character = record (p.character) { moving = false } })

unfoldable pub reset_player_movement : World → World
unfolding still
reset_player_movement w = with_players (map still w.players) w

unfoldable pub find_closest_unoccupied_position : Position → World → Option Position
find_closest_unoccupied_position start w =
    find_closest_free_position w.map (λ p. not (is_position_occupied w p)) start

unfoldable pub teleport_player : ℕ → Position → World → Bool × World
unfolding find_closest_unoccupied_position
teleport_player id dest w = elim (body (who_player id) w) [
  | none ↦ (false, w)
  | some c ↦ elim (find_closest_unoccupied_position dest w) [
    | none ↦ (false, w)
    | some final_dest ↦ (true, relocate (who_player id) c.position final_dest w)
  ]
]

-- `none` is an exception: the id is taken, or the position is off the map, blocked or occupied.
unfoldable pub add_player : ℕ → Player → World → Option World
add_player id p w =
    if player_exists id w
    then none
    else if not (is_valid_position w.map p.position)
    then none
    else if is_position_blocked w.map p.position
    then none
    else if is_position_occupied w p.position
    then none
    else some (with_players (insert id p w.players) (occupy p.position true w))

unfoldable pub remove_player : ℕ → World → World
remove_player id w = elim (lookup id w.players) [
  | none ↦ w
  | some p ↦
      let v = occupy p.position false w in
      record v {
        clan_world = record (v.clan_world) { players = erase id v.players };
        pending_resurrections = erase id v.pending_resurrections;
      }
]

-- A position that cannot be taken is passed over.
unfoldable pub refused : Npc → World → Bool
refused n w =
    not (is_valid_position w.map n.position)
    || (is_position_blocked w.map n.position || is_position_occupied w n.position)

unfoldable pub add_npc : ℕ → Npc → World → World
unfolding refused
add_npc id n w =
    if refused n w
    then w
    else record w { occupied = (occupy n.position true w).occupied; npcs = insert id n w.npcs }

-- The rows of `get_spawn_position` from `y` on, for the `k` rows that are left; the first begins at
-- column `x`.
unfoldable pub scan_rows : ℕ → ℕ → ℕ → World → Option Position
unfolding scan_row
scan_rows zero y x w = none
scan_rows (suc k) y x w =
    let free =
      λ (p : Position). not (is_position_blocked w.map p) && not (is_position_occupied w p) in
    let here = scan_row (w.map.width - x) x (pos y) free in
    let rest = scan_rows k (suc y) 0 w in elim here [ none ↦ rest | some p ↦ some p ]

-- From the configured position on to the end of the map, and then the rows before it. The position
-- of the configuration has coordinates from 0 on; `none` is an exception.
unfoldable pub get_spawn_position : Env → World → Option Position
unfolding scan_rows
get_spawn_position env w =
    let base = env.config.spawn_position in
    let y = pos_part base.y in
    elim (scan_rows (w.map.height - y) y (pos_part base.x) w) [
      | some p ↦ some p
      | none ↦ scan_rows y 0 0 w
    ]
