-- ===== src/World/Spawning.antt =====
-- server/world/world.cpp: the characters of the cities and the hostile ones are spawned, and `update`,
-- the world's part of a tick.
use argentum_online_taller_g.Prelude.{
  ℕ, zero, suc, ◌+◌, ◌%◌, ◌^◌, Bool, false, not, ◌&&◌, ◌||◌, Option, none, some, List, [], ◌∷◌,
  Bytes, if◌then◌else◌, length, get_elem?, Dict,
}
use argentum_online_taller_g.Prelude.Int.{pos, pos_part, ◌-ℤ◌, leb_ℤ}
use argentum_online_taller_g.Float.{Float}
use argentum_online_taller_g.Config.{Position}
use argentum_online_taller_g.Npc.City.{CityNpc, priest, merchant, banker}
use argentum_online_taller_g.Player.Character.{new_character}
use argentum_online_taller_g.Protocol.Updates.{AttackResult}
use argentum_online_taller_g.World.Cities.{City}
use argentum_online_taller_g.World.Map.{
  WorldMap, ZoneType, is_position_blocked, is_safe, get_zone_type,
}
use argentum_online_taller_g.World.State.{
  World, Game, Npc, NpcTemplate, city_npc, hostile_npc, is_position_occupied, is_hostile, allows,
  draw_int, empty_world,
}
use argentum_online_taller_g.World.Movement.{add_npc}
use argentum_online_taller_g.World.Update.{update_players, update_resurrections, update_npcs}

-- The texts of priest.cpp, merchant.cpp and banker.cpp.
unfoldable pub city_name : CityNpc → Bytes
city_name priest = b'S' ∷ b'a' ∷ b'c' ∷ b'e' ∷ b'r' ∷ b'd' ∷ b'o' ∷ b't' ∷ b'e' ∷ []
city_name merchant = b'C' ∷ b'o' ∷ b'm' ∷ b'e' ∷ b'r' ∷ b'c' ∷ b'i' ∷ b'a' ∷ b'n' ∷ b't' ∷ b'e' ∷ []
city_name banker = b'B' ∷ b'a' ∷ b'n' ∷ b'q' ∷ b'u' ∷ b'e' ∷ b'r' ∷ b'o' ∷ []

-- PRIEST, MERCHANT and BANKER.
unfoldable pub city_type : CityNpc → ℕ
city_type priest = 1
city_type merchant = 2
city_type banker = 3

-- `CityNPC::CityNPC`.
unfoldable pub new_city_npc : ℕ → CityNpc → Position → Npc
unfolding city_name city_type new_character
new_city_npc id city position = record {
  character = new_character id (pos 100) (pos 9999) position;
  name = city_name city;
  npc_type = city_type city;
  defense = pos 9999;
  kind = city_npc city;
}

-- `HostileNPC::HostileNPC` from a template.
unfoldable pub new_hostile_npc : Game → ℕ → NpcTemplate → Position → Npc
unfolding new_character
new_hostile_npc game id t position = record {
  character = new_character id t.level t.max_hp position;
  name = t.name;
  npc_type = t.npc_type;
  defense = t.defense;
  kind = hostile_npc (record {
    agility = t.agility;
    min_damage = t.min_damage;
    max_damage = t.max_damage;
    attack_range = t.attack_range;
    action_timer = game.shop.env.ops.of_int (pos 0);
    allowed_zones = t.zones;
  });
}

-- `add_npc` of a character with the next id, which is a `uint32_t`.
unfoldable pub spawn : (ℕ → Npc) → World → World
spawn make w =
    let id = w.next_npc_id in
    add_npc id (make id) (record w { next_npc_id = (w.next_npc_id + 1) % 2 ^ 32 })

-- Where a hostile character may be spawned.
unfoldable pub suits : List ZoneType → Position → World → Bool
suits zones p w =
    if is_position_blocked w.map p || (is_position_occupied w p || is_safe w.map p)
    then false
    else allows (get_zone_type w.map p) zones

-- The loop over the attempts that are left, and the position it finds.
unfoldable pub attempts_loop : ℕ → Game → List ZoneType → World → Option Position × World
unfolding suits
attempts_loop zero game zones w = (none, w)
attempts_loop (suc k) game zones w =
    let (x, w1) = draw_int game (pos 0) (pos w.map.width -ℤ pos 1) w in
    let (y, w2) = draw_int game (pos 0) (pos w.map.height -ℤ pos 1) w1 in
    let p : Position = record { x = x; y = y } in
    let rest = attempts_loop k game zones w2 in if suits zones p w2 then (some p, w2) else rest

abbrev pub max_attempts : ℕ
max_attempts = 50

unfoldable pub find_random_spawn_position : Game → List ZoneType → World → Option Position × World
unfolding attempts_loop
find_random_spawn_position game zones w = attempts_loop max_attempts game zones w

-- The hostile characters that live.
unfoldable pub count_hostile : Dict Npc → ℕ
count_hostile [] = 0
count_hostile ((i, n) ∷ npcs) =
    (if is_hostile n.kind && not n.dead then 1 else 0) + count_hostile npcs

unfoldable pub spawn_template : Game → NpcTemplate → World → World
unfolding new_hostile_npc spawn
spawn_template game t w =
    let (found, v) = find_random_spawn_position game t.zones w in
    elim found [ none ↦ v | some p ↦ spawn (λ id. new_hostile_npc game id t p) v ]

unfoldable pub try_spawn_npc : Game → World → World
unfolding spawn_template
try_spawn_npc game w =
    let templates = game.templates in
    let (i, v) = draw_int game (pos 0) (pos (length templates) -ℤ pos 1) w in
    let chosen : World = elim (get_elem? templates (pos_part i)) [
      | none ↦ v
      | some t ↦ spawn_template game t v
    ] in
    if leb_ℤ game.shop.env.npc_population_limit (pos (count_hostile w.npcs))
    then w
    else elim templates [ [] ↦ w | _ ∷ _ ↦ chosen ]

unfoldable pub spawn_city : City → World → World
unfolding new_city_npc spawn
spawn_city c w =
    spawn (λ id. new_city_npc id banker c.banker_position)
      (spawn (λ id. new_city_npc id merchant c.merchant_position)
        (spawn (λ id. new_city_npc id priest c.priest_position) w))

unfoldable pub spawn_city_npcs : List City → World → World
unfolding spawn_city
spawn_city_npcs [] w = w
spawn_city_npcs (c ∷ cities) w = spawn_city_npcs cities (spawn_city c w)

-- The loop over the rounds that are left.
unfoldable pub spawn_loop : ℕ → Game → World → World
unfolding try_spawn_npc
spawn_loop zero game w = w
spawn_loop (suc k) game w = spawn_loop k game (try_spawn_npc game w)

unfoldable pub spawn_initial_hostile_npcs : Game → World → World
unfolding spawn_loop
spawn_initial_hostile_npcs game w = spawn_loop (pos_part game.shop.env.npc_population_limit) game w

-- `World::World`.
unfoldable pub new_world : Game → WorldMap → World
unfolding spawn_city_npcs spawn_initial_hostile_npcs empty_world
new_world game m =
    spawn_initial_hostile_npcs game (spawn_city_npcs m.cities (empty_world game.shop.env m))

unfoldable pub update_spawning : Game → Float → World → World
unfolding try_spawn_npc
update_spawning game seconds w =
    let ops = game.shop.env.ops in
    let timer = ops.add w.npc_spawn_timer seconds in
    if ops.le (ops.of_int game.shop.env.npc_spawn_time_seconds) timer
    then try_spawn_npc game (record w { npc_spawn_timer = ops.of_int (pos 0) })
    else record w { npc_spawn_timer = timer }

-- `World::update`.
unfoldable pub update : Game → Float → World → Option (List AttackResult × World)
unfolding update_players update_resurrections update_npcs update_spawning
update game seconds w =
    let env = game.shop.env in
    elim (update_npcs game seconds
      (update_resurrections env seconds (update_players env seconds w))) [
        | none ↦ none
        | some (rs, v) ↦ some (rs, update_spawning game seconds v)
      ]
