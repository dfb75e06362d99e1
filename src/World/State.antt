-- ===== src/World/State.antt =====
-- server/world/world.h and server/game/npcs: the world of a match with everybody in it, and what
-- reads it. `who_player` and `who_npc` are the pointers to a `Player` and to an `NPC`, by the key under
-- which the world has them.
use mathlib.Core.Option
use argentum_online_taller_g.Prelude.{
  ℕ, ◌+◌, Bool, true, false, not, ◌&&◌, Option, none, some, List, [], ◌∷◌, Bytes, if◌then◌else◌,
  replicate, Dict, lookup, insert,
}
use argentum_online_taller_g.Prelude.Int.{ℤ, pos, ◌+ℤ◌, ◌-ℤ◌, ◌*ℤ◌, leb_ℤ, ltb_ℤ, eq_ℤ}
use argentum_online_taller_g.Float.{Float}
use argentum_online_taller_g.Config.{Env, Position}
use argentum_online_taller_g.Item.{Item}
use argentum_online_taller_g.Bank.{Bank}
use argentum_online_taller_g.Npc.City.{CityNpc, Shop}
use argentum_online_taller_g.Player.Character.{Character, Player}
use argentum_online_taller_g.World.Clans.{ClanWorld}
use argentum_online_taller_g.World.Map.{
  WorldMap, ZoneType, zone_type_eq, same_position, grid_at, grid_set,
}

-- server/game/npcs/hostile_npc.h.
pub record Hostile : Type 0 where
  pub agility : ℤ
  pub min_damage : ℤ
  pub max_damage : ℤ
  pub attack_range : ℤ
  pub action_timer : Float
  pub allowed_zones : List ZoneType

-- The classes that extend `NPC`.
pub data NpcKind : Type 0 where
  city_npc : CityNpc → NpcKind
  hostile_npc : Hostile → NpcKind

-- server/game/npcs/npc.h; an `NPCType` is its number.
pub record Npc : Type 0 where
  pub character : Character
  pub open character use *
  pub name : Bytes
  pub npc_type : ℕ
  pub defense : ℤ
  pub kind : NpcKind

-- server/game/npcs/npc_template.h.
pub record NpcTemplate : Type 0 where
  pub name : Bytes
  pub npc_type : ℕ
  pub level : ℤ
  pub max_hp : ℤ
  pub defense : ℤ
  pub agility : ℤ
  pub min_damage : ℤ
  pub max_damage : ℤ
  pub attack_range : ℤ
  pub zones : List ZoneType

pub record GroundItem : Type 0 where
  pub gold : ℕ
  pub item : Option Item
  pub quantity : ℤ

pub record PendingResurrection : Type 0 where
  pub timer : Float
  pub destination : Position

-- `std::map<Position, GroundItem>`.
abbrev pub Ground : Type 0
Ground = List (Position × GroundItem)

-- `draws` counts the random numbers that have been drawn.
pub record World : Type 0 where
  pub map : WorldMap
  pub clan_world : ClanWorld
  pub open clan_world use *
  pub occupied : List (List Bool)
  pub npcs : Dict Npc
  pub bank : Bank
  pub npc_spawn_timer : Float
  pub next_npc_id : ℕ
  pub ground_items : Ground
  pub pending_resurrections : Dict PendingResurrection
  pub draws : ℕ

-- What the world is computed with: `rand_int` and `rand_float` are the random numbers by how many
-- were drawn before, `new_address` are the addresses of items that are made, and `level_ups` bounds
-- the loop of level-ups.
pub record Game : Type 0 where
  pub shop : Shop
  pub open shop use *
  pub rand_int : ℕ → ℤ → ℤ → ℤ
  pub rand_float : ℕ → Float → Float → Float
  pub new_address : ℕ → ℕ
  pub templates : List NpcTemplate
  pub level_ups : ℕ

-- Before its city and hostile characters are spawned. 0.0f is the integer 0 as a float.
unfoldable pub empty_world : Env → WorldMap → World
empty_world env m = record {
  map = m;
  clan_world = record { players = []; clans_by_id = []; next_clan_id = 1 };
  occupied = replicate m.height (replicate m.width false);
  npcs = [];
  bank = [];
  npc_spawn_timer = env.ops.of_int (pos 0);
  next_npc_id = 1000;
  ground_items = [];
  pending_resurrections = [];
  draws = 0;
}

-- `operator<` of two positions.
unfoldable pub position_lt : Position → Position → Bool
position_lt p q = if eq_ℤ p.x q.x then ltb_ℤ p.y q.y else ltb_ℤ p.x q.x

-- `ground_items.find`
unfoldable pub ground_at : Position → Ground → Option GroundItem
ground_at p [] = none
ground_at p ((q, g) ∷ ground) = if same_position q p then some g else ground_at p ground

-- `ground_items[p] = g`
unfoldable pub put_ground : Position → GroundItem → Ground → Ground
put_ground p g [] = (p, g) ∷ []
put_ground p g ((q, h) ∷ ground) =
    let rest = put_ground p g ground in
    if same_position q p
    then (p, g) ∷ ground
    else if position_lt p q
    then (p, g) ∷ (q, h) ∷ ground
    else (q, h) ∷ rest

unfoldable pub erase_ground : Position → Ground → Ground
erase_ground p [] = []
erase_ground p ((q, h) ∷ ground) =
    let rest = erase_ground p ground in if same_position q p then rest else (q, h) ∷ rest

pub data Who : Type 0 where
  who_player : ℕ → Who
  who_npc : ℕ → Who

unfoldable pub get_player : ℕ → World → Option Player
get_player i w = lookup i w.players

unfoldable pub player_exists : ℕ → World → Bool
player_exists i w = elim (lookup i w.players) [ none ↦ false | some _ ↦ true ]

unfoldable pub get_npc : ℕ → World → Option Npc
get_npc i w = lookup i w.npcs

-- A player comes before a character of the game with the same id.
unfoldable pub get_character : ℕ → World → Option Who
get_character i w = elim (lookup i w.players) [
  | some _ ↦ some (who_player i)
  | none ↦ elim (lookup i w.npcs) [ some _ ↦ some (who_npc i) | none ↦ none ]
]

-- What a pointer points to, as a `Character`.
unfoldable pub body : Who → World → Option Character
body (who_player i) w = Option.map (λ p. p.character) (lookup i w.players)
body (who_npc i) w = Option.map (λ n. n.character) (lookup i w.npcs)

abbrev pub with_players : Dict Player → World → World
with_players players w = record w { clan_world = record (w.clan_world) { players = players } }

-- A method of the object that a pointer points to.
unfoldable pub adjust {ℓ} : {V : Type ℓ} → ℕ → (V → V) → Dict V → Dict V
adjust k f m = elim (lookup k m) [ none ↦ m | some v ↦ insert k (f v) m ]

unfoldable pub alter_player : ℕ → (Player → Player) → World → World
alter_player i f w = with_players (adjust i f w.players) w

unfoldable pub alter_npc : ℕ → (Npc → Npc) → World → World
alter_npc i f w = record w { npcs = adjust i f w.npcs }

unfoldable pub alter_body : Who → (Character → Character) → World → World
unfolding alter_player alter_npc
alter_body (who_player i) f w = alter_player i (λ p. record p { character = f p.character }) w
alter_body (who_npc i) f w = alter_npc i (λ n. record n { character = f n.character }) w

-- `occupied[y][x]`; outside of the grid it is undefined in C++.
unfoldable pub is_position_occupied : World → Position → Bool
is_position_occupied w p = elim (grid_at w.occupied p) [ none ↦ false | some b ↦ b ]

-- `occupied[y][x] = b`
abbrev pub occupy : Position → Bool → World → World
occupy p b w = record w { occupied = grid_set w.occupied p b }

-- `NPC::can_enter_safe_zones` and `Player::can_enter_safe_zones`.
unfoldable pub can_enter_safe_zones : Who → Bool
can_enter_safe_zones (who_player _) = true
can_enter_safe_zones (who_npc _) = false

-- `std::any_of` over the allowed zones.
unfoldable pub allows : ZoneType → List ZoneType → Bool
allows z [] = false
allows z (a ∷ zones) = if zone_type_eq a z then true else allows z zones

unfoldable pub kind_can_enter : ZoneType → NpcKind → Bool
unfolding allows
kind_can_enter z (city_npc _) = true
kind_can_enter z (hostile_npc h) = allows z h.allowed_zones

-- `can_enter_zone_type`.
unfoldable pub can_enter_zone_type : Who → ZoneType → World → Bool
can_enter_zone_type (who_player i) z w = true
can_enter_zone_type (who_npc i) z w = elim (lookup i w.npcs) [
  | none ↦ true
  | some n ↦ kind_can_enter z n.kind
]

-- The players that are near, in the order of their ids.
unfoldable pub near_loop : Position → ℤ → Dict Player → List (ℕ × Player)
near_loop q limit [] = []
near_loop q limit ((i, p) ∷ players) =
    let dx = p.position.x -ℤ q.x in
    let dy = p.position.y -ℤ q.y in
    let rest = near_loop q limit players in
    if not p.dead && leb_ℤ (dx *ℤ dx +ℤ dy *ℤ dy) limit then (i, p) ∷ rest else rest

-- The range is an `int` that is taken as a `float`.
unfoldable pub get_players_near : Env → Position → ℤ → World → List (ℕ × Player)
unfolding near_loop
get_players_near env q range w =
    near_loop q (env.ops.to_int (env.ops.mul (env.ops.of_int range) (env.ops.of_int range)))
      w.players

unfoldable pub is_hostile : NpcKind → Bool
is_hostile (city_npc _) = false
is_hostile (hostile_npc _) = true

-- A draw of a random number, and the world with one draw more.
unfoldable pub draw_int : Game → ℤ → ℤ → World → ℤ × World
draw_int game low high w = (game.rand_int w.draws low high, record w { draws = w.draws + 1 })

unfoldable pub draw_float : Game → Float → Float → World → Float × World
draw_float game low high w = (game.rand_float w.draws low high, record w { draws = w.draws + 1 })
