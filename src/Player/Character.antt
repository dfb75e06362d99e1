-- ===== src/Player/Character.antt =====
-- server/game/character.cpp: hit points, position and death, and a player's record.
use argentum_online_taller_g.Prelude.{ℕ, Bool, true, false, not, ◌||◌, Bytes, if◌then◌else◌}
use argentum_online_taller_g.Prelude.Int.{ℤ, pos, ◌+ℤ◌, ◌-ℤ◌, leb_ℤ, ltb_ℤ}
use argentum_online_taller_g.Config.{PlayerRace, PlayerClass, warrior, Position}
use argentum_online_taller_g.Float.{Float}
use argentum_online_taller_g.Inventory.{Inventory}

-- common/direction.h.
pub data Direction : Type 0 where
  up down left right : Direction

pub record Character : Type 0 where
  pub id : ℕ
  pub level : ℤ
  pub current_hp : ℤ
  pub max_hp : ℤ
  pub position : Position
  pub dead : Bool
  pub direction : Direction
  pub moving : Bool

-- `Character::Character`.
unfoldable pub new_character : ℕ → ℤ → ℤ → Position → Character
new_character id level max_hp position = record {
  id = id;
  level = level;
  current_hp = max_hp;
  max_hp = max_hp;
  position = position;
  dead = false;
  direction = down;
  moving = false;
}

unfoldable pub receive_damage : ℤ → Character → Character
receive_damage damage c =
    if leb_ℤ damage (pos 0) || c.dead
    then c
    else let hp = c.current_hp -ℤ damage in
      if leb_ℤ hp (pos 0)
      then record c { current_hp = pos 0; dead = true }
      else record c { current_hp = hp }

-- The hit points that were regained, and the character.
unfoldable pub heal : ℤ → Character → ℤ × Character
heal amount c =
    if leb_ℤ amount (pos 0) || c.dead
    then (pos 0, c)
    else let hp =
        (if ltb_ℤ c.max_hp (c.current_hp +ℤ amount) then c.max_hp else c.current_hp +ℤ amount) in
      (hp -ℤ c.current_hp, record c { current_hp = hp })

pub record Player : Type 0 where
  pub character : Character
  pub open character use *
  pub name : Bytes
  pub race : PlayerRace
  pub klass : PlayerClass
  pub gold : ℕ
  pub experience : ℕ
  pub current_mana : ℤ
  pub max_mana : ℤ
  pub strength : ℤ
  pub agility : ℤ
  pub intelligence : ℤ
  pub constitution : ℤ
  pub clan_id : ℕ
  pub meditating : Bool
  pub partial_hp_regen : Float
  pub partial_mana_regen : Float
  pub inventory : Inventory

unfoldable pub can_cast_magic : Player → Bool
can_cast_magic p = elim p.klass [ warrior ↦ false | _ ↦ true ]

unfoldable pub set_level : ℤ → Player → Player
set_level level p = record p { character = record (p.character) { level = level } }

unfoldable pub set_initial_stats : ℤ → ℤ → Player → Player
set_initial_stats hp mana p = record p {
  character = record (p.character) { max_hp = hp; current_hp = hp };
  max_mana = mana;
  current_mana = mana;
}

unfoldable pub restore_mana : ℤ → Player → Player
unfolding can_cast_magic
restore_mana amount p =
    if leb_ℤ amount (pos 0) || (p.dead || not (can_cast_magic p))
    then p
    else let mana = p.current_mana +ℤ amount in
      record p { current_mana = if ltb_ℤ p.max_mana mana then p.max_mana else mana }

unfoldable pub consume_mana : ℤ → Player → Player
unfolding can_cast_magic
consume_mana amount p =
    if leb_ℤ amount (pos 0) || (p.dead || not (can_cast_magic p))
    then p
    else let mana = p.current_mana -ℤ amount in
      record p { current_mana = if ltb_ℤ mana (pos 0) then pos 0 else mana }

unfoldable pub start_meditating : Player → Player
unfolding can_cast_magic
start_meditating p = if can_cast_magic p then record p { meditating = true } else p

unfoldable pub stop_meditating : Player → Player
stop_meditating p = record p { meditating = false }

unfoldable pub resurrect : Player → Player
resurrect p =
    if p.dead
    then record p {
      character = record (p.character) { dead = false; current_hp = p.max_hp };
      current_mana = p.max_mana;
    }
    else p

-- `Character::heal` and `receive_damage` on a player.
unfoldable pub heal_player : ℤ → Player → Player
unfolding heal
heal_player amount p = record p { character = (heal amount p.character).1 }

unfoldable pub damage_player : ℤ → Player → Player
unfolding receive_damage
damage_player damage p = record p { character = receive_damage damage p.character }
