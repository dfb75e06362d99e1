-- ===== src/World/Combat.antt =====
-- server/world/world.cpp, game_formulas.cpp, player.cpp and hostile_npc.cpp: attacks and healing. A
-- random number is drawn from the world; `none` is an exception, or the loop of level-ups out of fuel.
use argentum_online_taller_g.Prelude.{
  ℕ, ◌+◌, ◌==◌, Bool, true, false, not, ◌&&◌, ◌||◌, Option, none, some, List, [], ◌∷◌,
  if◌then◌else◌, lookup,
}
use argentum_online_taller_g.Prelude.Int.{
  ℤ, pos, pos_part, neg_part, ◌+ℤ◌, ◌-ℤ◌, ◌*ℤ◌, leb_ℤ, ltb_ℤ,
}
use argentum_online_taller_g.Float.{Float}
use argentum_online_taller_g.Config.{Env, Position}
use argentum_online_taller_g.Item.{
  ItemKind, plain_weapon, magic_weapon, defensive, EquipmentSlot, weapon, armor, helmet, shield,
  does_heal,
}
use argentum_online_taller_g.Inventory.{get_equipped_item}
use argentum_online_taller_g.Player.Character.{Character, Player}
use argentum_online_taller_g.Player.Formulas.{int_to_u64}
use argentum_online_taller_g.Player.Equipment.{is_ranged_attack, consume_attack_resources}
use argentum_online_taller_g.Player.Experience.{add_experience}
use argentum_online_taller_g.World.Map.{is_safe}
use argentum_online_taller_g.World.State.{
  World, Game, Who, who_player, who_npc, NpcKind, city_npc, hostile_npc, alter_player,
  get_players_near, draw_int, draw_float,
}

-- common/attack_result.h, with the numbers that are sent.
pub data AttackStatus : Type 0 where
  success no_mana out_of_range invalid_target dead_target safe_zone full_hp cannot_heal_npc
        newbie_protection level_difference same_clan :
      AttackStatus

unfoldable pub status_code : AttackStatus → ℕ
status_code success = 0
status_code no_mana = 1
status_code out_of_range = 2
status_code invalid_target = 3
status_code dead_target = 4
status_code safe_zone = 5
status_code full_hp = 6
status_code cannot_heal_npc = 7
status_code newbie_protection = 8
status_code level_difference = 9
status_code same_clan = 10

-- `std::abs` and `std::max(a, 0)`.
abbrev pub abs : ℤ → ℤ
abs a = pos (pos_part a + neg_part a)

abbrev pub at_least_0 : ℤ → ℤ
at_least_0 a = pos (pos_part a)

unfoldable pub check_level_attack : Env → ℤ → ℤ → AttackStatus
check_level_attack env attacker target =
    if leb_ℤ attacker env.newbie_max_level || leb_ℤ target env.newbie_max_level
    then newbie_protection
    else if ltb_ℤ env.max_level_difference (abs (attacker -ℤ target))
    then level_difference
    else success

-- The methods of `Character` that `Player` and `NPC` override, on what a pointer points to.
unfoldable pub validate_attack_from : Env → Who → ℤ → World → AttackStatus
validate_attack_from env (who_npc i) attacker w = success
validate_attack_from env (who_player i) attacker w = elim (lookup i w.players) [
  | none ↦ success
  | some p ↦ check_level_attack env attacker p.level
]

unfoldable pub get_clan_id : Who → World → ℕ
get_clan_id (who_npc i) w = 0
get_clan_id (who_player i) w = elim (lookup i w.players) [ none ↦ 0 | some p ↦ p.clan_id ]

unfoldable pub get_id : Who → ℕ
get_id (who_player i) = i
get_id (who_npc i) = i

unfoldable pub attacks_from_afar : Who → World → Bool
attacks_from_afar (who_npc i) w = false
attacks_from_afar (who_player i) w = elim (lookup i w.players) [
  | none ↦ false
  | some p ↦ is_ranged_attack p
]

unfoldable pub is_in_range_for_attack : Who → Position → Position → World → Bool
is_in_range_for_attack who p q w =
    if attacks_from_afar who w
    then true
    else leb_ℤ (abs (p.x -ℤ q.x)) (pos 1) && leb_ℤ (abs (p.y -ℤ q.y)) (pos 1)

unfoldable pub validate_attack_conditions :
    Env → Who → Character → Who → Character → World → AttackStatus
validate_attack_conditions env who a target t w =
    let level_status = validate_attack_from env target a.level w in
    let later : AttackStatus =
      if is_safe w.map a.position || is_safe w.map t.position
      then safe_zone
      else if not (get_clan_id who w == 0) && get_clan_id who w == get_clan_id target w
      then same_clan
      else if not (is_in_range_for_attack who a.position t.position w)
      then out_of_range
      else success in
    if a.dead || t.dead
    then dead_target
    else if get_id who == get_id target
    then invalid_target
    else elim level_status [ success ↦ later | other ↦ other ]

-- `Player::consume_attack_resources`; `false` is NO_MANA.
unfoldable pub consume_resources : Who → World → Bool × World
consume_resources (who_npc i) w = (true, w)
consume_resources (who_player i) w = elim (lookup i w.players) [
  | none ↦ (true, w)
  | some p ↦
      ((consume_attack_resources p).0, alter_player i (λ q. (consume_attack_resources q).1) w)
]

-- The damage of a weapon, or of the bare hands.
unfoldable pub weapon_damage : Game → Player → Option ItemKind → World → ℤ × World
weapon_damage game p (some (plain_weapon low high _)) w =
    let (n, v) = draw_int game low high w in (p.strength *ℤ n, v)
weapon_damage game p (some (magic_weapon s _)) w =
    if does_heal s
    then (pos 0, (draw_int game s.min_heal s.max_heal w).1)
    else draw_int game s.min_damage s.max_damage w
weapon_damage game p _ w =
    let (n, v) = draw_int game p.strength p.strength w in (p.strength *ℤ n, v)

abbrev pub equipped_kind : EquipmentSlot → Player → Option ItemKind
equipped_kind e p = elim (get_equipped_item p.inventory e) [ none ↦ none | some it ↦ some it.kind ]

unfoldable pub kind_damage : Game → NpcKind → World → ℤ × World
kind_damage game (city_npc _) w = (pos 0, w)
kind_damage game (hostile_npc h) w = draw_int game h.min_damage h.max_damage w

unfoldable pub calculate_base_damage : Game → Who → World → ℤ × World
unfolding weapon_damage kind_damage
calculate_base_damage game (who_player i) w = elim (lookup i w.players) [
  | none ↦ (pos 0, w)
  | some p ↦ weapon_damage game p (equipped_kind weapon p) w
]
calculate_base_damage game (who_npc i) w = elim (lookup i w.npcs) [
  | none ↦ (pos 0, w)
  | some n ↦ kind_damage game n.kind w
]

-- What is worn as armour is a `DefensiveItem`.
unfoldable pub item_defense : Game → Option ItemKind → World → ℤ × World
item_defense game (some (defensive low high _)) w = draw_int game low high w
item_defense game _ w = (pos 0, w)

unfoldable pub calculate_defense : Game → Player → World → ℤ × World
unfolding item_defense
calculate_defense game p w =
    let (a, w1) = item_defense game (equipped_kind armor p) w in
    let (b, w2) = item_defense game (equipped_kind shield p) w1 in
    let (c, w3) = item_defense game (equipped_kind helmet p) w2 in (a +ℤ b +ℤ c, w3)

unfoldable pub get_defense : Game → Who → World → ℤ × World
unfolding calculate_defense
get_defense game (who_player i) w = elim (lookup i w.players) [
  | none ↦ (pos 0, w)
  | some p ↦ calculate_defense game p w
]
get_defense game (who_npc i) w = elim (lookup i w.npcs) [
  | none ↦ (pos 0, w)
  | some n ↦ (n.defense, w)
]

unfoldable pub kind_agility : NpcKind → ℤ
kind_agility (city_npc _) = pos 0
kind_agility (hostile_npc h) = h.agility

unfoldable pub get_agility : Who → World → ℤ
unfolding kind_agility
get_agility (who_player i) w = elim (lookup i w.players) [ none ↦ pos 0 | some p ↦ p.agility ]
get_agility (who_npc i) w = elim (lookup i w.npcs) [ none ↦ pos 0 | some n ↦ kind_agility n.kind ]

-- A random number between 0.0 and 1.0.
unfoldable pub draw_unit : Game → World → Float × World
draw_unit game w =
    let ops = game.shop.env.ops in draw_float game (ops.of_int (pos 0)) (ops.of_int (pos 1)) w

unfoldable pub calculate_critical_attack : Game → World → Bool × World
unfolding draw_unit
calculate_critical_attack game w =
    let (r, v) = draw_unit game w in (game.shop.env.ops.lt r game.shop.env.critical_chance, v)

unfoldable pub calculate_evasion : Game → Who → World → Bool × World
unfolding draw_unit
calculate_evasion game who w =
    let env = game.shop.env in
    let (r, v) = draw_unit game w in
    (env.ops.lt (env.ops.pow_float r (get_agility who w)) env.evasion_threshold, v)

-- The members of a clan among the players that are near, but for the one itself.
unfoldable pub count_clan : ℕ → ℕ → List (ℕ × Player) → ℕ
count_clan id clan [] = 0
count_clan id clan ((i, p) ∷ near) =
    (if not (i == id) && p.clan_id == clan then 1 else 0) + count_clan id clan near

unfoldable pub get_nearby_clan_members_count : Env → Who → Position → World → ℕ
unfolding count_clan
get_nearby_clan_members_count env who p w =
    let clan = get_clan_id who w in
    if clan == 0 then 0 else count_clan (get_id who) clan (get_players_near env p env.bonus_range w)

-- `x += static_cast<int>(x * factor * count)`, where there is somebody.
unfoldable pub clan_bonus : Env → ℕ → ℤ → ℤ
clan_bonus env count x =
    if count == 0
    then x
    else x +ℤ to_int (mul (mul (of_int x) env.bonus_factor) (of_int (pos count)))
  where
    open env.ops use {to_int, mul, of_int}

abbrev pub level_multiplier : Character → Character → ℤ
level_multiplier a t = at_least_0 (t.level -ℤ a.level +ℤ pos 10)

-- An `NPC` gains no experience.
unfoldable pub gain_experience : Game → Who → ℤ → World → Option World
gain_experience game (who_npc i) amount w = some w
gain_experience game (who_player i) amount w = elim (lookup i w.players) [
  | none ↦ some w
  | some p ↦ elim (add_experience game.level_ups game.shop.env (int_to_u64 amount) p) [
    | none ↦ none
    | some q ↦ some (alter_player i (λ _. q) w)
  ]
]
