-- ===== src/World/Update.antt =====
-- server/world/world.cpp and hostile_npc.cpp: what happens on a tick. Players recover, the dead come
-- back, hostile characters chase and attack, and new ones are spawned.
use argentum_online_taller_g.Prelude.{
  ℕ, true, false, not, ◌&&◌, Option, none, some, List, [], ◌∷◌, ◌++◌, if◌then◌else◌, lookup, insert,
  erase, Dict, map,
}
use argentum_online_taller_g.Prelude.Int.{ℤ, pos, ◌+ℤ◌, ◌-ℤ◌, ◌*ℤ◌, leb_ℤ, ltb_ℤ}
use argentum_online_taller_g.Float.{Float}
use argentum_online_taller_g.Config.{Env, Position}
use argentum_online_taller_g.Player.Character.{
  Player, Direction, up, down, left, right, heal_player, restore_mana, resurrect, can_cast_magic,
}
use argentum_online_taller_g.Protocol.Updates.{AttackResult}
use argentum_online_taller_g.World.State.{
  World, Game, Npc, Hostile, NpcKind, PendingResurrection, city_npc, hostile_npc, alter_npc,
  alter_player, get_character, get_players_near, with_players, occupy,
}
use argentum_online_taller_g.World.Movement.{move_character, teleport_player}
use argentum_online_taller_g.World.Combat.{abs}
use argentum_online_taller_g.World.Attack.{npc_attack}

-- `calculate_health_recovery`, `calculate_time_mana_recovery` and
-- `calculate_meditation_mana_recovery`.
unfoldable pub calculate_health_recovery : Env → Float → Player → Float
calculate_health_recovery env seconds p = env.ops.mul (env.race_recovery p.race) seconds

unfoldable pub calculate_time_mana_recovery : Env → Float → Player → Float
calculate_time_mana_recovery env seconds p =
    if not (can_cast_magic p)
    then env.ops.of_int (pos 0)
    else env.ops.mul (env.race_recovery p.race) seconds

unfoldable pub calculate_meditation_mana_recovery : Env → Float → Player → Float
calculate_meditation_mana_recovery env seconds p =
    if not (can_cast_magic p)
    then env.ops.of_int (pos 0)
    else env.ops.mul (env.ops.mul (env.class_meditation p.klass) (env.ops.of_int p.intelligence))
        seconds

-- What has come together of hit points: whole ones are healed, the rest stays.
unfoldable pub recover_hp : Env → Float → Player → Player
unfolding calculate_health_recovery heal_player
recover_hp env seconds p =
    let ops = env.ops in
    let partial = ops.add p.partial_hp_regen (calculate_health_recovery env seconds p) in
    let amount = ops.to_int partial in
    if ops.le (ops.of_int (pos 1)) partial
    then record (heal_player amount p) { partial_hp_regen = ops.sub partial (ops.of_int amount) }
    else record p { partial_hp_regen = partial }

unfoldable pub recover_mana : Env → Float → Player → Player
unfolding calculate_time_mana_recovery calculate_meditation_mana_recovery restore_mana
recover_mana env seconds p =
    let ops = env.ops in
    let regen =
      if p.meditating
      then calculate_meditation_mana_recovery env seconds p
      else calculate_time_mana_recovery env seconds p in
    let partial = ops.add p.partial_mana_regen regen in
    let amount = ops.to_int partial in
    if ops.le (ops.of_int (pos 1)) partial
    then record (restore_mana amount p) { partial_mana_regen = ops.sub partial (ops.of_int amount) }
    else record p { partial_mana_regen = partial }

unfoldable pub recover : Env → Float → Player → Player
unfolding recover_hp recover_mana
recover env seconds p = if p.dead then p else recover_mana env seconds (recover_hp env seconds p)

unfoldable pub recover_entry : Env → Float → ℕ × Player → ℕ × Player
unfolding recover
recover_entry env seconds (i, p) = (i, recover env seconds p)

unfoldable pub update_players : Env → Float → World → World
unfolding recover_entry
update_players env seconds w = with_players (map (recover_entry env seconds) w.players) w

-- One pending resurrection whose time is over; it is taken off the list where the teleport fails too.
unfoldable pub come_back : ℕ → PendingResurrection → World → World
come_back id r w =
    let (arrived, v) = teleport_player id r.destination w in
    let u = (if arrived then alter_player id resurrect v else v) in
    record u { pending_resurrections = erase id u.pending_resurrections }

-- The loop over the pending resurrections, as they stood before it.
unfoldable pub resurrections_loop : Env → Float → Dict PendingResurrection → World → World
unfolding come_back
resurrections_loop env seconds [] w = w
resurrections_loop env seconds ((id, r) ∷ pending) w =
    let timer = env.ops.sub r.timer seconds in
    let waits : World = record w {
      pending_resurrections = insert id (record r { timer = timer }) w.pending_resurrections;
    } in
    resurrections_loop env seconds pending
      (if env.ops.le timer (env.ops.of_int (pos 0)) then come_back id r waits else waits)

unfoldable pub update_resurrections : Env → Float → World → World
unfolding resurrections_loop
update_resurrections env seconds w = resurrections_loop env seconds w.pending_resurrections w

-- server/game/npcs/npc.h.
pub data NpcBehavior : Type 0 where
  stay : NpcBehavior
  chase : Position → NpcBehavior
  attack : (target_id : ℕ) → NpcBehavior

-- The loop over the players that are near: the closest that lives, and the square of its distance.
unfoldable pub closest_target :
    Position → List (ℕ × Player) → ℤ → Option (ℕ × Player) → Option (ℕ × Player)
closest_target q [] min_dist closest = closest
closest_target q ((i, p) ∷ near) min_dist closest =
    let dx = p.position.x -ℤ q.x in
    let dy = p.position.y -ℤ q.y in
    let dist = dx *ℤ dx +ℤ dy *ℤ dy in
    let nearer = not p.dead && ltb_ℤ dist min_dist in
    closest_target q near (if nearer then dist else min_dist)
      (if nearer then some (i, p) else closest)

-- `HostileNPC::update`: what it does, and the timer.
unfoldable pub behave : Env → Float → Position → Hostile → List (ℕ × Player) → NpcBehavior × Hostile
unfolding closest_target
behave env time q h near =
    let timer = env.ops.add h.action_timer time in
    let waiting : Hostile = record h { action_timer = timer } in
    let acting : Hostile = record h { action_timer = env.ops.of_int (pos 0) } in
    if env.ops.lt timer env.chase_cooldown
    then (stay, waiting)
    else elim (closest_target q near (h.attack_range *ℤ h.attack_range +ℤ pos 1) none) [
      | none ↦ (stay, waiting)
      | some (i, p) ↦
          if leb_ℤ (abs (p.position.x -ℤ q.x)) (pos 1) && leb_ℤ (abs (p.position.y -ℤ q.y)) (pos 1)
          then (attack p.id, acting)
          else (chase p.position, acting)
    ]

unfoldable pub chase_direction : Position → Position → Direction
chase_direction curr target =
    let dx = target.x -ℤ curr.x in
    let dy = target.y -ℤ curr.y in
    if leb_ℤ (abs dy) (abs dx)
    then if ltb_ℤ (pos 0) dx then right else left
    else if ltb_ℤ (pos 0) dy
    then down
    else up

-- The character that moves is the one of `get_character`; a step sets `moving` once more.
unfoldable pub npc_move_towards : ℕ → Npc → Position → World → World
unfolding chase_direction
npc_move_towards key n target w =
    let dir = chase_direction n.position target in
    let turned =
      alter_npc key (λ m. record m { character = record (m.character) { direction = dir } }) w in
    let (moved, v) = move_character n.id dir turned in
    if moved
    then alter_npc key (λ m. record m { character = record (m.character) { moving = true } }) v
    else v

abbrev pub no_attacks : World → Option (List AttackResult × World)
no_attacks w = some ([], w)

-- What a living hostile character does.
unfoldable pub act : Game → ℕ → Npc → NpcBehavior → World → Option (List AttackResult × World)
unfolding npc_move_towards
act game key n stay w = no_attacks w
act game key n (chase target) w = no_attacks (npc_move_towards key n target w)
act game key n (attack target_id) w = elim (get_character target_id w) [
  | none ↦ no_attacks w
  | some target ↦ elim (npc_attack game key target w) [
    | none ↦ none
    | some (r, v) ↦ some (r ∷ [], v)
  ]
]

unfoldable pub stop_npc : Npc → Npc
stop_npc n = record n { character = record (n.character) { moving = false } }

unfoldable pub update_kind :
    Game → Float → ℕ → Npc → NpcKind → World → Option (List AttackResult × World)
unfolding behave act
update_kind game seconds key n (city_npc _) w = no_attacks w
update_kind game seconds key n (hostile_npc h) w =
    let env = game.shop.env in
    let near = get_players_near env n.position h.attack_range w in
    let (behavior, h') = behave env seconds n.position h near in
    act game key n behavior (alter_npc key (λ m. record m { kind = hostile_npc h' }) w)

-- One round of the loop: who is dead leaves the world and frees its position.
unfoldable pub update_npc : Game → Float → ℕ → World → Option (List AttackResult × World)
unfolding update_kind stop_npc
update_npc game seconds key w = elim (lookup key w.npcs) [
  | none ↦ no_attacks w
  | some n ↦
      if n.dead
      then no_attacks
          (record w { occupied = (occupy n.position false w).occupied; npcs = erase key w.npcs })
      else update_kind game seconds key (stop_npc n) n.kind (alter_npc key stop_npc w)
]

-- The loop over the keys of the characters; a round removes at most its own.
unfoldable pub npcs_loop : Game → Float → List ℕ → World → Option (List AttackResult × World)
unfolding update_npc
npcs_loop game seconds [] w = no_attacks w
npcs_loop game seconds (key ∷ keys) w = elim (update_npc game seconds key w) [
  | none ↦ none
  | some (rs, v) ↦ elim (npcs_loop game seconds keys v) [
    | none ↦ none
    | some (more, u) ↦ some (rs ++ more, u)
  ]
]

abbrev pub keys {ℓ} : {V : Type ℓ} → Dict V → List ℕ
keys [] = []
keys ((k, v) ∷ m) = k ∷ keys m

unfoldable pub update_npcs : Game → Float → World → Option (List AttackResult × World)
unfolding npcs_loop
update_npcs game seconds w = npcs_loop game seconds (keys w.npcs) w
