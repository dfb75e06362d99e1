-- ===== src/World/Actions.antt =====
-- server/world/world.cpp: meditate, start_resurrection, apply_cheat and interact_with_npc.
use argentum_online_taller_g.Prelude.{
  ℕ, Bool, true, false, not, ◌&&◌, Option, none, some, if◌then◌else◌, lookup, insert,
}
use argentum_online_taller_g.Prelude.Int.{pos, ◌+ℤ◌, ◌-ℤ◌, ◌*ℤ◌}
use argentum_online_taller_g.Float.{Float}
use argentum_online_taller_g.Config.{Env, Position}
use argentum_online_taller_g.Player.Character.{
  Player, heal_player, damage_player, restore_mana, start_meditating,
}
use argentum_online_taller_g.Player.Formulas.{calculate_max_holdable_gold, calculate_level_up_limit}
use argentum_online_taller_g.Player.Purse.{add_gold}
use argentum_online_taller_g.Player.Experience.{level_up}
use argentum_online_taller_g.Npc.City.{
  Shop, NpcInteraction, resurrection, InteractResult, Outcome, status_only, interact, refuse,
  not_allowed, out_of_range, invalid_target,
}
use argentum_online_taller_g.World.Map.{is_safe}
use argentum_online_taller_g.World.Cities.{get_closest_city}
use argentum_online_taller_g.World.State.{
  World, PendingResurrection, NpcKind, city_npc, hostile_npc, alter_player, get_npc,
}

-- common/meditate_status.h and common/resurrect_status.h.
pub data MeditateStatus : Type 0 where
  success player_dead no_mana : MeditateStatus

pub data ResurrectStatus : Type 0 where
  started not_dead already_resurrecting : ResurrectStatus

unfoldable pub meditate : ℕ → World → MeditateStatus × World
meditate id w = elim (lookup id w.players) [
  | none ↦ (player_dead, w)
  | some p ↦ if p.dead then (player_dead, w) else (
    if (start_meditating p).meditating then success else no_mana,
    alter_player id start_meditating w,
  )
]

-- The seconds until a player at `from` stands beside the priest.
unfoldable pub wait_time : Env → (from to : Position) → Float
wait_time env from to =
    let dx = to.x -ℤ from.x in
    let dy = to.y -ℤ from.y in
    env.ops.mul (env.ops.sqrt ((dx *ℤ dx) +ℤ (dy *ℤ dy))) env.resurrect_still_factor

unfoldable pub start_resurrection : Env → ℕ → World → ResurrectStatus × World
unfolding wait_time
start_resurrection env id w = elim (lookup id w.players) [
  | none ↦ (not_dead, w)
  | some p ↦ if not p.dead then (not_dead, w) else elim (lookup id w.pending_resurrections) [
    | some _ ↦ (already_resurrecting, w)
    | none ↦ elim (get_closest_city w.map.cities p.position) [
      | none ↦ (not_dead, w)
      | some city ↦
          let r : PendingResurrection = record {
            timer = wait_time env p.position city.priest_position;
            destination = city.priest_position;
          } in
          (started, record w { pending_resurrections = insert id r w.pending_resurrections })
    ]
  ]
]

-- common/cheat_type.h.
pub data CheatType : Type 0 where
  heal_full restore_full_mana die rise give_gold : CheatType

pub record CheatResult : Type 0 where
  pub success : Bool
  pub player_died : Bool

-- What a cheat makes of a player; `none` is one that a dead player cannot use.
unfoldable pub cheat_on : Env → CheatType → Player → Option Player
cheat_on env give_gold p = some (add_gold env (calculate_max_holdable_gold env p.level) p)
cheat_on env cheat p =
    if p.dead
    then none
    else some (elim cheat [
      | heal_full ↦ heal_player p.max_hp p
      | restore_full_mana ↦ restore_mana p.max_mana p
      | die ↦ damage_player (p.max_hp +ℤ pos 1) p
      | rise ↦
          let q = level_up env p in
          record q { experience = calculate_level_up_limit env (q.level -ℤ pos 1) }
      | give_gold ↦ p
    ])

unfoldable pub is_die : CheatType → Bool
is_die die = true
is_die _ = false

unfoldable pub apply_cheat : Env → ℕ → CheatType → World → CheatResult × World
unfolding cheat_on is_die
apply_cheat env id cheat w =
    let refused : CheatResult × World = (record { success = false; player_died = false }, w) in
    elim (lookup id w.players) [
      | none ↦ refused
      | some p ↦ elim (cheat_on env cheat p) [
        | none ↦ refused
        | some q ↦
            (record { success = true; player_died = is_die cheat }, alter_player id (λ p. q) w)
      ]
    ]

-- `NPC::interact` and its override: only the characters of a city answer.
unfoldable pub npc_interact : Shop → NpcKind → NpcInteraction → Player → World → Outcome
npc_interact shop (city_npc city) type p w = interact shop city type p w.bank
npc_interact shop (hostile_npc _) type p w = refuse not_allowed p w.bank

-- A ghost that asks for its resurrection.
unfoldable pub resurrects_ghost : Player → NpcInteraction → Bool
resurrects_ghost p type = p.dead && elim type [ resurrection ↦ true | _ ↦ false ]

-- `none` is an exception, with the changes made before it. The shop has the address that an item
-- which is made gets.
unfoldable pub interact_with_npc :
    Shop → ℕ → ℕ → NpcInteraction → World → Option InteractResult × World
unfolding npc_interact resurrects_ghost
interact_with_npc shop player_id npc_id type w = elim (lookup player_id w.players) [
  | none ↦ (some (status_only invalid_target), w)
  | some p ↦ elim (get_npc npc_id w) [
    | none ↦ (some (status_only invalid_target), w)
    | some npc ↦
        if not (is_safe w.map p.position) && not (resurrects_ghost p type)
        then (some (status_only out_of_range), w)
        else (let out = npc_interact shop npc.kind type p w in
            (out.result, record (alter_player player_id (λ p. out.player) w) { bank = out.bank }))
  ]
]
