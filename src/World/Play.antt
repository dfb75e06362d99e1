-- ===== src/World/Play.antt =====
-- server/commands: the execution of the commands of a player on the world, with the updates that
-- they send. The commands of the clans are in World.Execute.
use argentum_online_taller_g.Prelude.{
  ℕ, Bool, true, false, not, ◌&&◌, ◌||◌, Option, none, some, List, [], ◌∷◌, ◌++◌, ◌==◌, ◌%◌, ◌^◌,
  Bytes, if◌then◌else◌, lookup, map,
}
use argentum_online_taller_g.Prelude.Int.{ℤ, pos, leb_ℤ}
use argentum_online_taller_g.Config.{Env, PlayerRace, PlayerClass}
use argentum_online_taller_g.Inventory.{InventorySlot}
use argentum_online_taller_g.Player.Character.{Player, Direction, stop_meditating}
use argentum_online_taller_g.Player.Equipment.{is_healing_attack}
use argentum_online_taller_g.Player.Formulas.{create_initial_player}
use argentum_online_taller_g.Config
use argentum_online_taller_g.Npc.City
use argentum_online_taller_g.Npc.City.{Shop, NpcInteraction, InteractStatus, InteractResult}
use argentum_online_taller_g.Protocol.Updates
use argentum_online_taller_g.Protocol.Updates.{AttackResult, GameUpdate, InventorySlotData}
use argentum_online_taller_g.World.Clans.{get_player_by_name}
use argentum_online_taller_g.World.State.{World, Game, alter_player, player_exists, get_npc}
use argentum_online_taller_g.World.Movement.{move_character, get_spawn_position, add_player}
use argentum_online_taller_g.World.Ground.{pick_up_item, drop_item, equip_item}
use argentum_online_taller_g.World.Attack
use argentum_online_taller_g.World.Actions
use argentum_online_taller_g.World.Actions.{
  MeditateStatus, ResurrectStatus, CheatType, CheatResult, apply_cheat, start_resurrection,
  interact_with_npc,
}

unfoldable pub slot_data : InventorySlot → InventorySlotData
slot_data s = elim s.item [
  | none ↦ record { item_name = []; quantity = 0; is_equipped = false }
  | some it ↦ record {
    item_name = it.name;
    quantity = s.quantity % 2 ^ 32;
    is_equipped = elim s.equipped_slot [ none ↦ false | some _ ↦ true ];
  }
]

unfoldable pub inventory_update : ℕ → Player → GameUpdate
unfolding slot_data
inventory_update id p = Updates.inventory id (map slot_data p.inventory) p.gold

-- The inventory of a player that is in the world.
unfoldable pub inventory_updates : ℕ → World → List GameUpdate
unfolding inventory_update
inventory_updates id w = elim (lookup id w.players) [
  | none ↦ []
  | some p ↦ inventory_update id p ∷ []
]

unfoldable pub execute_move : ℕ → Direction → World → List GameUpdate × World
execute_move id direction w = elim (lookup id w.players) [
  | none ↦ ([], w)
  | some _ ↦
      let (moved, v) = move_character id direction (alter_player id stop_meditating w) in
      (
        elim (lookup id v.players) [
          | none ↦ []
          | some p ↦ if moved then Updates.moved id p.position ∷ [] else []
        ],
        v,
      )
]

unfoldable pub meditate_code : MeditateStatus → ℕ
meditate_code Actions.success = 0
meditate_code Actions.player_dead = 1
meditate_code Actions.no_mana = 2

unfoldable pub execute_meditate : ℕ → World → List GameUpdate × World
unfolding meditate_code
execute_meditate id w =
    let (status, v) = Actions.meditate id w in (Updates.meditate id (meditate_code status) ∷ [], v)

unfoldable pub resurrect_code : ResurrectStatus → ℕ
resurrect_code Actions.started = 0
resurrect_code Actions.not_dead = 1
resurrect_code Actions.already_resurrecting = 2

unfoldable pub execute_resurrect : Env → ℕ → World → List GameUpdate × World
unfolding resurrect_code
execute_resurrect env id w =
    let (status, v) = start_resurrection env id w in
    (Updates.revive id (resurrect_code status) ∷ [], v)

-- The three commands on items: what the player has is sent when the command was done.
unfoldable pub with_inventory : ℕ → Bool × World → List GameUpdate × World
unfolding inventory_updates
with_inventory id out = (if out.0 then inventory_updates id out.1 else [], out.1)

unfoldable pub execute_pick_up_item : Game → ℕ → World → List GameUpdate × World
unfolding with_inventory
execute_pick_up_item game id w = with_inventory id (pick_up_item game id w)

unfoldable pub execute_drop_item : ℕ → ℤ → World → List GameUpdate × World
unfolding with_inventory
execute_drop_item id slot_index w = with_inventory id (drop_item id slot_index w)

unfoldable pub execute_equip_item : ℕ → ℤ → World → List GameUpdate × World
unfolding with_inventory
execute_equip_item id slot_index w = with_inventory id (equip_item id slot_index w)

-- A text with a nick goes to that player and back to its author, one without to everybody.
unfoldable pub execute_chat : ℕ → (nick text target_nick : Bytes) → World → List GameUpdate × World
execute_chat id nick text [] w = (Updates.chat_msg id nick text 0 false ∷ [], w)
execute_chat id nick text (b ∷ bs) w = elim (get_player_by_name (b ∷ bs) w.players) [
  | none ↦ ([], w)
  | some found ↦ (
    Updates.chat_msg id nick text found.0 true
        ∷ (if found.0 == id then [] else Updates.chat_msg id nick text id true ∷ []),
    w,
  )
]

-- `cheat_msg` is the text for a cheat that was done.
unfoldable pub execute_cheat :
    Env → (CheatType → Bytes) → ℕ → CheatType → World → List GameUpdate × World
execute_cheat env cheat_msg id cheat w =
    let (r, v) = apply_cheat env id cheat w in
    (
      if r.success
          then (if r.player_died then Updates.death id id ∷ [] else [])
            ++ (elim (cheat_msg cheat) [ [] ↦ [] | c ∷ cs ↦ Updates.system_msg id (c ∷ cs) ∷ [] ])
          else [],
      v,
    )

-- The members of the clan that hear of an attack on one of them.
unfoldable pub tell_members : AttackResult → List ℕ → List GameUpdate
tell_members r [] = []
tell_members r (id ∷ ids) =
    let rest = tell_members r ids in
    if (id == r.attacker_id) || (id == r.target_id) then rest else Updates.attacked r id ∷ rest

unfoldable pub clan_updates : AttackResult → World → List GameUpdate
unfolding tell_members
clan_updates r w =
    if leb_ℤ r.damage (pos 0) || (r.target_clan_id == 0)
    then []
    else elim (lookup r.target_clan_id w.clans_by_id) [
      | none ↦ []
      | some c ↦ tell_members r c.members
    ]

unfoldable pub attack_updates : ℕ → ℕ → AttackResult → World → List GameUpdate
unfolding clan_updates inventory_updates
attack_updates id target_id r w =
    Updates.attacked r id
    ∷ (if not (r.status == 0)
        then []
        else (if r.attacker_id == r.target_id then [] else Updates.attacked r r.target_id ∷ [])
          ++ (clan_updates r w
              ++ (if r.target_died
                  then Updates.death target_id id ∷ inventory_updates target_id w
                  else [])))

unfoldable pub heals : ℕ → World → Bool
heals id w = elim (lookup id w.players) [ none ↦ false | some p ↦ is_healing_attack p ]

-- `none` where the attack is.
unfoldable pub execute_attack : Game → ℕ → ℕ → World → Option (List GameUpdate × World)
unfolding heals attack_updates
execute_attack game id target_id w =
    let healed = Attack.heal game id target_id w in
    if heals id w
    then some (attack_updates id target_id healed.0 healed.1, healed.1)
    else elim (Attack.attack game id target_id w) [
      | none ↦ none
      | some out ↦ some (attack_updates id target_id out.0 out.1, out.1)
    ]

-- common/npc_interaction.h and common/npc_interact_result.h as numbers.
unfoldable pub interaction_code : NpcInteraction → ℕ
interaction_code City.heal = 0
interaction_code City.resurrection = 1
interaction_code (City.buy _) = 2
interaction_code (City.sell _) = 3
interaction_code (City.deposit_gold _) = 4
interaction_code (City.deposit_item _) = 5
interaction_code (City.withdraw_gold _) = 6
interaction_code (City.withdraw_item _) = 7
interaction_code City.list = 8

unfoldable pub interact_code : InteractStatus → ℕ
interact_code City.success = 0
interact_code City.insufficient_gold = 1
interact_code City.inventory_full = 2
interact_code City.item_not_found = 3
interact_code City.not_allowed = 4
interact_code City.player_dead = 5
interact_code City.player_not_dead = 6
interact_code City.already_full = 7
interact_code City.invalid_amount = 8
interact_code City.out_of_range = 9
interact_code City.invalid_target = 10

-- The list of a banker is what its safe holds.
unfoldable pub is_vault : ℕ → World → Bool
is_vault npc_id w = elim (get_npc npc_id w) [ none ↦ false | some npc ↦ npc.npc_type == 3 ]

unfoldable pub interact_updates : ℕ → ℕ → NpcInteraction → InteractResult → World → List GameUpdate
unfolding interaction_code interact_code is_vault inventory_updates
interact_updates id npc_id type r w =
    let status = interact_code r.status in
    if (interaction_code type == 8) && (status == 0)
    then Updates.catalog id r.catalog r.gold_amount (is_vault npc_id w) ∷ []
    else Updates.npc_interact id (interaction_code type) status r.item_name r.gold_amount r.catalog
      ∷ (if status == 0 then inventory_updates id w else [])

-- An exception sends nothing; the changes made before it stay.
unfoldable pub execute_interact :
    Shop → ℕ → ℕ → NpcInteraction → World → Option (List GameUpdate) × World
unfolding interact_updates
execute_interact shop id npc_id type w =
    let (result, v) = interact_with_npc shop id npc_id type w in
    (elim result [ none ↦ none | some r ↦ some (interact_updates id npc_id type r v) ], v)

unfoldable pub race_code : PlayerRace → ℕ
race_code Config.human = 0
race_code Config.elf = 1
race_code Config.dwarf = 2
race_code Config.gnome = 3

unfoldable pub class_code : PlayerClass → ℕ
class_code Config.mage = 0
class_code Config.cleric = 1
class_code Config.paladin = 2
class_code Config.warrior = 3

-- Without a free position, the exception is caught, and nothing is sent.
unfoldable pub execute_select_race_class :
    Env
    → ℕ
    → (nick : Bytes) (race : PlayerRace) (klass : PlayerClass) → World
    → List GameUpdate × World
unfolding inventory_update race_code class_code
execute_select_race_class env id nick race klass w =
    if player_exists id w then ([], w) else elim (get_spawn_position env w) [
      | none ↦ ([], w)
      | some spawn ↦
          let p = create_initial_player env id nick race klass spawn in
          elim (add_player id p w) [
            | none ↦ ([], w)
            | some v ↦ (
              Updates.player_spawned id nick (race_code race) (class_code klass) spawn
                  ∷ inventory_update id p
                  ∷ [],
              v,
            )
          ]
    ]
