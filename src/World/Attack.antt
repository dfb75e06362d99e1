-- ===== src/World/Attack.antt =====
-- server/world/world.cpp: `attack`, `heal` and `npc_attack` from end to end, with the experience and
-- the loot that they lead to. `none` is an exception, or the loop of level-ups out of fuel.
use argentum_online_taller_g.Prelude.{
  ℕ, Bool, true, false, not, ◌&&◌, ◌||◌, Option, none, some, List, [], ◌∷◌, Bytes, if◌then◌else◌,
  length, get_elem?, lookup,
}
use argentum_online_taller_g.Prelude.Int.{ℤ, pos, pos_part, ◌-ℤ◌, ◌*ℤ◌, leb_ℤ}
use argentum_online_taller_g.Float.{Float}
use argentum_online_taller_g.Item.{Item, ItemKind, plain_weapon, magic_weapon, weapon, does_heal}
use argentum_online_taller_g.Inventory.{get_equipped_item, InventorySlot}
use argentum_online_taller_g.Registry.{create_item}
use argentum_online_taller_g.Player.Character.{Character, Player, receive_damage}
use argentum_online_taller_g.Player.Character
use argentum_online_taller_g.Player.Equipment.{is_ranged_attack, is_magic_attack}
use argentum_online_taller_g.Player.Experience.{Loot}
use argentum_online_taller_g.Player.Experience
use argentum_online_taller_g.Protocol.Updates.{AttackResult}
use argentum_online_taller_g.World.Ground.{drop_loot_in_world}
use argentum_online_taller_g.World.State.{
  World, Game, Who, who_player, who_npc, NpcKind, city_npc, hostile_npc, body, alter_body,
  alter_player, get_character, draw_int, draw_float,
}
use argentum_online_taller_g.World.Combat
use argentum_online_taller_g.World.Combat.{
  AttackStatus, success, no_mana, out_of_range, invalid_target, dead_target, full_hp,
  cannot_heal_npc, status_code, validate_attack_conditions, get_clan_id, is_in_range_for_attack,
  consume_resources, equipped_kind, calculate_base_damage, get_defense, draw_unit,
  calculate_critical_attack, calculate_evasion, get_nearby_clan_members_count, clan_bonus,
  level_multiplier, gain_experience, at_least_0,
}

infixl 5 ◌>>=◌
abbrev pub ◌>>=◌ : {A B : Type 0} → Option A → (A → Option B) → Option B
none >>= f = none
some a >>= f = f a

-- "Ataque con puños".
abbrev fists : Bytes
fists =
    b'A' ∷ b't' ∷ b'a' ∷ b'q' ∷ b'u' ∷ b'e' ∷ 0x20 ∷ b'c' ∷ b'o' ∷ b'n' ∷ 0x20 ∷ b'p' ∷ b'u' ∷ 0xC3
    ∷ 0xB1 ∷ b'o' ∷ b's' ∷ []

-- `Weapon::get_attack_name` and its override.
unfoldable pub item_attack_name : Item → Bytes
item_attack_name it = elim it.kind [ magic_weapon s _ ↦ s.name | _ ↦ it.name ]

unfoldable pub get_attack_name : Who → World → Bytes
unfolding item_attack_name
get_attack_name (who_npc i) w = []
get_attack_name (who_player i) w = elim (lookup i w.players) [
  | none ↦ []
  | some p ↦ elim (get_equipped_item p.inventory weapon) [
    | none ↦ fists
    | some it ↦ item_attack_name it
  ]
]

-- NORMAL, RANGED and MAGIC.
unfoldable pub attack_type : Who → World → ℕ
attack_type (who_npc i) w = 0
attack_type (who_player i) w = elim (lookup i w.players) [
  | none ↦ 0
  | some p ↦ if is_magic_attack p then 2 else if is_ranged_attack p then 1 else 0
]

-- The answer to what is refused.
abbrev pub refusal : ℕ → ℕ → AttackStatus → ℕ → Bytes → AttackResult
refusal a t status type name = record {
  attacker_id = a;
  target_id = t;
  damage = pos 0;
  evaded = false;
  target_died = false;
  is_critical = false;
  is_healing = false;
  heal_amount = pos 0;
  status = status_code status;
  type = type;
  weapon_or_spell_name = name;
  target_clan_id = 0;
}

-- One unit of an item that is made, or nothing where there is none to choose from.
unfoldable pub random_item : Game → List Bytes → World → Option (List InventorySlot × World)
random_item game [] w = some ([], w)
random_item game (k ∷ keys) w =
    let (i, v) = draw_int game (pos 0) (pos (length keys)) w in
    elim (get_elem? (k ∷ keys) (pos_part i)) [
      | none ↦ some ([], v)
      | some key ↦ elim (create_item game.shop.registry (game.new_address v.draws) key) [
        | none ↦ none
        | some it ↦ some (record { item = some it; quantity = 1; equipped_slot = none } ∷ [], v)
      ]
    ]

abbrev pub items_only : List InventorySlot × World → Option (Loot × World)
items_only (slots, w) = some (record { dropped_gold = 0; dropped_items = slots }, w)

abbrev pub nothing : Loot
nothing = record { dropped_gold = 0; dropped_items = [] }

-- `HostileNPC::drop_loot` after its first throw, with `calculate_npc_dropped_gold`.
unfoldable pub choose_loot : Game → Character → Float → World → Option (Loot × World)
unfolding random_item
choose_loot game c prob w =
    let env = game.shop.env in
    let ops = env.ops in
    let p1 = env.npc_drop_nothing_prob in
    let p2 = ops.add p1 env.npc_drop_gold_prob in
    let p3 = ops.add p2 env.npc_drop_potion_prob in
    let p4 = ops.add p3 env.npc_drop_item_prob in
    let (factor, v) = draw_float game env.npc_gold_drop_min_factor env.npc_gold_drop_max_factor w in
    let gold = ops.to_u64 (ops.mul factor (ops.of_int c.max_hp)) in
    if ops.le p1 prob && ops.lt prob p2
    then some (record { dropped_gold = gold; dropped_items = [] }, v)
    else if ops.le p2 prob && ops.lt prob p3
    then random_item game game.shop.registry.potion_keys w >>= items_only
    else if ops.le p3 prob && ops.lt prob p4
    then random_item game game.shop.registry.other_keys w >>= items_only
    else some (nothing, w)

unfoldable pub hostile_loot : Game → Character → World → Option (Loot × World)
unfolding draw_unit choose_loot
hostile_loot game c w = let (prob, v) = draw_unit game w in choose_loot game c prob v

unfoldable pub kind_loot : Game → NpcKind → Character → World → Option (Loot × World)
unfolding hostile_loot
kind_loot game (city_npc _) c w = some (nothing, w)
kind_loot game (hostile_npc _) c w = hostile_loot game c w

unfoldable pub drop_loot : Game → Who → World → Option (Loot × World)
unfolding kind_loot
drop_loot game (who_player i) w = elim (lookup i w.players) [
  | none ↦ some (nothing, w)
  | some p ↦
      let (loot, q) = Experience.drop_loot game.shop.env p in some (loot, alter_player i (λ _. q) w)
]
drop_loot game (who_npc i) w = elim (lookup i w.npcs) [
  | none ↦ some (nothing, w)
  | some n ↦ kind_loot game n.kind n.character w
]

-- `calculate_kill_experience_gain`.
unfoldable pub calculate_kill_experience_gain : Game → Character → Character → World → ℤ × World
calculate_kill_experience_gain game a t w =
    let env = game.shop.env in
    let ops = env.ops in
    let (r, v) = draw_float game (ops.of_int (pos 0)) env.kill_bonus_factor w in
    (ops.to_int (ops.mul (ops.mul r (ops.of_int t.max_hp)) (ops.of_int (level_multiplier a t))), v)

unfoldable pub handle_target_death : Game → Who → Who → World → Option World
unfolding calculate_kill_experience_gain
handle_target_death game who target w = do
  a ← body who w
  t ← body target w
  let gain = calculate_kill_experience_gain game a t w
  v ← gain_experience game who gain.0 gain.1
  dropped ← drop_loot game target v
  some (drop_loot_in_world t.position dropped.0 dropped.1)

-- The damage that is done, and the world after it.
unfoldable pub handle_successful_attack : Game → Who → Who → ℤ → World → Option (ℤ × World)
handle_successful_attack game who target damage w = do
  a ← body who w
  t ← body target w
  let env = game.shop.env
  let defended = get_defense game target w
  let count = get_nearby_clan_members_count env target t.position defended.1
  let real = at_least_0 (damage -ℤ clan_bonus env count defended.0)
  let hurt = alter_body target (receive_damage real) defended.1
  v ← gain_experience game who (real *ℤ level_multiplier a t) hurt
  some (real, v)

-- Who is dead.
unfoldable pub is_dead : Who → World → Bool
is_dead who w = elim (body who w) [ none ↦ false | some c ↦ c.dead ]

-- From the decision on, whether the target evades: what `attack` and `npc_attack` share.
unfoldable pub strike :
    Game
    → Who
    → Who
    → ℤ
    → (critical evaded : Bool) → ℕ
    → Bytes
    → World
    → Option (AttackResult × World)
unfolding handle_successful_attack handle_target_death is_dead
strike game who target damage critical evaded type name w = do
  hit ← (if evaded then some (pos 0, w) else handle_successful_attack game who target damage w)
  let died = is_dead target hit.1
  v ← (if died then handle_target_death game who target hit.1 else some hit.1)
  some (
    record (refusal (Combat.get_id who) (Combat.get_id target) success type name) {
      damage = hit.0;
      evaded = evaded;
      target_died = died;
      is_critical = critical;
      target_clan_id = get_clan_id target v;
    },
    v,
  )

-- The damage with the bonus of the clan, the throw for a critical attack, and the one for evasion,
-- which a critical attack spares.
unfoldable pub throw_attack : Game → Who → Who → Character → World → (ℤ × Bool × Bool) × World
throw_attack game who target a w =
    let env = game.shop.env in
    let (base, w1) = calculate_base_damage game who w in
    let count = get_nearby_clan_members_count env who a.position w1 in
    let (critical, w2) = calculate_critical_attack game w1 in
    let (evades, w3) = calculate_evasion game target w2 in
    let damage = clan_bonus env count base in
    if critical
    then ((damage *ℤ env.critical_multiplier, true, false), w2)
    else ((damage, false, evades), w3)

-- Between two characters that there are.
unfoldable pub attack_on :
    Game → Who → Who → Character → Character → World → Option (AttackResult × World)
unfolding strike
attack_on game who target a t w =
    let refuse = λ (s : AttackStatus).
      refusal (Combat.get_id who) (Combat.get_id target) s (attack_type who w)
        (get_attack_name who w) in
    let (paid, v) = consume_resources who w in
    let thrown = throw_attack game who target a v in
    elim (validate_attack_conditions game.shop.env who a target t w) [
      | success ↦
          if not paid
          then some (refuse no_mana, v)
          else strike game who target (thrown.0).0 (thrown.0).1 (thrown.0).2 (attack_type who w)
              (get_attack_name who w) thrown.1
      | other ↦ some (refuse other, w)
    ]

unfoldable pub attack : Game → ℕ → ℕ → World → Option (AttackResult × World)
unfolding attack_on
attack game attacker_id target_id w =
    let missing : Option (AttackResult × World) =
      some (refusal attacker_id target_id invalid_target 0 [], w) in
    elim (get_character attacker_id w) [
      | none ↦ missing
      | some who ↦ elim (get_character target_id w) [
        | none ↦ missing
        | some target ↦ elim (body who w) [
          | none ↦ missing
          | some a ↦ elim (body target w) [
            | none ↦ missing
            | some t ↦ attack_on game who target a t w
          ]
        ]
      ]
    ]

-- `calculate_base_healing`, as `WeaponEffect::healing` of what is wielded.
unfoldable pub weapon_healing : Game → Option ItemKind → World → ℤ × World
weapon_healing game (some (magic_weapon s _)) w =
    if does_heal s
    then draw_int game s.min_heal s.max_heal w
    else (pos 0, (draw_int game s.min_damage s.max_damage w).1)
weapon_healing game (some (plain_weapon low high _)) w = (pos 0, (draw_int game low high w).1)
weapon_healing game _ w = (pos 0, w)

unfoldable pub calculate_base_healing : Game → Who → World → ℤ × World
unfolding weapon_healing
calculate_base_healing game (who_npc i) w = (pos 0, w)
calculate_base_healing game (who_player i) w = elim (lookup i w.players) [
  | none ↦ (pos 0, w)
  | some p ↦ weapon_healing game (equipped_kind weapon p) w
]

-- The conditions of a healing, in their order; the target is a player where it is `who_player`.
unfoldable pub validate_heal_conditions : Who → Character → Who → Character → World → AttackStatus
validate_heal_conditions who a target t w =
    let known : AttackStatus = elim target [
      | who_npc _ ↦ cannot_heal_npc
      | who_player _ ↦ if leb_ℤ t.max_hp t.current_hp then full_hp else success
    ] in
    if a.dead || t.dead
    then dead_target
    else if not (is_in_range_for_attack who a.position t.position w)
    then out_of_range
    else known

unfoldable pub heal_on : Game → Who → Who → Character → Character → World → AttackResult × World
unfolding calculate_base_healing
heal_on game who target a t w =
    let name = get_attack_name who w in
    let refuse =
      λ (s : AttackStatus). refusal (Combat.get_id who) (Combat.get_id target) s 2 name in
    let (paid, v) = consume_resources who w in
    let (potential, u) = calculate_base_healing game who v in
    let healed = (Character.heal potential t).0 in
    elim (validate_heal_conditions who a target t w) [
      | success ↦ if not paid then (refuse no_mana, v) else (
        record (refuse success) { is_healing = true; heal_amount = healed },
        alter_body target (λ c. (Character.heal potential c).1) u,
      )
      | other ↦ (refuse other, w)
    ]

unfoldable pub heal : Game → ℕ → ℕ → World → AttackResult × World
unfolding heal_on
heal game healer_id target_id w =
    let missing : AttackResult × World = (refusal healer_id target_id invalid_target 2 [], w) in
    elim (get_character healer_id w) [
      | none ↦ missing
      | some who ↦ elim (get_character target_id w) [
        | none ↦ missing
        | some target ↦ elim (body who w) [
          | none ↦ missing
          | some a ↦ elim (body target w) [
            | none ↦ missing
            | some t ↦ heal_on game who target a t w
          ]
        ]
      ]
    ]

-- A hostile character checks no conditions and pays nothing.
unfoldable pub npc_attack : Game → ℕ → Who → World → Option (AttackResult × World)
unfolding strike
npc_attack game npc_id target w =
    let (damage, v) = calculate_base_damage game (who_npc npc_id) w in
    let (evaded, u) = calculate_evasion game target v in
    strike game (who_npc npc_id) target damage false evaded 0 (get_attack_name (who_npc npc_id) w) u
