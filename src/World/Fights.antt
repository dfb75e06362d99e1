-- ===== src/World/Fights.antt =====
-- server/world/world.cpp: `attack`, `heal` and `npc_attack` from end to end move nobody.
use mathlib.Core.Option.{some-injective}
use argentum_online_taller_g.Prelude.{
  ℕ, refl, sym, ap, ◌∙◌, Bool, true, false, not, Option, none, some, List, [], ◌∷◌, Bytes, inl, inr,
  Option-cases, if◌then◌else◌, lookup, length, get_elem?,
}
use argentum_online_taller_g.Prelude.Int.{ℤ, pos, pos_part, ◌-ℤ◌, ◌*ℤ◌}
use argentum_online_taller_g.Player.Character.{Character, Player, receive_damage}
use argentum_online_taller_g.Player.Experience.{add_experience, Loot}
use argentum_online_taller_g.Player.Experience
use argentum_online_taller_g.Protocol.Updates.{AttackResult}
use argentum_online_taller_g.World.State.{
  World, Game, Who, who_player, who_npc, NpcKind, city_npc, hostile_npc, body, alter_body, draw_int,
  get_character,
}
use argentum_online_taller_g.World.Ground.{drop_loot_in_world, drop_loot_on}
use argentum_online_taller_g.Config.{Position}
use argentum_online_taller_g.Inventory.{InventorySlot}
use argentum_online_taller_g.Registry.{create_item}
use argentum_online_taller_g.Float.{Float}
use argentum_online_taller_g.World.Combat
use argentum_online_taller_g.World.Combat.{
  AttackStatus, success, no_mana, validate_attack_conditions, clan_bonus, at_least_0,
  level_multiplier, get_nearby_clan_members_count, consume_resources, weapon_damage, kind_damage,
  calculate_base_damage, item_defense, calculate_defense, get_defense, equipped_kind, draw_unit,
  calculate_critical_attack, calculate_evasion, gain_experience,
}
use argentum_online_taller_g.World.Attack.{
  ◌>>=◌, refusal, attack_type, get_attack_name, items_only, random_item, hostile_loot, kind_loot,
  drop_loot, handle_target_death, handle_successful_attack, strike, choose_loot, is_dead,
  throw_attack, attack_on, attack, npc_attack, calculate_kill_experience_gain,
}
use argentum_online_taller_g.World.Quiet.{
  Quiet, Quiet-refl, Quiet-trans, elsewhere-Quiet, alter_player-Quiet, alter_body-Quiet,
  draw_int-Quiet, draw_float-Quiet, receive_damage-position, drop_loot-position,
}
use argentum_online_taller_g.World.Calm.{
  Ends, stops, ends, itself, second, Ends-bind, Ends-bind_value, Ends-after,
  consume_resources-Quiet, calculate_base_damage-Quiet, get_defense-Quiet, draw_unit-Quiet,
  calculate_critical_attack-Quiet, calculate_evasion-Quiet, gain_experience-Ends,
}

if-Ends :
    {A : Type 0} (b : Bool) {w : World} {end : A → World} {m n : Option A}
    → Ends w end m
    → Ends w end n
    → Ends w end (if b then m else n)
if-Ends true h k = h
if-Ends false h k = k

random_item-Ends :
    (game : Game) (keys : List Bytes) (w : World) → Ends w second (random_item game keys w)
unfolding random_item
random_item-Ends game [] w = ends (Quiet-refl w)
random_item-Ends game (k ∷ keys) w =
    let v = (draw_int game (pos 0) (pos (length keys)) w).1 in
    let i = (draw_int game (pos 0) (pos (length keys)) w).0 in
    let quiet = draw_int-Quiet game (pos 0) (pos (length keys)) w in
    elim (Option-cases (get_elem? (k ∷ keys) (pos_part i))) [
      | inl n ↦ rw (n, random_item) (ends quiet)
      | inr (key, e) ↦
          elim (Option-cases (create_item game.shop.registry (game.new_address v.draws) key)) [
            | inl n ↦ rw (e, n, random_item) stops
            | inr (it, g) ↦ rw (e, g, random_item) (ends quiet)
          ]
    ]

items_only-Ends :
    (w : World) {m : Option (List InventorySlot × World)}
    → Ends w second m
    → Ends w second (m >>= items_only)
items_only-Ends w h = Ends-bind w second second h λ (slots, v) q. ends q

choose_loot-Ends :
    (game : Game) (c : Character) (prob : Float) (w : World)
    → Ends w second (choose_loot game c prob w)
unfolding choose_loot
choose_loot-Ends game c prob w =
    let env = game.shop.env in
    let keys = game.shop.registry in
    if-Ends _
      (ends (draw_float-Quiet game env.npc_gold_drop_min_factor env.npc_gold_drop_max_factor w))
      (if-Ends _ (items_only-Ends w (random_item-Ends game keys.potion_keys w)) (
        if-Ends _ (items_only-Ends w (random_item-Ends game keys.other_keys w))
          (ends (Quiet-refl w))))

hostile_loot-Ends :
    (game : Game) (c : Character) (w : World) → Ends w second (hostile_loot game c w)
unfolding hostile_loot
hostile_loot-Ends game c w =
    let (prob, v) = draw_unit game w in
    Ends-after w v second (draw_unit-Quiet game w) (choose_loot-Ends game c prob v)

kind_loot-Ends :
    (game : Game) (k : NpcKind) (c : Character) (w : World) → Ends w second (kind_loot game k c w)
unfolding kind_loot
kind_loot-Ends game (city_npc _) c w = ends (Quiet-refl w)
kind_loot-Ends game (hostile_npc _) c w = hostile_loot-Ends game c w

drop_loot-Ends : (game : Game) (k : Who) (w : World) → Ends w second (drop_loot game k w)
unfolding drop_loot
drop_loot-Ends game (who_player i) w = elim (Option-cases (lookup i w.players)) [
  | inl n ↦ rw (n, drop_loot) (ends (Quiet-refl w))
  | inr (p, e) ↦
      let q = (Experience.drop_loot game.shop.env p).1 in
      rw (e, drop_loot)
        (ends (
          alter_player-Quiet i (λ _. q) w
            (λ r h.
              drop_loot-position game.shop.env p
              ∙ ap (λ (x : Player). x.position) (some-injective _ _ (sym e ∙ h)))))
]
drop_loot-Ends game (who_npc i) w = elim (Option-cases (lookup i w.npcs)) [
  | inl n ↦ rw (n, drop_loot) (ends (Quiet-refl w))
  | inr (n, e) ↦ rw (e, drop_loot) (kind_loot-Ends game n.kind n.character w)
]

calculate_kill_experience_gain-Quiet :
    (game : Game) (a t : Character) (w : World)
    → Quiet w (calculate_kill_experience_gain game a t w).1
unfolding calculate_kill_experience_gain
calculate_kill_experience_gain-Quiet game a t w =
    draw_float-Quiet game (game.shop.env.ops.of_int (pos 0)) game.shop.env.kill_bonus_factor w

drop_loot_in_world-Quiet :
    (p : Position) (loot : Loot) (w : World) → Quiet w (drop_loot_in_world p loot w)
unfolding drop_loot_in_world
drop_loot_in_world-Quiet p loot w =
    elsewhere-Quiet w (record w { ground_items = drop_loot_on w.map p loot w.ground_items }) refl
      refl refl refl refl

handle_target_death-Ends :
    (game : Game) (k target : Who) (w : World) → Ends w itself (handle_target_death game k target w)
unfolding handle_target_death
handle_target_death-Ends game k target w = Ends-bind_value w itself (body k w) λ a.
    Ends-bind_value w itself (body target w) λ t.
      let gain = calculate_kill_experience_gain game a t w in
      Ends-bind w itself itself
        (Ends-after w gain.1 itself (calculate_kill_experience_gain-Quiet game a t w)
          (gain_experience-Ends game k gain.0 gain.1))
        λ v q.
          Ends-bind w second itself (Ends-after w v second q (drop_loot-Ends game target v))
            λ dropped r. ends (
              Quiet-trans w dropped.1 (drop_loot_in_world t.position dropped.0 dropped.1) r
                (drop_loot_in_world-Quiet t.position dropped.0 dropped.1))

handle_successful_attack-Ends :
    (game : Game) (k target : Who) (damage : ℤ) (w : World)
    → Ends w second (handle_successful_attack game k target damage w)
unfolding handle_successful_attack
handle_successful_attack-Ends game k target damage w = Ends-bind_value w second (body k w) λ a.
    Ends-bind_value w second (body target w) λ t.
      let env = game.shop.env in
      let defended = get_defense game target w in
      let count = get_nearby_clan_members_count env target t.position defended.1 in
      let real = at_least_0 (damage -ℤ clan_bonus env count defended.0) in
      let hurt = alter_body target (receive_damage real) defended.1 in
      let gain = real *ℤ level_multiplier a t in
      Ends-bind w itself second
        (Ends-after w hurt itself
          (Quiet-trans w defended.1 hurt (get_defense-Quiet game target w) (
            alter_body-Quiet target (receive_damage real) defended.1
              (receive_damage-position real)))
          (gain_experience-Ends game k gain hurt))
        λ v q. ends q

strike-Ends :
    (game : Game) (k target : Who) (damage : ℤ) (critical evaded : Bool) (type : ℕ) (name : Bytes)
    (w : World)
    → Ends w second (strike game k target damage critical evaded type name w)
unfolding strike
strike-Ends game k target damage critical evaded type name w =
    Ends-bind w second second
      (if-Ends evaded (ends (Quiet-refl w)) (handle_successful_attack-Ends game k target damage w))
      λ hit q.
        Ends-bind w itself second
          (if-Ends (is_dead target hit.1)
            (Ends-after w hit.1 itself q (handle_target_death-Ends game k target hit.1)) (ends q))
          λ v r. ends r

if-Quiet :
    (b : Bool) {A : Type 0} (w : World) (x y : A × World)
    → Quiet w x.1
    → Quiet w y.1
    → Quiet w (if b then x else y).1
if-Quiet true w x y h k = h
if-Quiet false w x y h k = k

throw_attack-Quiet :
    (game : Game) (k target : Who) (a : Character) (w : World)
    → Quiet w (throw_attack game k target a w).1
unfolding throw_attack
throw_attack-Quiet game k target a w =
    let w1 = (calculate_base_damage game k w).1 in
    let w2 = (calculate_critical_attack game w1).1 in
    let w3 = (calculate_evasion game target w2).1 in
    let q : Quiet w w2 =
      Quiet-trans w w1 w2 (calculate_base_damage-Quiet game k w)
        (calculate_critical_attack-Quiet game w1) in
    if-Quiet _ w _ _ q (Quiet-trans w w2 w3 q (calculate_evasion-Quiet game target w2))

attack_on-Ends :
    (game : Game) (k target : Who) (a t : Character) (w : World)
    → Ends w second (attack_on game k target a t w)
unfolding attack_on
attack_on-Ends game k target a t w = go (validate_attack_conditions game.shop.env k a target t w)
  where
    v : World
    v = (consume_resources k w).1

    paid : Quiet w v
    paid = consume_resources-Quiet k w

    refuse : AttackStatus → AttackResult
    refuse s =
        refusal (Combat.get_id k) (Combat.get_id target) s (attack_type k w) (get_attack_name k w)

    thrown : (ℤ × Bool × Bool) × World
    thrown = throw_attack game k target a v

    struck : Ends w second (
        strike game k target
          (thrown.0).0
          (thrown.0).1
          (thrown.0).2
          (attack_type k w)
          (get_attack_name k w)
          thrown.1)
    struck =
        Ends-after w thrown.1 second
          (Quiet-trans w v thrown.1 paid (throw_attack-Quiet game k target a v))
          (strike-Ends game k target (thrown.0).0 (thrown.0).1 (thrown.0).2 (attack_type k w)
            (get_attack_name k w) thrown.1)

    go :
        (s : AttackStatus)
        → Ends w second (elim s as (λ _. Option (AttackResult × World)) [
          | success ↦
              if not (consume_resources k w).0
              then some (refuse no_mana, v)
              else strike game k target
                  (thrown.0).0
                  (thrown.0).1
                  (thrown.0).2
                  (attack_type k w)
                  (get_attack_name k w)
                  thrown.1
          | other ↦ some (refuse other, w)
        ])
    go success = if-Ends _ (ends paid) struck
    go no_mana = ends (Quiet-refl w)
    go _ = ends (Quiet-refl w)

missing-Ends :
    {A B : Type 0} (w : World) {m : Option (A × World)} (o : Option B) {f : B → Option (A × World)}
    → Ends w second m
    → ((b : B) → Ends w second (f b))
    → Ends w second (elim o as (λ _. Option (A × World)) [ none ↦ m | some b ↦ f b ])
missing-Ends w none h k = h
missing-Ends w (some b) h k = k b

-- An attack moves nobody, whatever comes of it.
pub attack-Ends : (game : Game) (i j : ℕ) (w : World) → Ends w second (attack game i j w)
unfolding attack
attack-Ends game i j w =
    let missing = ends (Quiet-refl w) in
    missing-Ends w (get_character i w) missing λ k.
      missing-Ends w (get_character j w) missing λ target.
        missing-Ends w (body k w) missing
          λ a. missing-Ends w (body target w) missing λ t. attack_on-Ends game k target a t w

pub npc_attack-Ends :
    (game : Game) (key : ℕ) (target : Who) (w : World)
    → Ends w second (npc_attack game key target w)
unfolding npc_attack
npc_attack-Ends game key target w =
    let thrown = calculate_base_damage game (who_npc key) w in
    let evades = calculate_evasion game target thrown.1 in
    Ends-after w evades.1 second
      (Quiet-trans w thrown.1 evades.1 (calculate_base_damage-Quiet game (who_npc key) w)
        (calculate_evasion-Quiet game target thrown.1))
      (strike-Ends game (who_npc key) target thrown.0 false evades.0 0
        (get_attack_name (who_npc key) w) evades.1)
