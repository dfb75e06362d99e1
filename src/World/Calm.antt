-- ===== src/World/Calm.antt =====
-- server/world/world.cpp: an attack or a healing moves nobody, whatever comes of it.
use mathlib.Core.Option.{some-injective}
use argentum_online_taller_g.Prelude.{
  sym, ap, ◌∙◌, Option, none, some, inl, inr, Bool-cases, Option-cases, lookup,
}
use argentum_online_taller_g.Prelude.Int.{ℤ, pos}
use argentum_online_taller_g.Item.{
  ItemKind, plain_weapon, magic_weapon, defensive, consumable, armor, shield, helmet, weapon,
  does_heal,
}
use argentum_online_taller_g.Player.Character.{Player}
use argentum_online_taller_g.Player.Formulas.{int_to_u64}
use argentum_online_taller_g.Player.Equipment.{consume_attack_resources}
use argentum_online_taller_g.Player.Experience.{add_experience}
use argentum_online_taller_g.World.State.{
  World, Game, Who, who_player, who_npc, Npc, NpcKind, city_npc, hostile_npc,
}
use argentum_online_taller_g.World.Combat.{
  consume_resources, weapon_damage, kind_damage, calculate_base_damage, item_defense,
  calculate_defense, get_defense, equipped_kind, draw_unit, calculate_critical_attack,
  calculate_evasion, gain_experience,
}
use argentum_online_taller_g.World.Attack.{◌>>=◌}
use argentum_online_taller_g.World.Quiet.{
  Quiet, Quiet-refl, Quiet-trans, alter_player-Quiet, draw_int-Quiet, draw_float-Quiet,
  consume_attack_resources-position, add_experience-position,
}

pub consume_resources-Quiet : (k : Who) (w : World) → Quiet w (consume_resources k w).1
unfolding consume_resources
consume_resources-Quiet (who_npc i) w = Quiet-refl w
consume_resources-Quiet (who_player i) w = elim (Option-cases (lookup i w.players)) [
  | inl n ↦ rw (n, consume_resources) (Quiet-refl w)
  | inr (p, e) ↦
      rw (e, consume_resources)
        (alter_player-Quiet i (λ q. (consume_attack_resources q).1) w
          (λ q h. consume_attack_resources-position q))
]

weapon_damage-Quiet :
    (game : Game) (p : Player) (k : Option ItemKind) (w : World)
    → Quiet w (weapon_damage game p k w).1
unfolding weapon_damage
weapon_damage-Quiet game p none w = draw_int-Quiet game p.strength p.strength w
weapon_damage-Quiet game p (some (plain_weapon a b r)) w = draw_int-Quiet game a b w
weapon_damage-Quiet game p (some (magic_weapon s c)) w = elim (Bool-cases (does_heal s)) [
  | inl t ↦ rw (t, weapon_damage) (draw_int-Quiet game s.min_heal s.max_heal w)
  | inr f ↦ rw (f, weapon_damage) (draw_int-Quiet game s.min_damage s.max_damage w)
]
weapon_damage-Quiet game p (some (defensive a b e)) w = draw_int-Quiet game p.strength p.strength w
weapon_damage-Quiet game p (some (consumable t r)) w = draw_int-Quiet game p.strength p.strength w

pub calculate_base_damage-Quiet :
    (game : Game) (k : Who) (w : World) → Quiet w (calculate_base_damage game k w).1
unfolding calculate_base_damage
calculate_base_damage-Quiet game (who_player i) w = go (lookup i w.players)
  where
    go :
        (o : Option Player)
        → Quiet w
            (elim o as (λ _. ℤ × World) [
              | none ↦ (pos 0, w)
              | some p ↦ weapon_damage game p (equipped_kind weapon p) w
            ]).1
    go none = Quiet-refl w
    go (some p) = weapon_damage-Quiet game p (equipped_kind weapon p) w
calculate_base_damage-Quiet game (who_npc i) w = go (lookup i w.npcs)
  where
    kinds : (k : NpcKind) → Quiet w (kind_damage game k w).1
    kinds (city_npc c) = Quiet-refl w
    kinds (hostile_npc h) = draw_int-Quiet game h.min_damage h.max_damage w

    go :
        (o : Option Npc)
        → Quiet w
            (elim o as (λ _. ℤ × World) [
              | none ↦ (pos 0, w)
              | some n ↦ kind_damage game n.kind w
            ]).1
    go none = Quiet-refl w
    go (some n) = kinds n.kind

item_defense-Quiet :
    (game : Game) (k : Option ItemKind) (w : World) → Quiet w (item_defense game k w).1
unfolding item_defense
item_defense-Quiet game none w = Quiet-refl w
item_defense-Quiet game (some (defensive a b e)) w = draw_int-Quiet game a b w
item_defense-Quiet game (some (plain_weapon a b r)) w = Quiet-refl w
item_defense-Quiet game (some (magic_weapon s c)) w = Quiet-refl w
item_defense-Quiet game (some (consumable t r)) w = Quiet-refl w

calculate_defense-Quiet :
    (game : Game) (p : Player) (w : World) → Quiet w (calculate_defense game p w).1
unfolding calculate_defense
calculate_defense-Quiet game p w =
    let a = item_defense game (equipped_kind armor p) w in
    let b = item_defense game (equipped_kind shield p) a.1 in
    let c = item_defense game (equipped_kind helmet p) b.1 in
    Quiet-trans w a.1 c.1 (item_defense-Quiet game (equipped_kind armor p) w) (
      Quiet-trans a.1 b.1 c.1 (item_defense-Quiet game (equipped_kind shield p) a.1)
        (item_defense-Quiet game (equipped_kind helmet p) b.1))

pub get_defense-Quiet : (game : Game) (k : Who) (w : World) → Quiet w (get_defense game k w).1
unfolding get_defense
get_defense-Quiet game (who_player i) w = go (lookup i w.players)
  where
    go :
        (o : Option Player)
        → Quiet w
            (elim o as (λ _. ℤ × World) [
              | none ↦ (pos 0, w)
              | some p ↦ calculate_defense game p w
            ]).1
    go none = Quiet-refl w
    go (some p) = calculate_defense-Quiet game p w
get_defense-Quiet game (who_npc i) w = go (lookup i w.npcs)
  where
    go :
        (o : Option Npc)
        → Quiet w (elim o as (λ _. ℤ × World) [ none ↦ (pos 0, w) | some n ↦ (n.defense, w) ]).1
    go none = Quiet-refl w
    go (some n) = Quiet-refl w

pub draw_unit-Quiet : (game : Game) (w : World) → Quiet w (draw_unit game w).1
unfolding draw_unit
draw_unit-Quiet game w =
    let ops = game.shop.env.ops in draw_float-Quiet game (ops.of_int (pos 0)) (ops.of_int (pos 1)) w

pub calculate_critical_attack-Quiet :
    (game : Game) (w : World) → Quiet w (calculate_critical_attack game w).1
unfolding calculate_critical_attack
calculate_critical_attack-Quiet game w = draw_unit-Quiet game w

pub calculate_evasion-Quiet :
    (game : Game) (k : Who) (w : World) → Quiet w (calculate_evasion game k w).1
unfolding calculate_evasion
calculate_evasion-Quiet game k w = draw_unit-Quiet game w

-- The world that a call ends with, where it ends, is quiet.
pub data Ends {A : Type 0} (w : World) (world : A → World) : Option A → Type 0 where
  stops : Ends w world none
  ends : {a : A} → Quiet w (world a) → Ends w world (some a)

abbrev pub itself : World → World
itself w = w

abbrev pub second : {A : Type 0} → A × World → World
second (a, w) = w

pub Ends-bind :
    {A B : Type 0} (w : World) (world : A → World) (end : B → World) {m : Option A}
    {f : A → Option B}
    → Ends w world m
    → ((a : A) → Quiet w (world a) → Ends w end (f a))
    → Ends w end (m >>= f)
Ends-bind w world end stops k = stops
Ends-bind w world end (ends {a = a} q) k = k a q

-- A value that has no world.
pub Ends-bind_value :
    {A B : Type 0} (w : World) (end : B → World) (m : Option A) {f : A → Option B}
    → ((a : A) → Ends w end (f a))
    → Ends w end (m >>= f)
Ends-bind_value w end none k = stops
Ends-bind_value w end (some a) k = k a

pub Ends-after :
    {A : Type 0} (u w : World) (end : A → World) {m : Option A}
    → Quiet u w
    → Ends w end m
    → Ends u end m
Ends-after u w end q stops = stops
Ends-after u w end q (ends {a = a} r) = ends (Quiet-trans u w (end a) q r)

pub gain_experience-Ends :
    (game : Game) (k : Who) (amount : ℤ) (w : World)
    → Ends w itself (gain_experience game k amount w)
unfolding gain_experience
gain_experience-Ends game (who_npc i) amount w = ends (Quiet-refl w)
gain_experience-Ends game (who_player i) amount w = elim (Option-cases (lookup i w.players)) [
  | inl n ↦ rw (n, gain_experience) (ends (Quiet-refl w))
  | inr (p, e) ↦
      elim (Option-cases (add_experience game.level_ups game.shop.env (int_to_u64 amount) p)) [
        | inl n ↦ rw (e, n, gain_experience) stops
        | inr (q, g) ↦
            rw (e, g, gain_experience)
              (ends (
                alter_player-Quiet i (λ _. q) w
                  (λ r h.
                    add_experience-position game.level_ups game.shop.env (int_to_u64 amount) p q g
                    ∙ ap (λ (x : Player). x.position) (some-injective _ _ (sym e ∙ h)))))
      ]
]
