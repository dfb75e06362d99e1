-- ===== src/World/Quiet.antt =====
-- server/world/world.cpp: fights, healing, recovery and what players take or drop move nobody.
use mathlib.Core.Option
use mathlib.Core.Option.{some-injective}
use argentum_online_taller_g.Prelude.{
  ℕ, zero, suc, ◌+◌, ◌≡◌, refl, ap, ◌∙◌, ◌==◌, Option, none, some, inl, inr, Bool-cases, arith,
  lookup, Dict,
}
use argentum_online_taller_g.Prelude.Int.{ℤ}
use argentum_online_taller_g.Float.{Float}
use argentum_online_taller_g.Config.{Env}
use argentum_online_taller_g.Player.Character.{
  Character, Player, receive_damage, set_level, set_initial_stats, consume_mana, heal_player,
  restore_mana,
}
use argentum_online_taller_g.Player.Character
use argentum_online_taller_g.Player.Equipment.{consume_attack_resources}
use argentum_online_taller_g.Player.Experience.{level_up, level_up_loop, add_experience}
use argentum_online_taller_g.Player.Experience
use argentum_online_taller_g.World.State.{
  World, Game, Who, who_player, who_npc, Npc, body, adjust, alter_body, alter_player, alter_npc,
  with_players, draw_int, draw_float,
}
use argentum_online_taller_g.World.Places.{
  place_of, stands, IsStill, IsStill-refl, IsStill-trans, lookup-adjust, lookup-adjust-none,
}

-- Nobody has moved, and no character of the game has come.
pub record Quiet (w v : World) : Type 0 where
  pub still : IsStill w v
  pub nobody_new : (i : ℕ) → lookup i w.npcs ≡ none → lookup i v.npcs ≡ none
  pub next : v.next_npc_id ≡ w.next_npc_id

pub Quiet-refl : (w : World) → Quiet w w
Quiet-refl w = record { still = IsStill-refl w; nobody_new = λ i h. h; next = refl }

pub Quiet-trans : (u v w : World) → Quiet u v → Quiet v w → Quiet u w
Quiet-trans u v w a b = record {
  still = IsStill-trans u v w a.still b.still;
  nobody_new = λ i h. b.nobody_new i (a.nobody_new i h);
  next = b.next ∙ a.next;
}

-- A change to other fields.
pub elsewhere-Quiet :
    (w v : World)
    → v.map ≡ w.map
    → v.occupied ≡ w.occupied
    → v.players ≡ w.players
    → v.npcs ≡ w.npcs
    → v.next_npc_id ≡ w.next_npc_id
    → Quiet w v
unfolding body
elsewhere-Quiet w v m o p n x = record {
  still = record { map = m; occupied = o; stands = same };
  nobody_new = λ i h. ap (lookup i) n ∙ h;
  next = x;
}
  where
    same : (k : Who) → stands v k ≡ stands w k
    same (who_player i) =
        ap (λ d. place_of (Option.map (λ (q : Player). q.character) (lookup i d))) p
    same (who_npc i) = ap (λ d. place_of (Option.map (λ (q : Npc). q.character) (lookup i d))) n

-- A map whose characters stand where they stood.
pub players-Quiet :
    (w : World) (players : Dict Player)
    → ((i : ℕ)
        → place_of (Option.map (λ (q : Player). q.character) (lookup i players))
          ≡ place_of (Option.map (λ (q : Player). q.character) (lookup i w.players)))
    → Quiet w (with_players players w)
unfolding body
players-Quiet w players same = record {
  still = record { map = refl; occupied = refl; stands = all };
  nobody_new = λ i h. h;
  next = refl;
}
  where
    all : (k : Who) → stands (with_players players w) k ≡ stands w k
    all (who_player i) = same i
    all (who_npc i) = refl

place-map :
    {V : Type 0} (g : V → Character) (f : V → V) (o : Option V)
    → ((v : V) → o ≡ some v → (g (f v)).position ≡ (g v).position)
    → place_of (Option.map g (Option.map f o)) ≡ place_of (Option.map g o)
place-map g f none e = refl
place-map g f (some v) e = ap some (e v refl)

place-adjust :
    {V : Type 0} (g : V → Character) (f : V → V) (i j : ℕ) (m : Dict V)
    → ((v : V) → lookup i m ≡ some v → (g (f v)).position ≡ (g v).position)
    → place_of (Option.map g (lookup j (adjust i f m))) ≡ place_of (Option.map g (lookup j m))
place-adjust g f i j m e = elim (Bool-cases (i == j)) [
  | inl t ↦
      let same : i ≡ j = ground (arith, t) in
      ap (λ o. place_of (Option.map g o)) (lookup-adjust j i f m ∙ rw t refl)
      ∙ place-map g f (lookup j m) (λ v h. e v (rw same h))
  | inr d ↦ ap (λ o. place_of (Option.map g o)) (lookup-adjust j i f m ∙ rw d refl)
]

pub alter_player-Quiet :
    (i : ℕ) (f : Player → Player) (w : World)
    → ((p : Player) → lookup i w.players ≡ some p → (f p).position ≡ p.position)
    → Quiet w (alter_player i f w)
unfolding alter_player
alter_player-Quiet i f w e =
    players-Quiet w (adjust i f w.players)
      (λ j. place-adjust (λ (q : Player). q.character) f i j w.players e)

pub alter_npc-Quiet :
    (i : ℕ) (f : Npc → Npc) (w : World)
    → ((n : Npc) → (f n).position ≡ n.position)
    → Quiet w (alter_npc i f w)
unfolding alter_npc body
alter_npc-Quiet i f w e = record {
  still = record { map = refl; occupied = refl; stands = all };
  nobody_new = λ j h. lookup-adjust-none j i f w.npcs h;
  next = refl;
}
  where
    all : (k : Who) → stands (alter_npc i f w) k ≡ stands w k
    all (who_player j) = refl
    all (who_npc j) = place-adjust (λ (q : Npc). q.character) f i j w.npcs (λ n h. e n)

pub alter_body-Quiet :
    (k : Who) (f : Character → Character) (w : World)
    → ((c : Character) → (f c).position ≡ c.position)
    → Quiet w (alter_body k f w)
unfolding alter_body
alter_body-Quiet (who_player i) f w e =
    alter_player-Quiet i (λ p. record p { character = f p.character }) w (λ p h. e p.character)
alter_body-Quiet (who_npc i) f w e =
    alter_npc-Quiet i (λ n. record n { character = f n.character }) w (λ n. e n.character)

pub draw_int-Quiet : (game : Game) (a b : ℤ) (w : World) → Quiet w (draw_int game a b w).1
unfolding draw_int
draw_int-Quiet game a b w =
    elsewhere-Quiet w (record w { draws = w.draws + 1 }) refl refl refl refl refl

pub draw_float-Quiet : (game : Game) (a b : Float) (w : World) → Quiet w (draw_float game a b w).1
unfolding draw_float
draw_float-Quiet game a b w =
    elsewhere-Quiet w (record w { draws = w.draws + 1 }) refl refl refl refl refl

-- What fights do to a player or a character leaves it where it stands.
pub receive_damage-position : (d : ℤ) (c : Character) → (receive_damage d c).position ≡ c.position
unfolding receive_damage
receive_damage-position d c = ground arith

pub heal-position : (a : ℤ) (c : Character) → (Character.heal a c).1.position ≡ c.position
unfolding Character.heal
heal-position a c = ground arith

pub consume_attack_resources-position :
    (p : Player) → (consume_attack_resources p).1.position ≡ p.position
unfolding consume_attack_resources consume_mana
consume_attack_resources-position p = ground arith

pub level_up-position : (env : Env) (p : Player) → (level_up env p).position ≡ p.position
unfolding level_up set_level set_initial_stats
level_up-position env p = refl

level_up_loop-position :
    (fuel : ℕ) (env : Env) (p q : Player)
    → level_up_loop fuel env p ≡ some q
    → q.position ≡ p.position
unfolding level_up_loop
level_up_loop-position zero env p q h = absurd (cc)
level_up_loop-position (suc fuel) env p q h =
    ground (arith, h, level_up_loop-position fuel env (level_up env p) q, level_up-position env p)

pub add_experience-position :
    (fuel : ℕ) (env : Env) (amount : ℕ) (p q : Player)
    → add_experience fuel env amount p ≡ some q
    → q.position ≡ p.position
unfolding add_experience
add_experience-position fuel env amount p q h = level_up_loop-position fuel env _ q h

pub drop_loot-position :
    (env : Env) (p : Player) → (Experience.drop_loot env p).1.position ≡ p.position
unfolding Experience.drop_loot Experience.drop_gold Experience.drop_experience
    Experience.remove_experience
drop_loot-position env p = ground arith
