-- ===== src/World/Settled.antt =====
-- server/world/world.cpp: a tick of the world, and everything that leads from one world to the next,
-- keeps `occupied` right.
use mathlib.Core.Option
use mathlib.Core.Option.{some-injective}
use argentum_online_taller_g.Prelude.{
  ℕ, ◌^◌, ◌≤◌, ◌<◌, ◌≡◌, refl, sym, ap, Bool, true, false, Option, none, some, List, [], ◌∷◌, inl,
  inr, Bool-cases, subst, if◌then◌else◌, arith, lookup, insert, erase, Dict, map, ◌==◌,
}
use argentum_online_taller_g.Prelude.Int.{pos}
use argentum_online_taller_g.Float.{Float}
use argentum_online_taller_g.Config.{Env, Position}
use argentum_online_taller_g.Player.Character.{Player, Direction, resurrect}
use argentum_online_taller_g.Protocol.Updates.{AttackResult}
use argentum_online_taller_g.World.State.{
  World, Game, Who, who_player, Npc, NpcKind, city_npc, hostile_npc, PendingResurrection, alter_npc,
  alter_player, get_character, get_players_near,
}
use argentum_online_taller_g.World.Movement.{move_character, teleport_player}
use argentum_online_taller_g.World.Places.{place_of, IsPlaced, IsStill-IsPlaced}
use argentum_online_taller_g.World.Walks.{
  move_character-IsPlaced, teleport_player-IsPlaced, move_character_cases, teleport_player_cases,
  walk-npcs, relocate-npcs,
}
use argentum_online_taller_g.World.Update.{
  recover_hp, recover_mana, recover, recover_entry, update_players, come_back, resurrections_loop,
  behave, npc_move_towards, chase_direction, act, NpcBehavior, stay, chase, attack, update_kind,
}
use argentum_online_taller_g.World.Attack.{npc_attack}
use argentum_online_taller_g.World.Calm.{Ends, ends, second}
use argentum_online_taller_g.World.Fights.{npc_attack-Ends}
use argentum_online_taller_g.World.Quiet.{
  Quiet, elsewhere-Quiet, players-Quiet, alter_player-Quiet, alter_npc-Quiet,
}

-- `occupied` is right, and no character of the game has an id that is still to be given, which is a
-- `uint32_t`.
pub record IsSettled (w : World) : Type 0 where
  pub placed : IsPlaced w
  pub fresh : (i : ℕ) → w.next_npc_id ≤ i → lookup i w.npcs ≡ none
  pub bounded : w.next_npc_id < 2 ^ 32

pub Quiet-IsSettled : (w v : World) → Quiet w v → IsSettled w → IsSettled v
Quiet-IsSettled w v q s = record {
  placed = IsStill-IsPlaced w v q.still s.placed;
  fresh = λ i h. q.nobody_new i (s.fresh i (subst (λ n. n ≤ i) q.next h));
  bounded = subst (λ n. n < 2 ^ 32) (sym q.next) s.bounded;
}

-- Whose characters have the ids that they had.
pub record SameIds (w v : World) : Type 0 where
  pub nobody_new : (i : ℕ) → lookup i w.npcs ≡ none → lookup i v.npcs ≡ none
  pub next : v.next_npc_id ≡ w.next_npc_id

pub move-IsSettled : (w v : World) → SameIds w v → IsPlaced v → IsSettled w → IsSettled v
move-IsSettled w v m p s = record {
  placed = p;
  fresh = λ i h. m.nobody_new i (s.fresh i (subst (λ n. n ≤ i) m.next h));
  bounded = subst (λ n. n < 2 ^ 32) (sym m.next) s.bounded;
}

pub move_character-IsSettled :
    (id : ℕ) (dir : Direction) (w : World) → IsSettled w → IsSettled (move_character id dir w).1
move_character-IsSettled id dir w s =
    move-IsSettled w (move_character id dir w).1
      (move_character_cases (SameIds w) id dir w (record { nobody_new = λ i h. h; next = refl })
        (λ k c here.
          let (n, x) = walk-npcs k c.position dir w in record { nobody_new = n; next = x }))
      (move_character-IsPlaced id dir w s.placed) s

pub teleport_player-IsSettled :
    (id : ℕ) (dest : Position) (w : World) → IsSettled w → IsSettled (teleport_player id dest w).1
teleport_player-IsSettled id dest w s =
    move-IsSettled w (teleport_player id dest w).1
      (teleport_player_cases (SameIds w) id dest w (record { nobody_new = λ i h. h; next = refl })
        (λ c q here e.
          let (n, x) = relocate-npcs (who_player id) c.position q w in
          record { nobody_new = n; next = x }))
      (teleport_player-IsPlaced id dest w s.placed) s

-- Recovery moves nobody.
recover-position :
    (env : Env) (seconds : Float) (p : Player) → (recover env seconds p).position ≡ p.position
unfolding recover recover_hp recover_mana
recover-position env seconds p = ground arith

recovered :
    (env : Env) (seconds : Float) (i : ℕ) (m : Dict Player)
    → place_of
        (Option.map (λ (q : Player). q.character) (lookup i (map (recover_entry env seconds) m)))
      ≡ place_of (Option.map (λ (q : Player). q.character) (lookup i m))
unfolding lookup recover_entry
recovered env seconds i [] = refl
recovered env seconds i ((j, p) ∷ m) = elim (Bool-cases (j == i)) [
  | inl t ↦ rw t (ap some (recover-position env seconds p))
  | inr f ↦ rw f (recovered env seconds i m)
]

pub update_players-Quiet :
    (env : Env) (seconds : Float) (w : World) → Quiet w (update_players env seconds w)
unfolding update_players
update_players-Quiet env seconds w =
    players-Quiet w (map (recover_entry env seconds) w.players)
      (λ i. recovered env seconds i w.players)

-- The dead come back to free positions.
resurrect-position : (p : Player) → (resurrect p).position ≡ p.position
unfolding resurrect
resurrect-position p = ground arith

pub if-IsSettled :
    (b : Bool) (w v : World) → IsSettled w → IsSettled v → IsSettled (if b then w else v)
if-IsSettled true w v h k = h
if-IsSettled false w v h k = k

come_back-IsSettled :
    (id : ℕ) (r : PendingResurrection) (w : World) → IsSettled w → IsSettled (come_back id r w)
unfolding come_back
come_back-IsSettled id r w s =
    let t = teleport_player id r.destination w in
    let v = alter_player id resurrect t.1 in
    let u = (if t.0 then v else t.1) in
    let there = teleport_player-IsSettled id r.destination w s in
    Quiet-IsSettled u (record u { pending_resurrections = erase id u.pending_resurrections })
      (elsewhere-Quiet u (record u { pending_resurrections = erase id u.pending_resurrections })
        refl refl refl refl refl)
      (if-IsSettled t.0 v t.1
        (Quiet-IsSettled t.1 v (alter_player-Quiet id resurrect t.1 (λ p h. resurrect-position p))
          there)
        there)

pub resurrections_loop-IsSettled :
    (env : Env) (seconds : Float) (pending : Dict PendingResurrection) (w : World)
    → IsSettled w
    → IsSettled (resurrections_loop env seconds pending w)
unfolding resurrections_loop
resurrections_loop-IsSettled env seconds [] w s = s
resurrections_loop-IsSettled env seconds ((id, r) ∷ pending) w s =
    let timer = env.ops.sub r.timer seconds in
    let waits : World = record w {
      pending_resurrections = insert id (record r { timer = timer }) w.pending_resurrections;
    } in
    let settled = Quiet-IsSettled w waits (elsewhere-Quiet w waits refl refl refl refl refl) s in
    let over = env.ops.le timer (env.ops.of_int (pos 0)) in
    resurrections_loop-IsSettled env seconds pending (if over then come_back id r waits else waits)
      (if-IsSettled over (come_back id r waits) waits (come_back-IsSettled id r waits settled)
        settled)

-- The world that a call ends with, where it ends, is settled.
pub data Settles {A : Type 0} : Option (A × World) → Type 0 where
  stuck : Settles none
  settles : {a : A} {v : World} → IsSettled v → Settles (some (a, v))

pub Settles-if :
    {A : Type 0} (b : Bool) {m n : Option (A × World)}
    → Settles m
    → Settles n
    → Settles (if b then m else n)
Settles-if true h k = h
Settles-if false h k = k

npc_move_towards-IsSettled :
    (key : ℕ) (n : Npc) (target : Position) (w : World)
    → IsSettled w
    → IsSettled (npc_move_towards key n target w)
unfolding npc_move_towards
npc_move_towards-IsSettled key n target w s =
    let dir = chase_direction n.position target in
    let f = λ (m : Npc). record m { character = record (m.character) { direction = dir } } in
    let g = λ (m : Npc). record m { character = record (m.character) { moving = true } } in
    let turned = alter_npc key f w in
    let moved = move_character n.id dir turned in
    let after =
      move_character-IsSettled n.id dir turned
        (Quiet-IsSettled w turned (alter_npc-Quiet key f w (λ m. refl)) s) in
    if-IsSettled moved.0 (alter_npc key g moved.1) moved.1
      (Quiet-IsSettled moved.1 (alter_npc key g moved.1) (alter_npc-Quiet key g moved.1 (λ m. refl))
        after)
      after

attacked-Settles :
    (w : World) (o : Option (AttackResult × World))
    → IsSettled w
    → Ends w second o
    → Settles (elim o as (λ _. Option (List AttackResult × World)) [
      | none ↦ none
      | some (r, v) ↦ some (r ∷ [], v)
    ])
attacked-Settles w none s e = stuck
attacked-Settles w (some (r, v)) s (ends q) = settles (Quiet-IsSettled w v q s)

act-Settles :
    (game : Game) (key : ℕ) (n : Npc) (b : NpcBehavior) (w : World)
    → IsSettled w
    → Settles (act game key n b w)
unfolding act
act-Settles game key n stay w s = settles s
act-Settles game key n (chase target) w s = settles (npc_move_towards-IsSettled key n target w s)
act-Settles game key n (attack j) w s = go (get_character j w)
  where
    go :
        (o : Option Who)
        → Settles (elim o as (λ _. Option (List AttackResult × World)) [
          | none ↦ some ([], w)
          | some target ↦ elim (npc_attack game key target w) [
            | none ↦ none
            | some (r, v) ↦ some (r ∷ [], v)
          ]
        ])
    go none = settles s
    go (some target) =
        attacked-Settles w (npc_attack game key target w) s (npc_attack-Ends game key target w)

pub update_kind-Settles :
    (game : Game) (seconds : Float) (key : ℕ) (n : Npc) (k : NpcKind) (w : World)
    → IsSettled w
    → Settles (update_kind game seconds key n k w)
unfolding update_kind
update_kind-Settles game seconds key n (city_npc _) w s = settles s
update_kind-Settles game seconds key n (hostile_npc h) w s =
    let near = get_players_near game.shop.env n.position h.attack_range w in
    let does = behave game.shop.env seconds n.position h near in
    let f = λ (m : Npc). record m { kind = hostile_npc does.1 } in
    act-Settles game key n does.0 (alter_npc key f w)
      (Quiet-IsSettled w (alter_npc key f w) (alter_npc-Quiet key f w (λ m. refl)) s)
