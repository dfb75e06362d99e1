-- ===== src/World/Reach.antt =====
-- server/world/world.cpp: a whole tick, and every world that play leads to.
use mathlib.Core.Option.{some-injective}
use argentum_online_taller_g.Prelude.{
  ℕ, ◌≡◌, ◌≢◌, refl, sym, ap, Option, none, some, List, inl, inr, Option-cases, subst, lookup,
}
use argentum_online_taller_g.Float.{Float}
use argentum_online_taller_g.Player.Character.{Player, Direction}
use argentum_online_taller_g.Protocol.Updates.{AttackResult}
use argentum_online_taller_g.World.Map.{WorldMap}
use argentum_online_taller_g.World.Actions.{meditate, start_resurrection, CheatType, apply_cheat}
use argentum_online_taller_g.World.Asks.{
  meditate-Quiet, start_resurrection-Quiet, apply_cheat-Quiet,
}
use argentum_online_taller_g.World.State.{empty_world, World, Game, Npc}
use argentum_online_taller_g.World.Movement.{
  move_character, add_player, remove_player, reset_player_movement,
}
use argentum_online_taller_g.World.Places.{IsPlaced, IsStill-IsPlaced}
use argentum_online_taller_g.World.Arrivals.{
  add_player-IsPlaced, remove_player-IsPlaced, reset_player_movement-IsStill, added,
}
use argentum_online_taller_g.World.Update.{update_players, update_resurrections, keys, update_npcs}
use argentum_online_taller_g.World.Attack
use argentum_online_taller_g.World.Attack.{npc_attack}
use argentum_online_taller_g.World.Calm.{Ends, ends, second}
use argentum_online_taller_g.World.Fights.{attack-Ends}
use argentum_online_taller_g.World.Settled.{
  IsSettled, Quiet-IsSettled, SameIds, move-IsSettled, move_character-IsSettled,
  update_players-Quiet, resurrections_loop-IsSettled, Settles, settles,
}
use argentum_online_taller_g.World.Spawning.{spawn, update_spawning, update}
use argentum_online_taller_g.World.Rounds.{npcs_loop-Settles}
use argentum_online_taller_g.World.Spawned.{spawn-IsSettled, Settled, update_spawning-Settled}
use argentum_online_taller_g.World.Start.{empty_world-IsSettled}

update-Settled :
    (game : Game) (seconds : Float) (w v : World) (rs : List AttackResult)
    → update game seconds w ≡ some (rs, v)
    → IsSettled w
    → Settled v
unfolding update update_resurrections update_npcs
update-Settled game seconds w v rs e s =
    go (update_npcs game seconds back)
      (npcs_loop-Settles game seconds (keys back.npcs) back settled) e
  where
    recovered : World
    recovered = update_players game.shop.env seconds w

    back : World
    back = update_resurrections game.shop.env seconds recovered

    settled : IsSettled back
    settled =
        resurrections_loop-IsSettled game.shop.env seconds recovered.pending_resurrections recovered
          (Quiet-IsSettled w recovered (update_players-Quiet game.shop.env seconds w) s)

    go :
        (o : Option (List AttackResult × World))
        → Settles o
        → (elim o as (λ _. Option (List AttackResult × World)) [
          | none ↦ none
          | some (qs, u) ↦ some (qs, update_spawning game seconds u)
        ])
          ≡ some (rs, v)
        → Settled v
    go none t h = absurd (cc)
    go (some (qs, u)) (settles t) h =
        let same : update_spawning game seconds u ≡ v =
          ap (λ (x : List AttackResult × World). x.1) (some-injective _ _ h) in
        subst Settled same (update_spawning-Settled game seconds u t)

-- What leads from one world to the next: players join and leave, characters of the cities and hostile
-- ones are spawned, characters move and attack, and time passes. A call that throws, or whose loop
-- of level-ups is out of fuel, is no step, and the ids of characters are not used up.
pub data Step (game : Game) (w : World) : World → Type 0 where
  joins : {v : World} (id : ℕ) (p : Player) → add_player id p w ≡ some v → Step game w v
  leaves : (id : ℕ) → Step game w (remove_player id w)
  stops_moving : Step game w (reset_player_movement w)
  moves : (id : ℕ) (dir : Direction) → Step game w (move_character id dir w).1
  meditates : (id : ℕ) → Step game w (meditate id w).1
  seeks_priest : (id : ℕ) → Step game w (start_resurrection game.shop.env id w).1
  cheats : (id : ℕ) (cheat : CheatType) → Step game w (apply_cheat game.shop.env id cheat w).1
  fights :
      {v : World} (i j : ℕ) (r : AttackResult)
      → Attack.attack game i j w ≡ some (r, v)
      → Step game w v
  spawns : (make : ℕ → Npc) → (spawn make w).next_npc_id ≢ 0 → Step game w (spawn make w)
  ticks :
      {v : World} (seconds : Float) (rs : List AttackResult)
      → update game seconds w ≡ some (rs, v)
      → v.next_npc_id ≢ 0
      → Step game w v

pub data Reach (game : Game) (w : World) : World → Type 0 where
  here : Reach game w w
  next : {u v : World} → Reach game w u → Step game u v → Reach game w v

joined :
    (id : ℕ) (p : Player) (w v : World) → IsSettled w → add_player id p w ≡ some v → IsSettled v
joined id p w v s e =
    let (absent, ground, free, new) = added id p w v s.placed e in
    move-IsSettled w v (subst (SameIds w) (sym new) (record { nobody_new = λ i h. h; next = refl }))
      (add_player-IsPlaced id p w v e s.placed) s

left : (id : ℕ) (w : World) → IsSettled w → IsSettled (remove_player id w)
unfolding remove_player
left id w s = move-IsSettled w (remove_player id w) same (remove_player-IsPlaced id w s.placed) s
  where
    same : SameIds w (remove_player id w)
    same = elim (Option-cases (lookup id w.players)) [
      | inl n ↦ rw (n, remove_player) (record { nobody_new = λ i h. h; next = refl })
      | inr (p, e) ↦ rw (e, remove_player) (record { nobody_new = λ i h. h; next = refl })
    ]

fought :
    {w v : World} {r : AttackResult} (o : Option (AttackResult × World))
    → Ends w second o
    → o ≡ some (r, v)
    → IsSettled w
    → IsSettled v
fought none t e s = absurd (cc)
fought {w} {v} (some (q, u)) (ends t) e s =
    let same : u ≡ v = ap (λ (x : AttackResult × World). x.1) (some-injective _ _ e) in
    subst IsSettled same (Quiet-IsSettled w u t s)

Step-IsSettled : (game : Game) {w v : World} → Step game w v → IsSettled w → IsSettled v
Step-IsSettled game {w} {v} (joins id p e) s = joined id p w v s e
Step-IsSettled game {w} (leaves id) s = left id w s
Step-IsSettled game {w} stops_moving s =
    move-IsSettled w (reset_player_movement w)
      (unfold reset_player_movement in record { nobody_new = λ i h. h; next = refl })
      (IsStill-IsPlaced w (reset_player_movement w) (reset_player_movement-IsStill w) s.placed) s
Step-IsSettled game {w} (moves id dir) s = move_character-IsSettled id dir w s
Step-IsSettled game {w} (meditates id) s = Quiet-IsSettled w _ (meditate-Quiet id w) s
Step-IsSettled game {w} (seeks_priest id) s =
    Quiet-IsSettled w _ (start_resurrection-Quiet game.shop.env id w) s
Step-IsSettled game {w} (cheats id cheat) s =
    Quiet-IsSettled w _ (apply_cheat-Quiet game.shop.env id cheat w) s
Step-IsSettled game {w} {v} (fights i j r e) s =
    fought (Attack.attack game i j w) (attack-Ends game i j w) e s
Step-IsSettled game {w} (spawns make more) s = spawn-IsSettled make w more s
Step-IsSettled game {w} {v} (ticks seconds rs e more) s =
    update-Settled game seconds w v rs e s more

Reach-IsSettled : (game : Game) {w v : World} → Reach game w v → IsSettled w → IsSettled v
Reach-IsSettled game here s = s
Reach-IsSettled game (next r t) s = Step-IsSettled game t (Reach-IsSettled game r s)

-- In every world that players who join, leave, move, fight, meditate, cheat and wait to be
-- resurrected, characters that are spawned, and ticks lead to, in any order, from an empty world on
-- any map: `occupied` is true exactly where somebody stands, nobody shares a position, and nobody
-- stands on blocked ground or off the map. The ids of characters are not used up.
pub reached-IsPlaced :
    (game : Game) (m : WorldMap) {w : World}
    → Reach game (empty_world game.shop.env m) w
    → IsPlaced w
reached-IsPlaced game m r = (Reach-IsSettled game r (empty_world-IsSettled game.shop.env m)).placed
