-- ===== src/World/Spawned.antt =====
-- server/world/world.cpp: the spawning of characters keeps `occupied` right.
use argentum_online_taller_g.Prelude.{
  ℕ, zero, suc, ◌+◌, ◌%◌, ◌^◌, ◌≤◌, ◌≡◌, ◌≢◌, refl, ◌∙◌, Bool, true, false, Option, none, some,
  List, [], ◌∷◌, if◌then◌else◌, arith, lookup, insert, lookup-insert, get_elem?, length,
}
use argentum_online_taller_g.Prelude.Int.{ℤ, pos, pos_part, ◌-ℤ◌}
use argentum_online_taller_g.Float.{Float}
use argentum_online_taller_g.Config.{Position}
use argentum_online_taller_g.World.Map.{ZoneType}
use argentum_online_taller_g.World.State.{
  World, Game, Who, who_player, who_npc, Npc, NpcTemplate, body, draw_int,
}
use argentum_online_taller_g.World.Movement.{add_npc}
use argentum_online_taller_g.World.Places.{stands, IsStill, IsStill-IsPlaced, ne-test}
use argentum_online_taller_g.World.Arrivals.{add_npc-IsPlaced}
use argentum_online_taller_g.World.Quiet.{
  Quiet, Quiet-refl, Quiet-trans, elsewhere-Quiet, draw_int-Quiet,
}
use argentum_online_taller_g.World.Settled.{IsSettled, Quiet-IsSettled}
use argentum_online_taller_g.World.Spawning.{
  spawn, attempts_loop, max_attempts, suits, find_random_spawn_position, spawn_template,
  try_spawn_npc, update_spawning, new_hostile_npc,
}

add_npc-next : (id : ℕ) (n : Npc) (w : World) → (add_npc id n w).next_npc_id ≡ w.next_npc_id
unfolding add_npc
add_npc-next id n w = ground arith

add_npc-others :
    (id i : ℕ) (n : Npc) (w : World) → id ≢ i → lookup i (add_npc id n w).npcs ≡ lookup i w.npcs
unfolding add_npc
add_npc-others id i n w ne =
    let other : lookup i (insert id n w.npcs) ≡ lookup i w.npcs =
      lookup-insert i id n w.npcs ∙ rw (ne-test id i ne) refl in
    ground (arith, other)

next_id-IsStill : (id : ℕ) (w : World) → IsStill w (record w { next_npc_id = id })
unfolding body
next_id-IsStill id w = record { map = refl; occupied = refl; stands = same }
  where
    same : (k : Who) → stands (record w { next_npc_id = id }) k ≡ stands w k
    same (who_player i) = refl
    same (who_npc i) = refl

-- A spawned character, as long as the ids are not used up.
pub spawn-IsSettled :
    (make : ℕ → Npc) (w : World)
    → (spawn make w).next_npc_id ≢ 0
    → IsSettled w
    → IsSettled (spawn make w)
unfolding spawn
spawn-IsSettled make w more s =
    let id = w.next_npc_id in
    let u = record w { next_npc_id = (w.next_npc_id + 1) % 2 ^ 32 } in
    let q = next_id-IsStill ((w.next_npc_id + 1) % 2 ^ 32) w in
    let left : (id + 1) % 2 ^ 32 ≢ 0 = λ e. more (add_npc-next id (make id) u ∙ e) in
    let whole : (id + 1) % 2 ^ 32 ≡ id + 1 = omega (arith, s.bounded, left) in
    record {
      placed =
          add_npc-IsPlaced id (make id) u (s.fresh id (omega arith))
            (IsStill-IsPlaced w u q s.placed);
      fresh = λ i h.
          let above : id + 1 ≤ i = omega (arith, h, add_npc-next id (make id) u, whole) in
          add_npc-others id i (make id) u (omega arith) ∙ s.fresh i (omega arith);
      bounded = omega (arith, add_npc-next id (make id) u);
    }

attempts_loop-Quiet :
    (k : ℕ) (game : Game) (zones : List ZoneType) (w : World)
    → Quiet w (attempts_loop k game zones w).1
unfolding attempts_loop
attempts_loop-Quiet zero game zones w = Quiet-refl w
attempts_loop-Quiet (suc k) game zones w =
    let x = draw_int game (pos 0) (pos w.map.width -ℤ pos 1) w in
    let y = draw_int game (pos 0) (pos w.map.height -ℤ pos 1) x.1 in
    let p : Position = record { x = x.0; y = y.0 } in
    let rest = attempts_loop k game zones y.1 in
    let drawn =
      Quiet-trans w x.1 y.1 (draw_int-Quiet game (pos 0) (pos w.map.width -ℤ pos 1) w)
        (draw_int-Quiet game (pos 0) (pos w.map.height -ℤ pos 1) x.1) in
    pick (suits zones p y.1) w (some p, y.1) rest drawn
      (Quiet-trans w y.1 rest.1 drawn (attempts_loop-Quiet k game zones y.1))
  where
    pick :
        (b : Bool) (w : World) (x y : Option Position × World)
        → Quiet w x.1
        → Quiet w y.1
        → Quiet w (if b then x else y).1
    pick true w x y h k = h
    pick false w x y h k = k

-- Settled, as long as the ids are not used up.
abbrev pub Settled : World → Type 0
Settled w = w.next_npc_id ≢ 0 → IsSettled w

spawn_template-Settled :
    (game : Game) (t : NpcTemplate) (w : World) → IsSettled w → Settled (spawn_template game t w)
unfolding spawn_template find_random_spawn_position
spawn_template-Settled game t w s = go (attempts_loop max_attempts game t.zones w).0
  where
    v : World
    v = (attempts_loop max_attempts game t.zones w).1

    quiet : IsSettled v
    quiet = Quiet-IsSettled w v (attempts_loop-Quiet max_attempts game t.zones w) s

    go :
        (o : Option Position)
        → Settled (elim o as (λ _. World) [
          | none ↦ v
          | some p ↦ spawn (λ id. new_hostile_npc game id t p) v
        ])
    go none more = quiet
    go (some p) more = spawn-IsSettled (λ id. new_hostile_npc game id t p) v more quiet

Settled-if : (b : Bool) (w v : World) → Settled w → Settled v → Settled (if b then w else v)
Settled-if true w v h k = h
Settled-if false w v h k = k

try_spawn_npc-Settled : (game : Game) (w : World) → IsSettled w → Settled (try_spawn_npc game w)
unfolding try_spawn_npc
try_spawn_npc-Settled game w s = Settled-if _ w _ (λ more. s) (listed game.templates)
  where
    last : ℤ
    last = pos (length game.templates) -ℤ pos 1

    v : World
    v = (draw_int game (pos 0) last w).1

    index : ℤ
    index = (draw_int game (pos 0) last w).0

    quiet : IsSettled v
    quiet = Quiet-IsSettled w v (draw_int-Quiet game (pos 0) last w) s

    chosen : Option NpcTemplate → World
    chosen o = elim o [ none ↦ v | some t ↦ spawn_template game t v ]

    chosen-Settled : (o : Option NpcTemplate) → Settled (chosen o)
    chosen-Settled none more = quiet
    chosen-Settled (some t) more = spawn_template-Settled game t v quiet more

    listed :
        (ts : List NpcTemplate)
        → Settled (elim ts as (λ _. World) [
          | [] ↦ w
          | _ ∷ _ ↦ chosen (get_elem? game.templates (pos_part index))
        ])
    listed [] more = s
    listed (t ∷ ts) more = chosen-Settled (get_elem? game.templates (pos_part index)) more

pub update_spawning-Settled :
    (game : Game) (seconds : Float) (w : World)
    → IsSettled w
    → Settled (update_spawning game seconds w)
unfolding update_spawning
update_spawning-Settled game seconds w s =
    let zero_timer = record w { npc_spawn_timer = game.shop.env.ops.of_int (pos 0) } in
    let later = record w { npc_spawn_timer = game.shop.env.ops.add w.npc_spawn_timer seconds } in
    Settled-if _ (try_spawn_npc game zero_timer) later
      (try_spawn_npc-Settled game zero_timer
        (Quiet-IsSettled w zero_timer (elsewhere-Quiet w zero_timer refl refl refl refl refl) s))
      (λ more. Quiet-IsSettled w later (elsewhere-Quiet w later refl refl refl refl refl) s)
