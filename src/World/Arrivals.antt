-- ===== src/World/Arrivals.antt =====
-- server/world/world.cpp: who joins, leaves or is spawned keeps `occupied` right.
use mathlib.Core.Option
use mathlib.Core.Option.{some-injective}
use argentum_online_taller_g.Prelude.{
  ℕ, ◌≡◌, ◌≢◌, refl, sym, ap, ◌∙◌, true, false, ◌==◌, none, some, [], ◌∷◌, inl, inr, Bool-cases,
  Option-cases, subst, arith, lookup, insert, erase, lookup-insert, lookup-erase, Dict, map,
}
use argentum_online_taller_g.Player.Character.{Player}
use argentum_online_taller_g.World.Map.{is_valid_position, is_position_blocked, grid_at}
use argentum_online_taller_g.World.State.{
  World, Who, who_player, who_npc, Npc, body, is_position_occupied, occupy, with_players,
  player_exists,
}
use argentum_online_taller_g.World.Movement.{
  still, reset_player_movement, add_player, remove_player, add_npc, refused,
}
use argentum_online_taller_g.World.Board.{leave-IsBoard, enter-IsBoard}
use argentum_online_taller_g.World.Places.{
  Who-discrete, place_of, stands, IsPlaced, IsStill, ne-test, eq-test,
}

-- What a player that is accepted meets.
pub added :
    (id : ℕ) (p : Player) (w v : World)
    → IsPlaced w
    → add_player id p w ≡ some v
    → (lookup id w.players ≡ none)
      × (is_position_blocked w.map p.position ≡ false)
      × (grid_at w.occupied p.position ≡ some false)
      × (v ≡ with_players (insert id p w.players) (occupy p.position true w))
unfolding add_player player_exists is_position_occupied
added id p w v placed h =
    let valid : is_valid_position w.map p.position ≡ true = ground (arith, h) in
    let (b, at) = placed.covers p.position valid in
    (ground (arith, h), ground (arith, h), ground (arith, h, at), ground (arith, h))

-- A player that joins, where the code accepts it, leaves `occupied` right.
pub add_player-IsPlaced :
    (id : ℕ) (p : Player) (w v : World) → add_player id p w ≡ some v → IsPlaced w → IsPlaced v
unfolding body
add_player-IsPlaced id p w v h placed =
    let (absent, ground, free, e) = added id p w v placed h in
    let players = insert id p w.players in
    subst IsPlaced (sym e) (
      enter-IsBoard Who-discrete w.map w.occupied (stands w)
        (stands (with_players players (occupy p.position true w))) placed (who_player id) p.position
        others (ap (λ o. place_of (Option.map (λ (q : Player). q.character) o)) absent)
        (ap (λ o. place_of (Option.map (λ (q : Player). q.character) o)) found) ground free)
  where
    found : lookup id (insert id p w.players) ≡ some p
    found = lookup-insert id id p w.players ∙ rw (eq-test id) refl

    others :
        (l : Who)
        → who_player id ≢ l
        → stands (with_players (insert id p w.players) (occupy p.position true w)) l ≡ stands w l
    others (who_player j) ne =
        let other : lookup j (insert id p w.players) ≡ lookup j w.players =
          lookup-insert j id p w.players ∙ rw (ne-test id j (λ e. ne (ap who_player e))) refl in
        ap (λ o. place_of (Option.map (λ (q : Player). q.character) o)) other
    others (who_npc j) ne = refl

-- A player that leaves frees its position.
pub remove_player-IsPlaced : (id : ℕ) (w : World) → IsPlaced w → IsPlaced (remove_player id w)
unfolding remove_player body
remove_player-IsPlaced id w placed = elim (Option-cases (lookup id w.players)) [
  | inl n ↦ subst IsPlaced (sym (absent n)) placed
  | inr (p, e) ↦ subst IsPlaced (sym (present p e)) (gone p e)
]
  where
    left : Player → World
    left p =
        let v = occupy p.position false w in
        record v {
          clan_world = record (v.clan_world) { players = erase id v.players };
          pending_resurrections = erase id v.pending_resurrections;
        }

    absent : lookup id w.players ≡ none → remove_player id w ≡ w
    absent n = rw (n, remove_player)

    present : (p : Player) → lookup id w.players ≡ some p → remove_player id w ≡ left p
    present p e = rw (e, remove_player)

    others : (p : Player) (l : Who) → who_player id ≢ l → stands (left p) l ≡ stands w l
    others p (who_player j) ne =
        let other : lookup j (erase id w.players) ≡ lookup j w.players =
          lookup-erase j id w.players ∙ rw (ne-test id j (λ e. ne (ap who_player e))) refl in
        ap (λ o. place_of (Option.map (λ (q : Player). q.character) o)) other
    others p (who_npc j) ne = refl

    gone : (p : Player) → lookup id w.players ≡ some p → IsPlaced (left p)
    gone p e =
        let erased : lookup id (erase id w.players) ≡ none =
          lookup-erase id id w.players ∙ rw (eq-test id) refl in
        leave-IsBoard Who-discrete w.map w.occupied (stands w) (stands (left p)) placed
          (who_player id) p.position (others p)
          (ap (λ o. place_of (Option.map (λ (q : Player). q.character) o)) e)
          (ap (λ o. place_of (Option.map (λ (q : Player). q.character) o)) erased)

-- A character of the game that is spawned under an id that none has leaves `occupied` right.
pub add_npc-IsPlaced :
    (id : ℕ) (n : Npc) (w : World)
    → lookup id w.npcs ≡ none
    → IsPlaced w
    → IsPlaced (add_npc id n w)
unfolding add_npc refused body is_position_occupied
add_npc-IsPlaced id n w absent placed = elim (Bool-cases (refused n w)) [
  | inl t ↦ subst IsPlaced (sym (passed t)) placed
  | inr f ↦ subst IsPlaced (sym (taken f)) (
      let (ground, free) = spot f in
      enter-IsBoard Who-discrete w.map w.occupied (stands w) (stands spawned) placed (who_npc id)
        n.position others (ap (λ o. place_of (Option.map (λ (q : Npc). q.character) o)) absent)
        (ap (λ o. place_of (Option.map (λ (q : Npc). q.character) o)) found) ground free)
]
  where
    spawned : World
    spawned = record w { occupied = (occupy n.position true w).occupied; npcs = insert id n w.npcs }

    found : lookup id (insert id n w.npcs) ≡ some n
    found = lookup-insert id id n w.npcs ∙ rw (eq-test id) refl

    others : (l : Who) → who_npc id ≢ l → stands spawned l ≡ stands w l
    others (who_npc j) ne =
        let other : lookup j (insert id n w.npcs) ≡ lookup j w.npcs =
          lookup-insert j id n w.npcs ∙ rw (ne-test id j (λ e. ne (ap who_npc e))) refl in
        ap (λ o. place_of (Option.map (λ (q : Npc). q.character) o)) other
    others (who_player j) ne = refl

    passed : refused n w ≡ true → add_npc id n w ≡ w
    passed t = rw t

    taken : refused n w ≡ false → add_npc id n w ≡ spawned
    taken f = rw f

    spot :
        refused n w ≡ false
        → (is_position_blocked w.map n.position ≡ false)
          × (grid_at w.occupied n.position ≡ some false)
    spot f =
        let valid : is_valid_position w.map n.position ≡ true = ground (arith, f) in
        let (b, at) = placed.covers n.position valid in (ground (arith, f), ground (arith, f, at))

-- The movement of the players is reset, and nobody moves.
lookup-map_still :
    (j : ℕ) (players : Dict Player)
    → place_of (Option.map (λ (q : Player). q.character) (lookup j (map still players)))
      ≡ place_of (Option.map (λ (q : Player). q.character) (lookup j players))
unfolding lookup still
lookup-map_still j [] = refl
lookup-map_still j ((i, p) ∷ players) = elim (Bool-cases (i == j)) [
  | inl t ↦ rw t
  | inr f ↦ rw f (lookup-map_still j players)
]

pub reset_player_movement-IsStill : (w : World) → IsStill w (reset_player_movement w)
unfolding reset_player_movement body
reset_player_movement-IsStill w = record { map = refl; occupied = refl; stands = same }
  where
    same : (k : Who) → stands (reset_player_movement w) k ≡ stands w k
    same (who_player j) = lookup-map_still j w.players
    same (who_npc j) = refl
