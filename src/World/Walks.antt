-- ===== src/World/Walks.antt =====
-- server/world/world.cpp: who walks or is teleported keeps `occupied` right.
use mathlib.Core.Option
use mathlib.Core.Option.{some-injective}
use argentum_online_taller_g.Prelude.{
  lookup, ℕ, ◌≡◌, ◌≢◌, refl, sym, ap, ◌∙◌, Bool, true, false, not, Option, none, some, inl, inr,
  Bool-cases, Option-cases, subst, arith,
}
use argentum_online_taller_g.Config.{Position}
use argentum_online_taller_g.Player.Character.{Character, Direction}
use argentum_online_taller_g.World.Map.{is_valid_position, is_position_blocked, grid_at, grid_set}
use argentum_online_taller_g.World.Search.Sound.{find_closest_free_position-IsFree}
use argentum_online_taller_g.World.State.{
  Npc, World, Who, who_player, who_npc, body, alter_body, get_character, is_position_occupied,
  occupy,
}
use argentum_online_taller_g.World.Movement.{
  relocate, may_enter, walk, move_character, calculate_destination, is_pending,
  find_closest_unoccupied_position, teleport_player,
}
use argentum_online_taller_g.World.Board.{IsBoard, move-IsBoard}
use argentum_online_taller_g.World.Places.{
  lookup-adjust-none, Who-discrete, place_of, stands, IsPlaced, IsStill, IsStill-IsPlaced,
  body-alter_body_self, body-alter_body_other, alter_body-rest,
}

place_of-map :
    (f : Character → Character) (o : Option Character)
    → ((c : Character) → (f c).position ≡ c.position)
    → place_of (Option.map f o) ≡ place_of o
place_of-map f none e = refl
place_of-map f (some c) e = ap some (e c)

-- A method that leaves the position alone moves nobody.
pub alter_body-IsStill :
    (k : Who) (f : Character → Character) (w : World)
    → ((c : Character) → (f c).position ≡ c.position)
    → IsStill w (alter_body k f w)
alter_body-IsStill k f w e = record {
  map = (alter_body-rest k f w).0;
  occupied = (alter_body-rest k f w).1;
  stands = λ l. elim (Who-discrete k l) [
    | yes same ↦
        subst (λ r. stands (alter_body k f w) r ≡ stands w r) same
          (ap place_of (body-alter_body_self k f w) ∙ place_of-map f (body k w) e)
    | no ne ↦ ap place_of (body-alter_body_other k l f w ne)
  ];
}

body-occupy : (k : Who) (p : Position) (b : Bool) (w : World) → body k (occupy p b w) ≡ body k w
unfolding body
body-occupy (who_player i) p b w = refl
body-occupy (who_npc i) p b w = refl

body-relocate_self :
    (k : Who) (p q : Position) (w : World)
    → body k (relocate k p q w)
      ≡ Option.map (λ (c : Character). record c { position = q }) (body k w)
unfolding relocate
body-relocate_self k p q w =
    let f = λ (c : Character). record c { position = q } in
    let v = occupy p false w in
    body-occupy k q true (alter_body k f v)
    ∙ body-alter_body_self k f v
    ∙ ap (Option.map f) (body-occupy k p false w)

body-relocate_other :
    (k l : Who) (p q : Position) (w : World) → k ≢ l → body l (relocate k p q w) ≡ body l w
unfolding relocate
body-relocate_other k l p q w ne =
    let f = λ (c : Character). record c { position = q } in
    let v = occupy p false w in
    body-occupy l q true (alter_body k f v)
    ∙ body-alter_body_other k l f v ne
    ∙ body-occupy l p false w

-- The statements that move a character keep `occupied` right where they enter a free position of
-- the ground.
relocate-IsPlaced :
    (k : Who) (c : Character) (q : Position) (w : World)
    → body k w ≡ some c
    → is_position_blocked w.map q ≡ false
    → grid_at w.occupied q ≡ some false
    → IsPlaced w
    → IsPlaced (relocate k c.position q w)
unfolding relocate
relocate-IsPlaced k c q w here ground free placed =
    let f = λ (d : Character). record d { position = q } in
    let v = occupy c.position false w in
    let new = stands (relocate k c.position q w) in
    let there : new k ≡ some q =
      ap place_of (body-relocate_self k c.position q w ∙ ap (Option.map f) here) in
    let moved : IsBoard w.map (grid_set (grid_set w.occupied c.position false) q true) new =
      move-IsBoard Who-discrete w.map w.occupied (stands w) new placed k c.position q
        (λ l ne. ap place_of (body-relocate_other k l c.position q w ne)) (ap place_of here) there
        ground free in
    subst (λ m. IsBoard m (grid_set (alter_body k f v).occupied q true) new)
      (sym (alter_body-rest k f v).0)
      (subst (λ o. IsBoard w.map (grid_set o q true) new) (sym (alter_body-rest k f v).1) moved)

-- What may be entered is free ground, as far as `occupied` covers the map.
may_enter-free :
    (k : Who) (q : Position) (w : World)
    → IsPlaced w
    → may_enter k q w ≡ true
    → (is_position_blocked w.map q ≡ false) × (grid_at w.occupied q ≡ some false)
unfolding may_enter is_position_occupied
may_enter-free k q w placed h =
    let valid : is_valid_position w.map q ≡ true = ground (arith, h) in
    let (b, e) = placed.covers q valid in (ground (arith, h), ground (arith, h, e))

walk-IsPlaced :
    (k : Who) (c : Character) (dir : Direction) (w : World)
    → body k w ≡ some c
    → IsPlaced w
    → IsPlaced (walk k c.position dir w).1
unfolding walk
walk-IsPlaced k c dir w here placed =
    let q = calculate_destination c.position dir in
    let f = λ (d : Character). record d { direction = dir; moving = true } in
    let u = relocate k c.position q w in
    elim (Bool-cases (may_enter k q w)) [
      | inl t ↦
          let (ground, free) = may_enter-free k q w placed t in
          rw t (
            IsStill-IsPlaced u (alter_body k f u) (alter_body-IsStill k f u (λ d. refl))
              (relocate-IsPlaced k c q w here ground free placed))
      | inr d ↦ rw d placed
    ]

unoccupied-free :
    (dest q : Position) (w : World)
    → IsPlaced w
    → find_closest_unoccupied_position dest w ≡ some q
    → (is_position_blocked w.map q ≡ false) × (grid_at w.occupied q ≡ some false)
unfolding find_closest_unoccupied_position is_position_occupied
unoccupied-free dest q w placed e =
    let found =
      find_closest_free_position-IsFree w.map (λ p. not (is_position_occupied w p)) dest q e in
    let (b, at) = placed.covers q found.valid in
    let fits : not (is_position_occupied w q) ≡ true = found.fits in
    (found.open_ground, ground (arith, fits, at))

-- What the branches of the two calls leave.
pub move_character_cases :
    (P : World → Type 0) (id : ℕ) (dir : Direction) (w : World)
    → P w
    → ((k : Who) (c : Character) → body k w ≡ some c → P (walk k c.position dir w).1)
    → P (move_character id dir w).1
unfolding move_character
move_character_cases P id dir w same walked = elim (Option-cases (get_character id w)) [
  | inl n ↦ rw (n, move_character) same
  | inr (k, e) ↦ elim (Bool-cases (is_pending id w)) [
    | inl t ↦ rw (e, t, move_character) same
    | inr f ↦ elim (Option-cases (body k w)) [
      | inl n ↦ rw (e, f, n, move_character) same
      | inr (c, here) ↦ rw (e, f, here, move_character) (walked k c here)
    ]
  ]
]

pub teleport_player_cases :
    (P : World → Type 0) (id : ℕ) (dest : Position) (w : World)
    → P w
    → ((c : Character) (q : Position)
        → body (who_player id) w ≡ some c
        → find_closest_unoccupied_position dest w ≡ some q
        → P (relocate (who_player id) c.position q w))
    → P (teleport_player id dest w).1
unfolding teleport_player
teleport_player_cases P id dest w same moved = elim (Option-cases (body (who_player id) w)) [
  | inl n ↦ rw (n, teleport_player) same
  | inr (c, here) ↦ elim (Option-cases (find_closest_unoccupied_position dest w)) [
    | inl n ↦ rw (here, n, teleport_player) same
    | inr (q, e) ↦ rw (here, e, teleport_player) (moved c q here e)
  ]
]

-- A character that is told to move, in whatever direction, leaves `occupied` right.
pub move_character-IsPlaced :
    (id : ℕ) (dir : Direction) (w : World) → IsPlaced w → IsPlaced (move_character id dir w).1
move_character-IsPlaced id dir w placed =
    move_character_cases IsPlaced id dir w placed (λ k c here. walk-IsPlaced k c dir w here placed)

-- A player that is teleported next to a position leaves `occupied` right.
pub teleport_player-IsPlaced :
    (id : ℕ) (dest : Position) (w : World) → IsPlaced w → IsPlaced (teleport_player id dest w).1
teleport_player-IsPlaced id dest w placed =
    teleport_player_cases IsPlaced id dest w placed (λ c q here e.
      let (ground, free) = unoccupied-free dest q w placed e in
      relocate-IsPlaced (who_player id) c q w here ground free placed)

-- Moving makes no character of the game, and gives no id.
alter_body-npcs :
    (k : Who) (f : Character → Character) (w : World)
    → ((i : ℕ) → lookup i w.npcs ≡ none → lookup i (alter_body k f w).npcs ≡ none)
      × ((alter_body k f w).next_npc_id ≡ w.next_npc_id)
unfolding alter_body
alter_body-npcs (who_player j) f w = (λ i h. h, refl)
alter_body-npcs (who_npc j) f w = (
  λ i h. lookup-adjust-none i j (λ (n : Npc). record n { character = f n.character }) w.npcs h,
  refl,
)

pub relocate-npcs :
    (k : Who) (p q : Position) (w : World)
    → ((i : ℕ) → lookup i w.npcs ≡ none → lookup i (relocate k p q w).npcs ≡ none)
      × ((relocate k p q w).next_npc_id ≡ w.next_npc_id)
unfolding relocate
relocate-npcs k p q w = alter_body-npcs k (λ c. record c { position = q }) (occupy p false w)

pub walk-npcs :
    (k : Who) (p : Position) (dir : Direction) (w : World)
    → ((i : ℕ) → lookup i w.npcs ≡ none → lookup i (walk k p dir w).1.npcs ≡ none)
      × ((walk k p dir w).1.next_npc_id ≡ w.next_npc_id)
unfolding walk
walk-npcs k p dir w =
    let q = calculate_destination p dir in
    let f = λ (d : Character). record d { direction = dir; moving = true } in
    let u = relocate k p q w in
    let (n, x) = relocate-npcs k p q w in
    let (m, y) = alter_body-npcs k f u in
    elim (Bool-cases (may_enter k q w)) [
      | inl t ↦ rw (t, walk) (λ i h. m i (n i h), y ∙ x)
      | inr g ↦ rw (g, walk) (λ i h. h, refl)
    ]
