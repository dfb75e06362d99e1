-- ===== src/World/Map.antt =====
-- server/world/world_map.cpp with its cells and zones: which positions there are, what stands in
-- them, and which zone they belong to. A zone is shared by its positions and never changes.
use argentum_online_taller_g.Prelude.{
  ℕ, zero, suc, ◌+◌, ◌≡◌, ◌≢◌, refl, ap, Bool, true, false, not, ◌&&◌, Option, none, some, List, [],
  ◌∷◌, ◌++◌, Bytes, if◌then◌else◌, get_elem?, get_or, set, replicate, arith, get_elem?-set_ne,
}
use native.Mathlib.Decide.{ℕ_discrete}
use argentum_online_taller_g.Prelude.Int.{ℤ, pos, negsuc, ◌+ℤ◌, leb_ℤ, ltb_ℤ, eq_ℤ}
use argentum_online_taller_g.Config.{Position}
use argentum_online_taller_g.World.Cities.{City}

-- common/world/terrain_type.h.
pub data TerrainType : Type 0 where
  grass water dirt stone sand wood dungeon_entrance_1 dungeon_floor_1 dungeon_wall_1
        dungeon_entrance_2 dungeon_floor_2 dungeon_wall_2 city_floor_1 city_wall_1 city_floor_2
        city_wall_2 :
      TerrainType

-- server/world/cell.h.
pub record Cell : Type 0 where
  pub terrain_type : TerrainType
  pub blocking : Bool

abbrev pub empty_cell : Cell
empty_cell = record { terrain_type = grass; blocking = false }

-- server/world/zone_type.h.
pub data ZoneType : Type 0 where
  every city dungeon : ZoneType

-- `==` of two zone types.
unfoldable pub zone_type_eq : ZoneType → ZoneType → Bool
zone_type_eq every every = true
zone_type_eq city city = true
zone_type_eq dungeon dungeon = true
zone_type_eq _ _ = false

-- server/world/dungeon.h.
pub record Dungeon : Type 0 where
  pub name : Bytes
  pub entrance_x : ℤ
  pub entrance_y : ℤ

-- The classes that extend `Zone`.
pub data Zone : Type 0 where
  city_zone : City → Zone
  dungeon_zone : Dungeon → Zone

-- `Zone::is_safe` and `Zone::get_type` of each class.
unfoldable pub zone_is_safe : Zone → Bool
zone_is_safe (city_zone _) = true
zone_is_safe (dungeon_zone _) = false

unfoldable pub get_type : Zone → ZoneType
get_type (city_zone _) = city
get_type (dungeon_zone _) = dungeon

-- `operator==` of two positions.
unfoldable pub same_position : Position → Position → Bool
same_position p q = eq_ℤ p.x q.x && eq_ℤ p.y q.y

module _ {ℓ} {A : Type ℓ} where
  -- The cell of column `x` and row `y`; `none` is outside of the grid, which is undefined in C++.
  unfoldable pub cell_at : List (List A) → ℤ → ℤ → Option A
  cell_at g (pos x) (pos y) = get_elem? (get_or g y []) x
  cell_at g _ _ = none

  unfoldable pub set_at : List (List A) → ℤ → ℤ → A → List (List A)
  set_at g (pos x) (pos y) v = set g y (set (get_or g y []) x v)
  set_at g _ _ v = g

  -- `grid[y][x]`
  abbrev pub grid_at : List (List A) → Position → Option A
  grid_at g p = cell_at g p.x p.y

  -- `grid[y][x] = v`
  abbrev pub grid_set : List (List A) → Position → A → List (List A)
  grid_set g p v = set_at g p.x p.y v

pub record WorldMap : Type 0 where
  pub cells : List (List Cell)
  pub zones : List (List (Option Zone))
  pub cities : List City
  pub dungeons : List Dungeon
  pub width : ℕ
  pub height : ℕ

-- `WorldMap::WorldMap`.
unfoldable pub new_map : ℕ → ℕ → WorldMap
new_map width height = record {
  cells = replicate height (replicate width empty_cell);
  zones = replicate height (replicate width none);
  cities = [];
  dungeons = [];
  width = width;
  height = height;
}

unfoldable pub is_valid_position : WorldMap → Position → Bool
is_valid_position m p =
    leb_ℤ (pos 0) p.x
    && (ltb_ℤ p.x (pos m.width) && (leb_ℤ (pos 0) p.y && ltb_ℤ p.y (pos m.height)))

unfoldable pub get_cell : WorldMap → Position → Cell
get_cell m p =
    if not (is_valid_position m p)
    then empty_cell
    else elim (grid_at m.cells p) [ none ↦ empty_cell | some c ↦ c ]

unfoldable pub set_cell : Position → Cell → WorldMap → WorldMap
set_cell p c m =
    if not (is_valid_position m p) then m else record m { cells = grid_set m.cells p c }

-- What is off the map is blocked.
unfoldable pub is_position_blocked : WorldMap → Position → Bool
is_position_blocked m p =
    if not (is_valid_position m p)
    then true
    else elim (grid_at m.cells p) [ none ↦ false | some c ↦ c.blocking ]

unfoldable pub get_zone : WorldMap → Position → Option Zone
get_zone m p =
    if not (is_valid_position m p)
    then none
    else elim (grid_at m.zones p) [ none ↦ none | some z ↦ z ]

unfoldable pub set_zone : Position → Zone → WorldMap → WorldMap
set_zone p z m =
    if not (is_valid_position m p) then m else record m { zones = grid_set m.zones p (some z) }

-- The inner loop of `add_zone`, from `dx` on, for the `k` columns that are left.
unfoldable pub fill_row : ℕ → ℕ → ℤ → ℤ → Zone → WorldMap → WorldMap
fill_row zero dx x y z m = m
fill_row (suc k) dx x y z m =
    fill_row k (dx + 1) x y z (set_zone (record { x = x +ℤ pos dx; y = y }) z m)

-- The outer loop, from `dy` on, for the `k` rows that are left.
unfoldable pub fill_rows : ℕ → ℕ → ℤ → ℤ → ℕ → Zone → WorldMap → WorldMap
fill_rows zero dy x y w z m = m
fill_rows (suc k) dy x y w z m = fill_rows k (dy + 1) x y w z (fill_row w 0 x (y +ℤ pos dy) z m)

unfoldable pub add_zone : Zone → ℤ → ℤ → ℕ → ℕ → WorldMap → WorldMap
add_zone z x y w h m = fill_rows h 0 x y w z m

unfoldable pub add_city : City → ℤ → ℤ → ℕ → ℕ → WorldMap → WorldMap
add_city c x y w h m =
    let n = add_zone (city_zone c) x y w h m in record n { cities = n.cities ++ c ∷ [] }

unfoldable pub add_dungeon : Dungeon → ℤ → ℤ → ℕ → ℕ → WorldMap → WorldMap
add_dungeon d x y w h m =
    let n = add_zone (dungeon_zone d) x y w h m in record n { dungeons = n.dungeons ++ d ∷ [] }

unfoldable pub is_safe : WorldMap → Position → Bool
is_safe m p = elim (get_zone m p) [ none ↦ false | some z ↦ zone_is_safe z ]

unfoldable pub get_zone_type : WorldMap → Position → ZoneType
get_zone_type m p = elim (get_zone m p) [ none ↦ every | some z ↦ get_type z ]

-- `operator==` decides equality.
pub same_position_iff :
    (p q : Position) → (same_position p q ≡ true → p ≡ q) × (p ≡ q → same_position p q ≡ true)
unfolding same_position
same_position_iff p q = (λ h. ground (arith, h), λ e. rw e (ground arith))

module _ {ℓ} {A : Type ℓ} where
  get_elem?-set_here :
      (xs : List A) (i : ℕ) (u v : A) → get_elem? xs i ≡ some u → get_elem? (set xs i v) i ≡ some v
  get_elem?-set_here [] i u v h = cc
  get_elem?-set_here (x ∷ xs) zero u v h = refl
  get_elem?-set_here (x ∷ xs) (suc i) u v h = get_elem?-set_here xs i u v h

  row-set_here :
      (g : List (List A)) (y x : ℕ) (row : List A) (u : A)
      → get_elem? (get_or g y []) x ≡ some u
      → get_or (set g y row) y [] ≡ row
  row-set_here [] y x row u h = cc
  row-set_here (r ∷ g) zero x row u h = refl
  row-set_here (r ∷ g) (suc y) x row u h = row-set_here g y x row u h

  row-set_away :
      (g : List (List A)) (y z : ℕ) (row : List A)
      → y ≢ z
      → get_or (set g y row) z [] ≡ get_or g z []
  row-set_away [] y z row ne = refl
  row-set_away (r ∷ g) zero zero row ne = absurd (ne refl)
  row-set_away (r ∷ g) zero (suc z) row ne = refl
  row-set_away (r ∷ g) (suc y) zero row ne = refl
  row-set_away (r ∷ g) (suc y) (suc z) row ne = row-set_away g y z row (λ e. ne (ap suc e))

  cell_at-set_at_self :
      (g : List (List A)) (x y : ℤ) (u v : A)
      → cell_at g x y ≡ some u
      → cell_at (set_at g x y v) x y ≡ some v
  unfolding cell_at set_at
  cell_at-set_at_self g (pos x) (pos y) u v h =
      rw (row-set_here g y x (set (get_or g y []) x v) u h)
        (get_elem?-set_here (get_or g y []) x u v h)
  cell_at-set_at_self g (pos x) (negsuc y) u v h = cc
  cell_at-set_at_self g (negsuc x) y u v h = cc

  same_row :
      (g : List (List A)) (y x a : ℕ) (v : A)
      → x ≢ a
      → get_elem? (get_or (set g y (set (get_or g y []) x v)) y []) a ≡ get_elem? (get_or g y []) a
  same_row [] y x a v ne = refl
  same_row (r ∷ g) zero x a v ne = get_elem?-set_ne r v ne
  same_row (r ∷ g) (suc y) x a v ne = same_row g y x a v ne

  cell_at-set_at_ne :
      (g : List (List A)) (x y a b : ℤ) (v : A)
      → ((x ≡ a) × (y ≡ b) → ⊥)
      → cell_at (set_at g x y v) a b ≡ cell_at g a b
  unfolding cell_at set_at
  cell_at-set_at_ne g (pos x) (pos y) (pos a) (pos b) v ne = elim (ℕ_discrete y b) [
    | yes e ↦ rw (← e) (same_row g y x a v (λ d. ne (ap pos d, ap pos e)))
    | no n ↦ rw (row-set_away g y b (set (get_or g y []) x v) n)
  ]
  cell_at-set_at_ne g (pos x) (pos y) (pos a) (negsuc b) v ne = refl
  cell_at-set_at_ne g (pos x) (pos y) (negsuc a) b v ne = refl
  cell_at-set_at_ne g (pos x) (negsuc y) a b v ne = refl
  cell_at-set_at_ne g (negsuc x) y a b v ne = refl

  pub grid_at-grid_set_self :
      (g : List (List A)) (p : Position) (u v : A)
      → grid_at g p ≡ some u
      → grid_at (grid_set g p v) p ≡ some v
  grid_at-grid_set_self g p u v h = cell_at-set_at_self g p.x p.y u v h

  pub grid_at-grid_set_ne :
      (g : List (List A)) (p q : Position) (v : A)
      → p ≢ q
      → grid_at (grid_set g p v) q ≡ grid_at g q
  grid_at-grid_set_ne g p q v ne =
      cell_at-set_at_ne g p.x p.y q.x q.y v (λ e. ne (λ i. record { x = e.0 i; y = e.1 i }))
