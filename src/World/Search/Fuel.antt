-- ===== src/World/Search/Fuel.antt =====
-- server/world/world.cpp: the search ends. Each round takes a position out of the queue, and a
-- position enters it once.
use argentum_online_taller_g.Prelude.{
  ℕ, zero, suc, ◌+◌, ◌*◌, ◌≤◌, ◌<◌, ◌≡◌, ◌≢◌, refl, ap, Bool, true, false, Option, none, some, List,
  [], ◌∷◌, ◌++◌, arith, if◌then◌else◌, Bool-cases, inl, inr, length, length-append,
}
use native.Mathlib.Decide.{ℕ_discrete}
use argentum_online_taller_g.Prelude.Int.{ℤ, pos, negsuc}
use argentum_online_taller_g.Config.{Position}
use argentum_online_taller_g.World.Map.{
  WorldMap, same_position, is_valid_position, same_position_iff,
}
use argentum_online_taller_g.World.Search.{
  search_loop, visit, visits, is_new, neighbors, is_free, find_closest, enough,
}

abbrev pub at : ℕ → ℕ → Position
at x y = record { x = pos x; y = pos y }

-- The positions of the first `k` columns of row `y` that are not visited yet, and those of the
-- first rows of a map of `w` columns.
row_left : ℕ → ℕ → List Position → ℕ
row_left zero y v = 0
row_left (suc k) y v = (if visits (at k y) v then 0 else 1) + row_left k y v

rows_left : ℕ → ℕ → List Position → ℕ
rows_left zero w v = 0
rows_left (suc r) w v = row_left w r v + rows_left r w v

row_left-le : (k y : ℕ) (v : List Position) → row_left k y v ≤ k
unfolding row_left
row_left-le zero y v = omega arith
row_left-le (suc k) y v = ground (arith, row_left-le k y v)

rows_left-le : (r w : ℕ) (v : List Position) → rows_left r w v ≤ w * r
unfolding rows_left
rows_left-le zero w v = omega arith
rows_left-le (suc r) w v = omega (arith, row_left-le w r v, rows_left-le r w v)

row_left-cons : (k y : ℕ) (p : Position) (v : List Position) → row_left k y (p ∷ v) ≤ row_left k y v
unfolding row_left visits
row_left-cons zero y p v = omega arith
row_left-cons (suc k) y p v = ground (arith, row_left-cons k y p v)

rows_left-cons :
    (r w : ℕ) (p : Position) (v : List Position) → rows_left r w (p ∷ v) ≤ rows_left r w v
unfolding rows_left
rows_left-cons zero w p v = omega arith
rows_left-cons (suc r) w p v = omega (arith, row_left-cons w r p v, rows_left-cons r w p v)

apart : (p q : Position) → same_position p q ≡ false → p ≢ q
apart p q f e = let t = (same_position_iff p q).1 e in cc (f, t)

row_left-new :
    (k y x : ℕ) (v : List Position)
    → x < k
    → visits (at x y) v ≡ false
    → row_left k y (at x y ∷ v) < row_left k y v
unfolding row_left visits
row_left-new zero y x v lt h = elim lt [ ]
row_left-new (suc k) y x v lt h = elim (Bool-cases (same_position (at x y) (at k y))) [
  | inl t ↦
      let same : at x y ≡ at k y = (same_position_iff (at x y) (at k y)).0 t in
      let old : visits (at k y) v ≡ false = rw (← same) h in
      rw (t, old) (omega (arith, row_left-cons k y (at x y) v))
  | inr f ↦
      let ne : x ≢ k = λ e. apart (at x y) (at k y) f (ap (λ n. at n y) e) in
      rw f (ground (arith, row_left-new k y x v (omega arith) h))
]

rows_left-new :
    (r w y x : ℕ) (v : List Position)
    → x < w
    → y < r
    → visits (at x y) v ≡ false
    → rows_left r w (at x y ∷ v) < rows_left r w v
unfolding rows_left
rows_left-new zero w y x v lt ly h = elim ly [ ]
rows_left-new (suc r) w y x v lt ly h = elim (ℕ_discrete y r) [
  | yes e ↦
      let here : row_left w r (at x y ∷ v) < row_left w r v =
        rw (← e) (row_left-new w y x v lt h) in
      omega (arith, here, rows_left-cons r w (at x y) v)
  | no n ↦ omega (arith, row_left-cons w r (at x y) v, rows_left-new r w y x v lt (omega arith) h)
]

-- The positions of the map that are not visited yet.
pub unvisited : WorldMap → List Position → ℕ
unvisited m v = rows_left m.height m.width v

-- A position on the map, by its column and row.
abbrev pub Spot : WorldMap → Position → Type 0
Spot m p = (x : ℕ) × (y : ℕ) × (p ≡ at x y) × (x < m.width) × (y < m.height)

coordinates-Spot :
    (m : WorldMap) (a b : ℤ)
    → is_valid_position m (record { x = a; y = b }) ≡ true
    → Spot m (record { x = a; y = b })
unfolding is_valid_position
coordinates-Spot m (pos a) (pos b) h = (a, b, refl, ground (arith, h), ground (arith, h))
coordinates-Spot m (pos a) (negsuc b) h = absurd (ground (arith, h))
coordinates-Spot m (negsuc a) b h = absurd (ground (arith, h))

pub valid-Spot : (m : WorldMap) (p : Position) → is_valid_position m p ≡ true → Spot m p
valid-Spot m p h = coordinates-Spot m p.x p.y h

pub is_new_parts :
    (m : WorldMap) (p : Position) (v : List Position)
    → is_new m p v ≡ true
    → (is_valid_position m p ≡ true) × (visits p v ≡ false)
unfolding is_new
is_new_parts m p v h = ground (arith, h)

unvisited-new :
    (m : WorldMap) (p : Position) (v : List Position)
    → is_new m p v ≡ true
    → unvisited m (p ∷ v) < unvisited m v
unfolding unvisited
unvisited-new m p v h =
    let (fine, fresh) = is_new_parts m p v h in
    let (x, y, e, lx, ly) = valid-Spot m p fine in
    let unseen : visits (at x y) v ≡ false = rw (← e) fresh in
    rw e (rows_left-new m.height m.width y x v lx ly unseen)

-- One neighbour.
pub visit_step :
    (m : WorldMap) (p : Position) (ps q v : List Position) (b : Bool)
    → is_new m p v ≡ b
    → visit m (p ∷ ps) q v ≡ visit m ps (if b then q ++ p ∷ [] else q) (if b then p ∷ v else v)
unfolding visit
visit_step m p ps q v b e =
    ap (λ t. visit m ps (if t then q ++ p ∷ [] else q) (if t then p ∷ v else v)) e

visit_measure :
    (m : WorldMap) (ps q v : List Position)
    → length (visit m ps q v).0 + unvisited m (visit m ps q v).1 ≤ length q + unvisited m v
unfolding visit
visit_measure m [] q v = omega arith
visit_measure m (p ∷ ps) q v = elim (Bool-cases (is_new m p v)) [
  | inl t ↦ rw (visit_step m p ps q v true t) (
      omega (
        arith,
        visit_measure m ps (q ++ p ∷ []) (p ∷ v),
        length-append q (p ∷ []),
        unvisited-new m p v t,
      ))
  | inr f ↦ rw (visit_step m p ps q v false f) (visit_measure m ps q v)
]

search_loop_total :
    (fuel : ℕ) (m : WorldMap) (cond : Position → Bool) (q v : List Position)
    → length q + unvisited m v < fuel
    → (r : Option Position) × (search_loop fuel m cond q v ≡ some r)
unfolding search_loop
search_loop_total zero m cond q v lt = elim lt [ ]
search_loop_total (suc fuel) m cond [] v lt = (none, refl)
search_loop_total (suc fuel) m cond (p ∷ q) v lt = elim (Bool-cases (is_free m cond p)) [
  | inl t ↦ rw t (some p, refl)
  | inr f ↦
      let next = visit m (neighbors p) q v in
      rw f (
        search_loop_total fuel m cond next.0 next.1
          (omega (arith, visit_measure m (neighbors p) q v)))
]

first_measure :
    (m : WorldMap) (start : Position)
    → is_valid_position m start ≡ true
    → 1 + unvisited m (start ∷ []) < enough m
unfolding unvisited is_new visits
first_measure m start h =
    omega (arith, unvisited-new m start [] (rw h refl), rows_left-le m.height m.width [])

-- With one round more than the map has positions the search ends.
pub find_closest_total :
    (m : WorldMap) (cond : Position → Bool) (start : Position)
    → (r : Option Position) × (find_closest (enough m) m cond start ≡ some r)
unfolding find_closest search_loop
find_closest_total m cond start = elim (Bool-cases (is_valid_position m start)) [
  | inl t ↦
      rw t (search_loop_total (enough m) m cond (start ∷ []) (start ∷ []) (first_measure m start t))
  | inr f ↦ rw f (none, refl)
]
