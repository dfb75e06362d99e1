-- ===== src/World/Search/Total.antt =====
-- server/world/world.cpp: a search that finds nothing has seen the whole map. The four neighbours
-- connect every position of it with every other, blocked or not.
use argentum_online_taller_g.Prelude.{
  ℕ, zero, suc, ◌<◌, ◌≡◌, ◌⊎◌, refl, sym, Bool, true, false, Option, none, some, List, [], ◌∷◌,
  ◌++◌, arith, Bool-cases, Option-cases, inl, inr,
}
use mathlib.Core.Path.{subst}
use argentum_online_taller_g.Prelude.Int.{pos, ◌+ℤ◌, ◌-ℤ◌, int_laws}
use argentum_online_taller_g.Config.{Position}
use argentum_online_taller_g.World.Map.{
  WorldMap, same_position, is_valid_position, same_position_iff,
}
use argentum_online_taller_g.World.Search.{
  search_loop, visit, visits, is_new, neighbors, is_free, find_closest, find_closest_free_position,
  enough, north, south, west, east,
}
use argentum_online_taller_g.World.Search.Sound.{IsFree, find_closest_free_position-IsFree}
use argentum_online_taller_g.World.Search.Fuel.{
  at, Spot, valid-Spot, visit_step, find_closest_total,
}

visits_head : (p : Position) (ps : List Position) → visits p (p ∷ ps) ≡ true
unfolding visits
visits_head p ps = rw ((same_position_iff p p).1 refl)

visits_rest : (p q : Position) (ps : List Position) → visits p ps ≡ true → visits p (q ∷ ps) ≡ true
unfolding visits
visits_rest p q ps h = ground (arith, h)

visits_cases :
    (p q : Position) (ps : List Position)
    → visits p (q ∷ ps) ≡ true
    → (q ≡ p) ⊎ (visits p ps ≡ true)
unfolding visits
visits_cases p q ps h = elim (Bool-cases (same_position q p)) [
  | inl t ↦ inl ((same_position_iff q p).0 t)
  | inr f ↦ inr (rw f at h)
]

visits-append_left :
    (p : Position) (xs ys : List Position) → visits p xs ≡ true → visits p (xs ++ ys) ≡ true
unfolding visits
visits-append_left p [] ys h = cc
visits-append_left p (x ∷ xs) ys h = ground (arith, visits-append_left p xs ys)

visits-append_last : (p : Position) (xs : List Position) → visits p (xs ++ p ∷ []) ≡ true
unfolding visits
visits-append_last p [] = visits_head p []
visits-append_last p (x ∷ xs) = ground (arith, visits-append_last p xs)

one_less : (x : ℕ) → pos (suc x) -ℤ pos 1 ≡ pos x
one_less x = omega int_laws

one_more : (x : ℕ) → pos x +ℤ pos 1 ≡ pos (suc x)
one_more x = omega int_laws

next_north : (x y : ℕ) → visits (at x y) (neighbors (at x (suc y))) ≡ true
unfolding neighbors
next_north x y =
    let p = at x (suc y) in
    subst (λ b. visits (record { x = pos x; y = b }) (neighbors p) ≡ true) (one_less y)
      (visits_head (north p) (south p ∷ west p ∷ east p ∷ []))

next_south : (x y : ℕ) → visits (at x (suc y)) (neighbors (at x y)) ≡ true
unfolding neighbors
next_south x y =
    let p = at x y in
    subst (λ b. visits (record { x = pos x; y = b }) (neighbors p) ≡ true) (one_more y)
      (visits_rest (south p) (north p) (south p ∷ west p ∷ east p ∷ [])
        (visits_head (south p) (west p ∷ east p ∷ [])))

next_west : (x y : ℕ) → visits (at x y) (neighbors (at (suc x) y)) ≡ true
unfolding neighbors
next_west x y =
    let p = at (suc x) y in
    subst (λ a. visits (record { x = a; y = pos y }) (neighbors p) ≡ true) (one_less x)
      (visits_rest (west p) (north p) (south p ∷ west p ∷ east p ∷ []) (
        visits_rest (west p) (south p) (west p ∷ east p ∷ []) (visits_head (west p) (east p ∷ []))))

next_east : (x y : ℕ) → visits (at (suc x) y) (neighbors (at x y)) ≡ true
unfolding neighbors
next_east x y =
    let p = at x y in
    subst (λ a. visits (record { x = a; y = pos y }) (neighbors p) ≡ true) (one_more x)
      (visits_rest (east p) (north p) (south p ∷ west p ∷ east p ∷ []) (
        visits_rest (east p) (south p) (west p ∷ east p ∷ [])
          (visits_rest (east p) (west p) (east p ∷ []) (visits_head (east p) []))))

module _ (m : WorldMap) where
  -- What one call of the loop over the neighbours does to the queue and the visited positions.
  record Visited (ps q v q' v' : List Position) : Type 0 where
    keeps : (p : Position) → visits p v ≡ true → visits p v' ≡ true
    waits : (p : Position) → visits p q ≡ true → visits p q' ≡ true
    takes : (p : Position) → visits p ps ≡ true → is_valid_position m p ≡ true → visits p v' ≡ true
    fresh : (p : Position) → visits p v' ≡ true → (visits p v ≡ true) ⊎ (visits p q' ≡ true)

  module _ {n : Position} {ps q v q' v' : List Position} where
    visit_new : Visited ps (q ++ n ∷ []) (n ∷ v) q' v' → Visited (n ∷ ps) q v q' v'
    visit_new ih = record {
      keeps = λ p h. ih.keeps p (visits_rest p n v h);
      waits = λ p h. ih.waits p (visits-append_left p q (n ∷ []) h);
      takes = λ p h ok. elim (visits_cases p n ps h) [
        | inl e ↦ ih.keeps p (subst (λ r. visits p (r ∷ v) ≡ true) (sym e) (visits_head p v))
        | inr r ↦ ih.takes p r ok
      ];
      fresh = λ p h. elim (ih.fresh p h) [
        | inl a ↦ elim (visits_cases p n v a) [
          | inl e ↦ inr (
              ih.waits p
                (subst (λ r. visits p (q ++ r ∷ []) ≡ true) (sym e) (visits-append_last p q)))
          | inr old ↦ inl old
        ]
        | inr b ↦ inr b
      ];
    }

    visit_old : is_new m n v ≡ false → Visited ps q v q' v' → Visited (n ∷ ps) q v q' v'
    unfolding is_new
    visit_old f ih = record {
      keeps = ih.keeps;
      waits = ih.waits;
      takes = λ p h ok. elim (visits_cases p n ps h) [
        | inl e ↦
            let known : visits n v ≡ true =
              let fine : is_valid_position m n ≡ true = rw e ok in ground (arith, f, fine) in
            ih.keeps p (rw e at known)
        | inr r ↦ ih.takes p r ok
      ];
      fresh = ih.fresh;
    }

  visit_lem : (ps q v : List Position) → Visited ps q v (visit m ps q v).0 (visit m ps q v).1
  unfolding visit
  visit_lem [] q v = record {
    keeps = λ p h. h;
    waits = λ p h. h;
    takes = λ p h. absurd (no_one p h);
    fresh = λ p h. inl h;
  }
    where
      no_one : (p : Position) → visits p [] ≡ true → ⊥
      no_one p h = let f : visits p [] ≡ false = unfold visits in refl in cc (f, h)
  visit_lem (n ∷ ps) q v = elim (Bool-cases (is_new m n v)) [
    | inl t ↦ rw (visit_step m n ps q v true t) (visit_new (visit_lem ps (q ++ n ∷ []) (n ∷ v)))
    | inr f ↦ rw (visit_step m n ps q v false f) (visit_old f (visit_lem ps q v))
  ]

  -- Each visited position waits in the queue, or it is not free and its neighbours on the map are
  -- visited.
  abbrev Closed : (Position → Bool) → Position → List Position → Type 0
  Closed cond p v =
      (is_free m cond p ≡ false)
      × ((n : Position)
          → visits n (neighbors p) ≡ true
          → is_valid_position m n ≡ true
          → visits n v ≡ true)

  abbrev Seen : (Position → Bool) → List Position → List Position → Type 0
  Seen cond q v = (p : Position) → visits p v ≡ true → (visits p q ≡ true) ⊎ Closed cond p v

  Closed-mono :
      (cond : Position → Bool) (p : Position) (v w : List Position)
      → ((x : Position) → visits x v ≡ true → visits x w ≡ true)
      → Closed cond p v
      → Closed cond p w
  Closed-mono cond p v w more c = (c.0, λ n h ok. more n (c.1 n h ok))

  visit-Seen :
      (cond : Position → Bool) (curr : Position) (q v q' v' : List Position)
      → is_free m cond curr ≡ false
      → Visited (neighbors curr) q v q' v'
      → Seen cond (curr ∷ q) v
      → Seen cond q' v'
  visit-Seen cond curr q v q' v' f s seen p h = elim (s.fresh p h) [
    | inr waiting ↦ inl waiting
    | inl old ↦ elim (seen p old) [
      | inr c ↦ inr (Closed-mono cond p v v' s.keeps c)
      | inl queued ↦ elim (visits_cases p curr q queued) [
        | inr later ↦ inl (s.waits p later)
        | inl e ↦ inr (subst (λ x. Closed cond x v') e (f, s.takes))
      ]
    ]
  ]

  search_loop-Seen :
      (fuel : ℕ) (cond : Position → Bool) (q v : List Position)
      → search_loop fuel m cond q v ≡ some none
      → Seen cond q v
      → (w : List Position) × ((p : Position) → visits p v ≡ true → visits p w ≡ true)
        × Seen cond [] w
  unfolding search_loop
  search_loop-Seen zero cond q v h seen = absurd (cc)
  search_loop-Seen (suc fuel) cond [] v h seen = (v, λ p old. old, seen)
  search_loop-Seen (suc fuel) cond (curr ∷ q) v h seen = elim (Bool-cases (is_free m cond curr)) [
    | inl t ↦
        let gone : ◌≡◌ {A = Option (Option Position)} (some (some curr)) (some none) = rw t at h in
        absurd (cc)
    | inr f ↦
        let s = visit_lem (neighbors curr) q v in
        let (w, more, all) =
          search_loop-Seen fuel cond (visit m (neighbors curr) q v).0
            (visit m (neighbors curr) q v).1 (rw f at h)
            (visit-Seen cond curr q v (visit m (neighbors curr) q v).0
              (visit m (neighbors curr) q v).1 f s seen) in
        (w, λ p old. more p (s.keeps p old), all)
  ]

  -- Closed under neighbours.
  abbrev Spreads : List Position → Type 0
  Spreads w =
      (p n : Position)
      → visits p w ≡ true
      → visits n (neighbors p) ≡ true
      → is_valid_position m n ≡ true
      → visits n w ≡ true

  module _ (w : List Position) (spreads : Spreads w) where
    on_map : (x y : ℕ) → x < m.width → y < m.height → is_valid_position m (at x y) ≡ true
    unfolding is_valid_position
    on_map x y a b = ground (arith, a, b)

    go_west :
        (x y : ℕ) → x < m.width → y < m.height → visits (at x y) w ≡ true → visits (at 0 y) w ≡ true
    go_west zero y a b h = h
    go_west (suc x) y a b h =
        go_west x y (omega arith) b
          (spreads (at (suc x) y) (at x y) h (next_west x y) (on_map x y (omega arith) b))

    go_north :
        (x y : ℕ) → x < m.width → y < m.height → visits (at x y) w ≡ true → visits (at x 0) w ≡ true
    go_north x zero a b h = h
    go_north x (suc y) a b h =
        go_north x y a (omega arith)
          (spreads (at x (suc y)) (at x y) h (next_north x y) (on_map x y a (omega arith)))

    go_south :
        (x y : ℕ) → x < m.width → y < m.height → visits (at x 0) w ≡ true → visits (at x y) w ≡ true
    go_south x zero a b h = h
    go_south x (suc y) a b h =
        spreads (at x y) (at x (suc y)) (go_south x y a (omega arith) h) (next_south x y)
          (on_map x (suc y) a b)

    go_east :
        (x y : ℕ) → x < m.width → y < m.height → visits (at 0 y) w ≡ true → visits (at x y) w ≡ true
    go_east zero y a b h = h
    go_east (suc x) y a b h =
        spreads (at x y) (at (suc x) y) (go_east x y (omega arith) b h) (next_east x y)
          (on_map (suc x) y a b)

    everywhere : (p q : Position) → Spot m p → Spot m q → visits p w ≡ true → visits q w ≡ true
    everywhere p q (x, y, e, lx, ly) (a, b, f, la, lb) h =
        let start : visits (at x y) w ≡ true = rw e at h in
        let edge = go_north 0 y (omega arith) ly (go_west x y lx ly start) in
        rw f (go_east a b la lb (go_south 0 b (omega arith) lb edge))

  -- A search that ends with an empty queue has seen every position of the map.
  all_taken :
      (cond : Position → Bool) (start : Position) (w : List Position)
      → is_valid_position m start ≡ true
      → visits start w ≡ true
      → Seen cond [] w
      → (p : Position) → is_valid_position m p ≡ true
      → is_free m cond p ≡ false
  all_taken cond start w ok here seen p valid = (closed p found).0
    where
      closed : (x : Position) → visits x w ≡ true → Closed cond x w
      closed x h = elim (seen x h) [
        | inl none_left ↦ absurd (unfold visits in cc (none_left))
        | inr c ↦ c
      ]

      found : visits p w ≡ true
      found =
          everywhere w (λ x n h near fine. (closed x h).1 n near fine) start p
            (valid-Spot m start ok) (valid-Spot m p valid) here

  first-Seen : (cond : Position → Bool) (start : Position) → Seen cond (start ∷ []) (start ∷ [])
  first-Seen cond start p h = inl h

find_closest_free_position-none :
    (m : WorldMap) (cond : Position → Bool) (start p : Position)
    → is_valid_position m start ≡ true
    → find_closest_free_position m cond start ≡ none
    → is_valid_position m p ≡ true
    → is_free m cond p ≡ false
unfolding find_closest_free_position find_closest
find_closest_free_position-none m cond start p ok h valid =
    let (r, e) = find_closest_total m cond start in
    let nothing : r ≡ none = rw (e, find_closest_free_position) at h in
    let ends : find_closest (enough m) m cond start ≡ some none = rw nothing at e in
    let (w, more, seen) =
      search_loop-Seen m (enough m) cond (start ∷ []) (start ∷ []) (rw (ok, find_closest) at ends)
        (first-Seen m cond start) in
    all_taken m cond start w ok (more start (visits_head start [])) seen p valid

-- The search from a position of the map ends. It finds a position of the map that is not blocked and
-- passes the test, or there is none on the whole map.
pub find_closest_free_position_total :
    (m : WorldMap) (cond : Position → Bool) (start : Position)
    → is_valid_position m start ≡ true
    → ((p : Position) × (find_closest_free_position m cond start ≡ some p) × IsFree m cond p)
      ⊎ ((find_closest_free_position m cond start ≡ none)
          × ((p : Position) → is_valid_position m p ≡ true → is_free m cond p ≡ false))
find_closest_free_position_total m cond start ok =
    elim (Option-cases (find_closest_free_position m cond start)) [
      | inl n ↦ inr (n, λ p valid. find_closest_free_position-none m cond start p ok n valid)
      | inr (p, e) ↦ inl (p, e, find_closest_free_position-IsFree m cond start p e)
    ]
