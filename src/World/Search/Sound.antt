-- ===== src/World/Search/Sound.antt =====
-- server/world/world.cpp: what the search finds is on the map, not blocked, and passes its test.
use argentum_online_taller_g.Prelude.{
  ℕ, zero, suc, ◌≡◌, Bool, true, false, Option, none, some, List, [], ◌∷◌, arith, if◌then◌else◌,
  Bool-cases, Option-cases, inl, inr,
}
use mathlib.Core.Option.{some-injective}
use mathlib.Core.Path.{subst}
use argentum_online_taller_g.Config.{Position}
use argentum_online_taller_g.World.Map.{WorldMap, is_valid_position, is_position_blocked}
use argentum_online_taller_g.World.Search.{
  search_loop, visit, neighbors, is_free, find_closest, find_closest_free_position, enough,
}

-- A free position of the map, by the test of the search.
pub record IsFree (m : WorldMap) (cond : Position → Bool) (p : Position) : Type 0 where
  pub valid : is_valid_position m p ≡ true
  pub open_ground : is_position_blocked m p ≡ false
  pub fits : cond p ≡ true

pub is_free-IsFree :
    (m : WorldMap) (cond : Position → Bool) (p : Position)
    → is_free m cond p ≡ true
    → IsFree m cond p
unfolding is_free is_position_blocked
is_free-IsFree m cond p h = ground (arith, h)

search_loop-IsFree :
    (fuel : ℕ) (m : WorldMap) (cond : Position → Bool) (queue visited : List Position)
    (p : Position)
    → search_loop fuel m cond queue visited ≡ some (some p)
    → IsFree m cond p
unfolding search_loop
search_loop-IsFree zero m cond queue visited p h = absurd (cc)
search_loop-IsFree (suc fuel) m cond [] visited p h = absurd (cc)
search_loop-IsFree (suc fuel) m cond (curr ∷ queue) visited p h =
    elim (Bool-cases (is_free m cond curr)) [
      | inl t ↦
          let found : ◌≡◌ {A = Option (Option Position)} (some (some curr)) (some (some p)) =
            rw t at h in
          subst (IsFree m cond) (some-injective _ _ (some-injective _ _ found))
            (is_free-IsFree m cond curr t)
      | inr f ↦
          let next = visit m (neighbors curr) queue visited in
          search_loop-IsFree fuel m cond next.0 next.1 p (rw f at h)
    ]

-- What the search finds from any position is on the map, not blocked, and passes the test.
pub find_closest_free_position-IsFree :
    (m : WorldMap) (cond : Position → Bool) (start p : Position)
    → find_closest_free_position m cond start ≡ some p
    → IsFree m cond p
unfolding find_closest_free_position find_closest
find_closest_free_position-IsFree m cond start p h =
    elim (Option-cases (find_closest (enough m) m cond start)) [
      | inl n ↦ absurd (
          let gone : ◌≡◌ {A = Option Position} none (some p) =
            rw (n, find_closest_free_position) at h in
          cc)
      | inr (r, e) ↦
          let same : r ≡ some p = rw (e, find_closest_free_position) at h in
          let first : List Position = if is_valid_position m start then start ∷ [] else [] in
          search_loop-IsFree (enough m) m cond first first p (rw same at e)
    ]
