-- ===== src/World/Cities.antt =====
-- server/world/world_map.cpp and city.h: the cities, and the one that is closest to a position.
use argentum_online_taller_g.Prelude.{
  ℕ, ◌≡◌, ◌≢◌, refl, inl, inr, true, false, Option, none, some, List, [], ◌∷◌, Bytes, arith,
  if◌then◌else◌, All, Bool-cases, get_elem?, suc, zero,
}
use argentum_online_taller_g.Prelude.Int.{ℤ, negsuc, ◌+ℤ◌, ◌-ℤ◌, ◌*ℤ◌, ◌≤ℤ◌, ltb_ℤ}
use argentum_online_taller_g.Config.{Position}

-- server/world/city.h.
pub record City : Type 0 where
  pub name : Bytes
  pub priest_position : Position
  pub merchant_position : Position
  pub banker_position : Position

-- The square of the distance, which spares the root.
unfoldable pub dist_sq : Position → City → ℤ
dist_sq p c =
    let q = c.priest_position in (q.x -ℤ p.x) *ℤ (q.x -ℤ p.x) +ℤ (q.y -ℤ p.y) *ℤ (q.y -ℤ p.y)

-- The loop: the closest city so far, and its distance.
unfoldable pub closest_loop : Position → List City → Option City → ℤ → Option City
closest_loop p [] closest min_dist = closest
closest_loop p (city ∷ cities) none min_dist = closest_loop p cities (some city) (dist_sq p city)
closest_loop p (city ∷ cities) (some c) min_dist =
    let nearer = closest_loop p cities (some city) (dist_sq p city) in
    let same = closest_loop p cities (some c) min_dist in
    if ltb_ℤ (dist_sq p city) min_dist then nearer else same

unfoldable pub get_closest_city : List City → Position → Option City
get_closest_city cities p = closest_loop p cities none (negsuc 0)

-- No city of the list is closer.
abbrev pub IsClosest : Position → City → List City → Type 0
IsClosest p c cities = All (λ d. dist_sq p c ≤ℤ dist_sq p d) cities

trans : (a b c : ℤ) → a ≤ℤ b → b ≤ℤ c → a ≤ℤ c
trans a b c h k = ground arith

not-lt : (a b : ℤ) → ltb_ℤ a b ≡ false → b ≤ℤ a
not-lt a b h = ground arith

lt-le : (a b : ℤ) → ltb_ℤ a b ≡ true → a ≤ℤ b
lt-le a b h = ground arith

le_self : (a : ℤ) → a ≤ℤ a
le_self a = ground arith

-- A city of the list.
abbrev pub IsListed : City → List City → Type 0
IsListed c cities = (i : ℕ) × (get_elem? cities i ≡ some c)

closest_loop_lem :
    (p : Position) (cities : List City) (c : City)
    → (r : City) × (closest_loop p cities (some c) (dist_sq p c) ≡ some r)
      × IsListed r (c ∷ cities)
      × (dist_sq p r ≤ℤ dist_sq p c)
      × IsClosest p r cities
unfolding closest_loop
closest_loop_lem p [] c = (c, refl, (0, refl), le_self (dist_sq p c), tt)
closest_loop_lem p (d ∷ cities) c = elim (Bool-cases (ltb_ℤ (dist_sq p d) (dist_sq p c))) [
  | inl t ↦
      let (r, e, (i, at), near, all) = closest_loop_lem p cities d in
      rw t (
        r,
        e,
        (suc i, at),
        trans (dist_sq p r) (dist_sq p d) (dist_sq p c) near (lt-le (dist_sq p d) (dist_sq p c) t),
        (near, all),
      )
  | inr f ↦
      let (r, e, listed, near, all) = closest_loop_lem p cities c in
      rw f (
        r,
        e,
        skip r listed,
        near,
        (
          trans (dist_sq p r) (dist_sq p c) (dist_sq p d) near
              (not-lt (dist_sq p d) (dist_sq p c) f),
          all,
        ),
      )
]
  where
    skip : (r : City) → IsListed r (c ∷ cities) → IsListed r (c ∷ d ∷ cities)
    skip r (zero, at) = (0, at)
    skip r (suc i, at) = (suc (suc i), at)

-- Where there is a city at all, one of the cities is found, and no city's priest is closer.
pub get_closest_city-IsClosest :
    (cities : List City) (p : Position)
    → cities ≢ []
    → (c : City) × (get_closest_city cities p ≡ some c) × IsListed c cities × IsClosest p c cities
unfolding get_closest_city closest_loop
get_closest_city-IsClosest [] p some_city = absurd (some_city refl)
get_closest_city-IsClosest (d ∷ cities) p some_city =
    let (r, e, listed, near, all) = closest_loop_lem p cities d in (r, e, listed, (near, all))
