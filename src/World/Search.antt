-- ===== src/World/Search.antt =====
-- server/world/world.cpp: `find_closest_free_position`, the search from a position outwards, and the
-- rows that `get_spawn_position` goes through.
use argentum_online_taller_g.Prelude.{
  ℕ, zero, suc, ◌+◌, ◌*◌, ◌-◌, Bool, true, false, not, ◌&&◌, ◌||◌, Option, none, some, List, [],
  ◌∷◌, ◌++◌, if◌then◌else◌,
}
use argentum_online_taller_g.Prelude.Int.{ℤ, pos, pos_part, ◌+ℤ◌, ◌-ℤ◌}
use argentum_online_taller_g.Config.{Position}
use argentum_online_taller_g.World.Map.{
  WorldMap, same_position, is_valid_position, is_position_blocked,
}
pub mod Sound
pub mod Fuel
pub mod Total

-- `visited.count(p) > 0`
unfoldable pub visits : Position → List Position → Bool
visits p [] = false
visits p (q ∷ ps) = same_position q p || visits p ps

abbrev pub north : Position → Position
north p = record p { y = p.y -ℤ pos 1 }

abbrev pub south : Position → Position
south p = record p { y = p.y +ℤ pos 1 }

abbrev pub west : Position → Position
west p = record p { x = p.x -ℤ pos 1 }

abbrev pub east : Position → Position
east p = record p { x = p.x +ℤ pos 1 }

unfoldable pub neighbors : Position → List Position
neighbors p = north p ∷ south p ∷ west p ∷ east p ∷ []

-- `map.is_valid_position(neighbor) && visited.insert(neighbor).second`
unfoldable pub is_new : WorldMap → Position → List Position → Bool
is_new m p visited = is_valid_position m p && not (visits p visited)

-- The loop over the neighbours: the queue and the set of visited positions.
unfoldable pub visit :
    WorldMap → List Position → List Position → List Position → List Position × List Position
visit m [] queue visited = (queue, visited)
visit m (p ∷ ps) queue visited =
    let fresh = is_new m p visited in
    visit m ps (if fresh then queue ++ p ∷ [] else queue) (if fresh then p ∷ visited else visited)

unfoldable pub is_free : WorldMap → (Position → Bool) → Position → Bool
is_free m is_free_condition p = not (is_position_blocked m p) && is_free_condition p

-- `while (!q.empty())`; the outer `none` is a loop that ran out of fuel.
unfoldable pub search_loop :
    ℕ → WorldMap → (Position → Bool) → List Position → List Position → Option (Option Position)
search_loop zero m cond queue visited = none
search_loop (suc fuel) m cond [] visited = some none
search_loop (suc fuel) m cond (curr ∷ queue) visited =
    let next = visit m (neighbors curr) queue visited in
    let rest = search_loop fuel m cond next.0 next.1 in
    if is_free m cond curr then some (some curr) else rest

-- One round for each position of the map, and one for the empty queue.
abbrev pub enough : WorldMap → ℕ
enough m = suc (m.width * m.height)

-- `find_closest_free_position`.
unfoldable pub find_closest : ℕ → WorldMap → (Position → Bool) → Position → Option (Option Position)
unfolding search_loop
find_closest fuel m cond start =
    let first : List Position = if is_valid_position m start then start ∷ [] else [] in
    search_loop fuel m cond first first

-- The search with enough rounds.
unfoldable pub find_closest_free_position :
    WorldMap → (Position → Bool) → Position → Option Position
find_closest_free_position m cond start = elim (find_closest (enough m) m cond start) [
  | none ↦ none
  | some r ↦ r
]

-- The free position of the `k` columns of row `y` from `x` on.
unfoldable pub scan_row : ℕ → ℕ → ℤ → (Position → Bool) → Option Position
scan_row zero x y free = none
scan_row (suc k) x y free =
    let p : Position = record { x = pos x; y = y } in
    let rest = scan_row k (suc x) y free in if free p then some p else rest
