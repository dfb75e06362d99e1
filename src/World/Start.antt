-- ===== src/World/Start.antt =====
-- server/world/world.cpp: in a world without players and characters, `occupied` is right.
use argentum_online_taller_g.Prelude.{
  ℕ, zero, suc, ◌<◌, ◌≡◌, refl, sym, ap, ◌∙◌, true, false, some, List, [], subst, arith, lookup,
  get_elem?,
}
use argentum_online_taller_g.Prelude.Int.{ℤ, pos, negsuc}
use argentum_online_taller_g.Config.{Env, Position}
use argentum_online_taller_g.World.Map.{WorldMap, grid_at, cell_at, is_valid_position}
use argentum_online_taller_g.World.State.{empty_world, Who, who_player, who_npc, body}
use argentum_online_taller_g.World.Places.{stands}
use argentum_online_taller_g.Prelude.{replicate, get_or}
use argentum_online_taller_g.World.Search.Fuel.{at, valid-Spot}
use argentum_online_taller_g.World.Settled.{IsSettled}

get_elem?-replicate : {A : Type 0} (n i : ℕ) (a : A) → i < n → get_elem? (replicate n a) i ≡ some a
get_elem?-replicate zero i a h = elim h [ ]
get_elem?-replicate (suc n) zero a h = refl
get_elem?-replicate (suc n) (suc i) a h = get_elem?-replicate n i a (omega arith)

row-replicate : {A : Type 0} (n i : ℕ) (row : List A) → i < n → get_or (replicate n row) i [] ≡ row
row-replicate zero i row h = elim h [ ]
row-replicate (suc n) zero row h = refl
row-replicate (suc n) (suc i) row h = row-replicate n i row (omega arith)

free_at_first :
    (m : WorldMap) (x y : ℕ)
    → x < m.width
    → y < m.height
    → grid_at (replicate m.height (replicate m.width false)) (at x y) ≡ some false
unfolding cell_at
free_at_first m x y a b =
    ap (λ row. get_elem? row x) (row-replicate m.height y (replicate m.width false) b)
    ∙ get_elem?-replicate m.width x false a

never_taken : (n i : ℕ) → get_elem? (replicate n false) i ≡ some true → ⊥
never_taken zero i h = absurd (cc)
never_taken (suc n) zero h = absurd (cc)
never_taken (suc n) (suc i) h = never_taken n i h

no_row_taken :
    (n k y x : ℕ) → get_elem? (get_or (replicate n (replicate k false)) y []) x ≡ some true → ⊥
no_row_taken zero k y x h = absurd (cc)
no_row_taken (suc n) k zero x h = never_taken k x h
no_row_taken (suc n) k (suc y) x h = no_row_taken n k y x h

nowhere_taken : (n k : ℕ) (x y : ℤ) → cell_at (replicate n (replicate k false)) x y ≡ some true → ⊥
unfolding cell_at
nowhere_taken n k (pos x) (pos y) h = no_row_taken n k y x h
nowhere_taken n k (pos x) (negsuc y) h = absurd (cc)
nowhere_taken n k (negsuc x) y h = absurd (cc)

-- Nobody is in a world that is made, and every position of its map is free.
pub empty_world-IsSettled : (env : Env) (m : WorldMap) → IsSettled (empty_world env m)
unfolding empty_world body lookup
empty_world-IsSettled env m = record {
  placed = record {
    covers = λ p ok. let (f, e) = free p ok in (false, f);
    marked = λ k p e. absurd (nobody k p e);
    ground = λ k p e. absurd (nobody k p e);
    alone = λ k l p e f. absurd (nobody k p e);
    owned = λ p e. absurd (nowhere_taken m.height m.width p.x p.y e);
  };
  fresh = λ i h. refl;
  bounded = omega arith;
}
  where
    nobody : (k : Who) (p : Position) → stands (empty_world env m) k ≡ some p → ⊥
    nobody (who_player i) p e = absurd (cc)
    nobody (who_npc i) p e = absurd (cc)

    free :
        (p : Position)
        → is_valid_position m p ≡ true
        → (grid_at (replicate m.height (replicate m.width false)) p ≡ some false) × Unit {0}
    free p ok =
        let (x, y, e, lx, ly) = valid-Spot m p ok in
        (
          subst (λ q. grid_at (replicate m.height (replicate m.width false)) q ≡ some false) (sym e)
              (free_at_first m x y lx ly),
          tt,
        )
