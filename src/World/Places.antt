-- ===== src/World/Places.antt =====
-- server/world/world.cpp: who walks, is teleported, joins, leaves or is spawned keeps `occupied`
-- right.
use native.Mathlib.Decide.{ℕ_discrete}
use mathlib.Core.Option
use mathlib.Core.Option.{some-injective}
use argentum_online_taller_g.Prelude.{
  ℕ, ◌≡◌, ◌≢◌, refl, sym, ap, ◌∙◌, true, false, ◌==◌, Option, none, some, inl, inr, Bool-cases,
  subst, if◌then◌else◌, arith, lookup, insert, lookup-insert, Dict,
}
use argentum_online_taller_g.Config.{Position}
use argentum_online_taller_g.Player.Character.{Character, Player}
use argentum_online_taller_g.World.Map.{is_valid_position, is_position_blocked, grid_at}
use argentum_online_taller_g.World.State.{
  World, Who, who_player, who_npc, Npc, body, adjust, alter_body,
}
use argentum_online_taller_g.World.Board.{IsBoard}

pub Who-discrete : Discrete Who
Who-discrete = hlevel ℕ_discrete

-- Where who a pointer points to stands.
abbrev pub place_of : Option Character → Option Position
place_of none = none
place_of (some c) = some c.position

abbrev pub stands : World → Who → Option Position
stands w k = place_of (body k w)

-- `occupied` is true exactly where somebody stands, no two share a position, and nobody stands on
-- blocked ground or off the map.
abbrev pub IsPlaced : World → Type 0
IsPlaced w = IsBoard w.map w.occupied (stands w)

-- Nobody has moved.
pub record IsStill (w v : World) : Type 0 where
  pub map : v.map ≡ w.map
  pub occupied : v.occupied ≡ w.occupied
  pub stands : (k : Who) → stands v k ≡ stands w k

pub IsStill-refl : (w : World) → IsStill w w
IsStill-refl w = record { map = refl; occupied = refl; stands = λ k. refl }

pub IsStill-trans : (u v w : World) → IsStill u v → IsStill v w → IsStill u w
IsStill-trans u v w a b = record {
  map = b.map ∙ a.map;
  occupied = b.occupied ∙ a.occupied;
  stands = λ k. b.stands k ∙ a.stands k;
}

pub IsStill-IsPlaced : (w v : World) → IsStill w v → IsPlaced w → IsPlaced v
IsStill-IsPlaced w v s h = record {
  covers = λ p ok.
      let (b, e) = h.covers p (subst (λ m. is_valid_position m p ≡ true) s.map ok) in
      (b, ap (λ o. grid_at o p) s.occupied ∙ e);
  marked = λ k p e. ap (λ o. grid_at o p) s.occupied ∙ h.marked k p (sym (s.stands k) ∙ e);
  ground = λ k p e. ap (λ m. is_position_blocked m p) s.map ∙ h.ground k p (sym (s.stands k) ∙ e);
  alone = λ k l p e f. h.alone k l p (sym (s.stands k) ∙ e) (sym (s.stands l) ∙ f);
  owned = λ p e.
      let (k, at) = h.owned p (sym (ap (λ o. grid_at o p) s.occupied) ∙ e) in (k, s.stands k ∙ at);
}

-- A method changes the object that it is called on alone.
pub lookup-adjust {ℓ} :
    {V : Type ℓ} (j k : ℕ) (f : V → V) (m : Dict V)
    → lookup j (adjust k f m) ≡ (if k == j then Option.map f (lookup j m) else lookup j m)
unfolding adjust
lookup-adjust {V} j k f m = go (lookup k m) refl
  where
    go :
        (o : Option V)
        → lookup k m ≡ o
        → lookup j (elim o [ none ↦ m | some v ↦ insert k (f v) m ])
          ≡ (if k == j then Option.map f (lookup j m) else lookup j m)
    go none e = elim (Bool-cases (k == j)) [
      | inl t ↦
          let same : k ≡ j = ground (arith, t) in
          let gone : lookup j m ≡ none = rw (← same) e in rw (t, gone)
      | inr d ↦ rw d
    ]
    go (some v) e = elim (Bool-cases (k == j)) [
      | inl t ↦
          let same : k ≡ j = ground (arith, t) in
          let here : lookup j m ≡ some v = rw (← same) e in rw (lookup-insert j k (f v) m, t, here)
      | inr d ↦ rw (lookup-insert j k (f v) m, d)
    ]

pub lookup-adjust-none {ℓ} :
    {V : Type ℓ} (j i : ℕ) (f : V → V) (m : Dict V)
    → lookup j m ≡ none
    → lookup j (adjust i f m) ≡ none
lookup-adjust-none j i f m h = elim (Bool-cases (i == j)) [
  | inl t ↦ lookup-adjust j i f m ∙ rw (t, h) refl
  | inr d ↦ lookup-adjust j i f m ∙ rw (d, h) refl
]

pub ne-test : (i j : ℕ) → i ≢ j → (i == j) ≡ false
ne-test i j ne = ground (arith, ne)

pub eq-test : (i : ℕ) → (i == i) ≡ true
eq-test i = ground arith

-- A field that a method leaves alone.
map-kept :
    {V : Type 0} (g : V → Character) (f : V → V) (h : Character → Character) (o : Option V)
    → ((v : V) → g (f v) ≡ h (g v))
    → Option.map g (Option.map f o) ≡ Option.map h (Option.map g o)
map-kept g f h none e = refl
map-kept g f h (some v) e = ap some (e v)

-- What a method of a character does to it and to the others.
pub body-alter_body_self :
    (k : Who) (f : Character → Character) (w : World)
    → body k (alter_body k f w) ≡ Option.map f (body k w)
unfolding body alter_body
body-alter_body_self (who_player i) f w =
    let g = λ (p : Player). record p { character = f p.character } in
    let here : lookup i (adjust i g w.players) ≡ Option.map g (lookup i w.players) =
      lookup-adjust i i g w.players ∙ rw (eq-test i) refl in
    ap (Option.map (λ p. p.character)) here
    ∙ map-kept (λ p. p.character) g f (lookup i w.players) (λ p. refl)
body-alter_body_self (who_npc i) f w =
    let g = λ (n : Npc). record n { character = f n.character } in
    let here : lookup i (adjust i g w.npcs) ≡ Option.map g (lookup i w.npcs) =
      lookup-adjust i i g w.npcs ∙ rw (eq-test i) refl in
    ap (Option.map (λ n. n.character)) here
    ∙ map-kept (λ n. n.character) g f (lookup i w.npcs) (λ n. refl)

pub body-alter_body_other :
    (j k : Who) (f : Character → Character) (w : World)
    → j ≢ k
    → body k (alter_body j f w) ≡ body k w
unfolding body alter_body
body-alter_body_other (who_player i) (who_player j) f w ne =
    let g = λ (p : Player). record p { character = f p.character } in
    ap (Option.map (λ p. p.character))
      (lookup-adjust j i g w.players ∙ rw (ne-test i j (λ e. ne (ap who_player e))) refl)
body-alter_body_other (who_player i) (who_npc j) f w ne = refl
body-alter_body_other (who_npc i) (who_player j) f w ne = refl
body-alter_body_other (who_npc i) (who_npc j) f w ne =
    let g = λ (n : Npc). record n { character = f n.character } in
    ap (Option.map (λ n. n.character))
      (lookup-adjust j i g w.npcs ∙ rw (ne-test i j (λ e. ne (ap who_npc e))) refl)

pub alter_body-rest :
    (k : Who) (f : Character → Character) (w : World)
    → ((alter_body k f w).map ≡ w.map) × ((alter_body k f w).occupied ≡ w.occupied)
unfolding alter_body
alter_body-rest (who_player i) f w = (refl, refl)
alter_body-rest (who_npc i) f w = (refl, refl)
