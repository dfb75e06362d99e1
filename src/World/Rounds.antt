-- ===== src/World/Rounds.antt =====
-- server/world/world.cpp: what each character does in a tick keeps `occupied` right.
use mathlib.Core.Option
use mathlib.Core.Option.{some-injective}
use argentum_online_taller_g.Prelude.{
  ℕ, ◌≡◌, ◌≢◌, refl, ap, ◌∙◌, false, Option, none, some, List, [], ◌∷◌, ◌++◌, inl, inr, Bool-cases,
  Option-cases, lookup, erase, lookup-erase, ◌==◌,
}
use argentum_online_taller_g.Float.{Float}
use argentum_online_taller_g.Protocol.Updates.{AttackResult}
use argentum_online_taller_g.World.State.{
  World, Game, Who, who_player, who_npc, Npc, body, alter_npc, occupy,
}
use argentum_online_taller_g.World.Board.{leave-IsBoard}
use argentum_online_taller_g.World.Places.{Who-discrete, place_of, stands, eq-test, ne-test}
use argentum_online_taller_g.World.Update.{stop_npc, update_npc, npcs_loop}
use argentum_online_taller_g.World.Quiet.{Quiet, alter_npc-Quiet}
use argentum_online_taller_g.World.Settled.{
  IsSettled, Quiet-IsSettled, Settles, stuck, settles, Settles-if, update_kind-Settles,
}

remove_dead-IsSettled :
    (key : ℕ) (n : Npc) (w : World)
    → lookup key w.npcs ≡ some n
    → IsSettled w
    → IsSettled
        (record w { occupied = (occupy n.position false w).occupied; npcs = erase key w.npcs })
unfolding body
remove_dead-IsSettled key n w e s = record {
  placed =
      leave-IsBoard Who-discrete w.map w.occupied (stands w) (stands v) s.placed (who_npc key)
        n.position others (ap (λ o. place_of (Option.map (λ (q : Npc). q.character) o)) e)
        (ap (λ o. place_of (Option.map (λ (q : Npc). q.character) o)) erased);
  fresh = λ i h. elim (Bool-cases (key == i)) [
    | inl t ↦ lookup-erase i key w.npcs ∙ rw t refl
    | inr f ↦ lookup-erase i key w.npcs ∙ rw f (s.fresh i h)
  ];
  bounded = s.bounded;
}
  where
    erased : lookup key (erase key w.npcs) ≡ none
    erased = lookup-erase key key w.npcs ∙ rw (eq-test key) refl

    v : World
    v = record w { occupied = (occupy n.position false w).occupied; npcs = erase key w.npcs }

    others : (l : Who) → who_npc key ≢ l → stands v l ≡ stands w l
    others (who_player j) ne = refl
    others (who_npc j) ne =
        ap (λ o. place_of (Option.map (λ (q : Npc). q.character) o))
          (lookup-erase j key w.npcs ∙ rw (ne-test key j (λ d. ne (ap who_npc d))) refl)

update_npc-Settles :
    (game : Game) (seconds : Float) (key : ℕ) (w : World)
    → IsSettled w
    → Settles (update_npc game seconds key w)
unfolding update_npc
update_npc-Settles game seconds key w s = elim (Option-cases (lookup key w.npcs)) [
  | inl n ↦ rw (n, update_npc) (settles s)
  | inr (n, e) ↦
      let v = alter_npc key stop_npc w in
      rw (e, update_npc)
        (Settles-if n.dead (settles (remove_dead-IsSettled key n w e s)) (
          update_kind-Settles game seconds key (stop_npc n) n.kind v
            (Quiet-IsSettled w v (stopped key w) s)))
]
  where
    stopped : (key : ℕ) (w : World) → Quiet w (alter_npc key stop_npc w)
    stopped key w = unfold stop_npc in alter_npc-Quiet key stop_npc w (λ m. refl)

pub npcs_loop-Settles :
    (game : Game) (seconds : Float) (ids : List ℕ) (w : World)
    → IsSettled w
    → Settles (npcs_loop game seconds ids w)
unfolding npcs_loop
npcs_loop-Settles game seconds [] w s = settles s
npcs_loop-Settles game seconds (key ∷ ids) w s =
    first (update_npc game seconds key w) (update_npc-Settles game seconds key w s)
      (λ v t. npcs_loop-Settles game seconds ids v t)
  where
    later :
        (rs : List AttackResult) (m : Option (List AttackResult × World))
        → Settles m
        → Settles (elim m as (λ _. Option (List AttackResult × World)) [
          | none ↦ none
          | some (more, u) ↦ some (rs ++ more, u)
        ])
    later rs none s = stuck
    later rs (some (more, u)) (settles t) = settles t

    first :
        (m : Option (List AttackResult × World))
        → Settles m
        → ((v : World) → IsSettled v → Settles (npcs_loop game seconds ids v))
        → Settles (elim m as (λ _. Option (List AttackResult × World)) [
          | none ↦ none
          | some (rs, v) ↦ elim (npcs_loop game seconds ids v) [
            | none ↦ none
            | some (more, u) ↦ some (rs ++ more, u)
          ]
        ])
    first none s k = stuck
    first (some (rs, v)) (settles t) k = later rs (npcs_loop game seconds ids v) (k v t)
