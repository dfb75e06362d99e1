-- ===== src/World/Board.antt =====
-- server/world/world.cpp: when `occupied` is right, and what leaving, entering and moving do to it.
-- Here the pieces are any set, and `stand` says where each of them stands.
use argentum_online_taller_g.Prelude.{
  ◌≡◌, ◌≢◌, refl, sym, ◌∙◌, Bool, true, false, Option, none, some, List, inl, inr, Bool-cases,
  subst,
}
use mathlib.Core.Option.{some-injective}
use argentum_online_taller_g.Config.{Position}
use argentum_online_taller_g.World.Map.{
  WorldMap, same_position, same_position_iff, is_valid_position, is_position_blocked, grid_at,
  grid_set, grid_at-grid_set_self, grid_at-grid_set_ne,
}

module _ {Piece : Type 0} where
  -- `occupied` covers the map and is true exactly where a piece stands; no two pieces share a
  -- position, and none stands on a blocked one.
  pub record IsBoard (m : WorldMap) (occupied : List (List Bool)) (stand : Piece → Option Position)
      : Type 0 where
    pub covers :
        (p : Position) → is_valid_position m p ≡ true → (b : Bool) × (grid_at occupied p ≡ some b)
    pub marked : (k : Piece) (p : Position) → stand k ≡ some p → grid_at occupied p ≡ some true
    pub ground : (k : Piece) (p : Position) → stand k ≡ some p → is_position_blocked m p ≡ false
    pub alone : (k l : Piece) (p : Position) → stand k ≡ some p → stand l ≡ some p → k ≡ l
    pub owned : (p : Position) → grid_at occupied p ≡ some true → (k : Piece) × (stand k ≡ some p)

position_dec : (p q : Position) → Dec (p ≡ q)
position_dec p q = elim (Bool-cases (same_position p q)) [
  | inl t ↦ yes ((same_position_iff p q).0 t)
  | inr f ↦ no (λ e. let t = (same_position_iff p q).1 e in cc (f, t))
]

set_covers :
    (m : WorldMap) (occ : List (List Bool)) (q : Position) (v : Bool)
    → ((p : Position) → is_valid_position m p ≡ true → (b : Bool) × (grid_at occ p ≡ some b))
    → (p : Position) → is_valid_position m p ≡ true
    → (b : Bool) × (grid_at (grid_set occ q v) p ≡ some b)
set_covers m occ q v h p ok =
    let (b, e) = h p ok in
    elim (position_dec q p) [
      | yes s ↦ (
        v,
        subst (λ r. grid_at (grid_set occ q v) r ≡ some v) s
            (grid_at-grid_set_self occ q b v (subst (λ r. grid_at occ r ≡ some b) (sym s) e)),
      )
      | no n ↦ (b, grid_at-grid_set_ne occ q p v n ∙ e)
    ]

module _ {Piece : Type 0} (dec : Discrete Piece) (m : WorldMap) (occ : List (List Bool))
    (stand stand' : Piece → Option Position) (board : IsBoard m occ stand) (k : Piece)
    (p : Position) (others : (l : Piece) → k ≢ l → stand' l ≡ stand l) where
  -- A piece that leaves frees its position.
  pub leave-IsBoard : stand k ≡ some p → stand' k ≡ none → IsBoard m (grid_set occ p false) stand'
  leave-IsBoard here gone = record {
    covers = set_covers m occ p false board.covers;
    marked = λ l q h.
        let (ne, old) = before l q h in
        let away : p ≢ q = λ e. ne (board.alone k l q (subst (λ r. stand k ≡ some r) e here) old) in
        grid_at-grid_set_ne occ p q false away ∙ board.marked l q old;
    ground = λ l q h. board.ground l q (before l q h).1;
    alone = λ l n q h i. board.alone l n q (before l q h).1 (before n q i).1;
    owned = λ q h. elim (position_dec p q) [
      | yes e ↦
          let freed : grid_at (grid_set occ p false) q ≡ some false =
            subst (λ r. grid_at (grid_set occ p false) r ≡ some false) e
              (grid_at-grid_set_self occ p true false (board.marked k p here)) in
          absurd (cc (freed, h))
      | no n ↦
          let (l, at) = board.owned q (sym (grid_at-grid_set_ne occ p q false n) ∙ h) in
          let ne : k ≢ l =
            λ e. n (some-injective _ _ (sym here ∙ subst (λ r. stand r ≡ some q) (sym e) at)) in
          (l, others l ne ∙ at)
    ];
  }
    where
      before : (l : Piece) (q : Position) → stand' l ≡ some q → (k ≢ l) × (stand l ≡ some q)
      before l q h =
          let ne : k ≢ l = λ e. let now = subst (λ r. stand' r ≡ none) e gone in cc (now, h) in
          (ne, sym (others l ne) ∙ h)

  -- A piece that enters takes a free position of the ground.
  pub enter-IsBoard :
      stand k ≡ none
      → stand' k ≡ some p
      → is_position_blocked m p ≡ false
      → grid_at occ p ≡ some false
      → IsBoard m (grid_set occ p true) stand'
  enter-IsBoard away here open_ground free = record {
    covers = set_covers m occ p true board.covers;
    marked = λ l q h. elim (position_dec p q) [
      | yes e ↦ subst (λ r. grid_at (grid_set occ p true) r ≡ some true) e taken
      | no n ↦ grid_at-grid_set_ne occ p q true n ∙ board.marked l q (apart l q h n)
    ];
    ground = λ l q h. elim (position_dec p q) [
      | yes e ↦ subst (λ r. is_position_blocked m r ≡ false) e open_ground
      | no n ↦ board.ground l q (apart l q h n)
    ];
    alone = λ l n q h i. elim (position_dec p q) [
      | yes e ↦
          sym (only l (subst (λ r. stand' l ≡ some r) (sym e) h))
          ∙ only n (subst (λ r. stand' n ≡ some r) (sym e) i)
      | no d ↦ board.alone l n q (apart l q h d) (apart n q i d)
    ];
    owned = λ q h. elim (position_dec p q) [
      | yes e ↦ (k, subst (λ r. stand' k ≡ some r) e here)
      | no n ↦
          let (l, at) = board.owned q (sym (grid_at-grid_set_ne occ p q true n) ∙ h) in
          let ne : k ≢ l = λ e. let gone = subst (λ r. stand r ≡ none) e away in cc (gone, at) in
          (l, others l ne ∙ at)
    ];
  }
    where
      taken : grid_at (grid_set occ p true) p ≡ some true
      taken = grid_at-grid_set_self occ p false true free

      apart : (l : Piece) (q : Position) → stand' l ≡ some q → p ≢ q → stand l ≡ some q
      apart l q h n =
          let ne : k ≢ l =
            λ e. n (some-injective _ _ (sym here ∙ subst (λ r. stand' r ≡ some q) (sym e) h)) in
          sym (others l ne) ∙ h

      only : (l : Piece) → stand' l ≡ some p → k ≡ l
      only l h = elim (dec k l) [
        | yes e ↦ e
        | no n ↦ let full = board.marked l p (sym (others l n) ∙ h) in absurd (cc (full, free))
      ]

module _ {Piece : Type 0} (dec : Discrete Piece) where
  -- Everybody but one piece.
  without : Piece → (Piece → Option Position) → Piece → Option Position
  without k stand l = elim (dec k l) [ yes _ ↦ none | no _ ↦ stand l ]

  without_self : (k : Piece) (stand : Piece → Option Position) → without k stand k ≡ none
  unfolding without
  without_self k stand = go (dec k k)
    where
      go :
          (d : Dec (k ≡ k))
          → ◌≡◌ {A = Option Position} (elim d [ yes _ ↦ none | no _ ↦ stand k ]) none
      go (yes e) = refl
      go (no n) = absurd (n refl)

  without_other :
      (k l : Piece) (stand : Piece → Option Position) → k ≢ l → without k stand l ≡ stand l
  unfolding without
  without_other k l stand ne = go (dec k l)
    where
      go : (d : Dec (k ≡ l)) → (elim d [ yes _ ↦ none | no _ ↦ stand l ]) ≡ stand l
      go (yes e) = absurd (ne e)
      go (no n) = refl

  -- A piece that moves to a free position of the ground.
  pub move-IsBoard :
      (m : WorldMap) (occ : List (List Bool)) (stand stand' : Piece → Option Position)
      → IsBoard m occ stand
      → (k : Piece) (p q : Position) → ((l : Piece) → k ≢ l → stand' l ≡ stand l)
      → stand k ≡ some p
      → stand' k ≡ some q
      → is_position_blocked m q ≡ false
      → grid_at occ q ≡ some false
      → IsBoard m (grid_set (grid_set occ p false) q true) stand'
  move-IsBoard m occ stand stand' board k p q others here there open_ground free =
      enter-IsBoard dec m (grid_set occ p false) (without k stand) stand' left k q
        (λ l ne. others l ne ∙ sym (without_other k l stand ne)) (without_self k stand) there
        open_ground (grid_at-grid_set_ne occ p q false apart ∙ free)
    where
      left : IsBoard m (grid_set occ p false) (without k stand)
      left =
          leave-IsBoard dec m occ stand (without k stand) board k p
            (λ l ne. without_other k l stand ne) here (without_self k stand)

      apart : p ≢ q
      apart e =
          let full = subst (λ r. grid_at occ r ≡ some true) e (board.marked k p here) in
          cc (full, free)
