-- ===== src/Server/Moves.antt =====
-- server/server.cpp: a player enters a match, or leaves it.
use argentum_online_taller_g.Prelude.{
  ℕ, suc, ◌≡◌, refl, sym, ◌∙◌, ap, subst, true, false, ◌||◌, some, List, [], ◌∷◌, ◌++◌, length,
  ◌==◌, ==_iff, Bool-cases, inl, inr, if◌then◌else◌, member, remove_member, member-remove_member,
  arith,
}
use mathlib.Core.Option.{some-injective}
use argentum_online_taller_g.Server.State.{Server}
use argentum_online_taller_g.Server.Seats.{Room, Unique, IsRoom, is_inside, holds, room, IsSeated}

pub member-append : (d c : ℕ) (cs : List ℕ) → member d (cs ++ c ∷ []) ≡ (member d cs || c == d)
unfolding member
member-append d c [] = ground arith
member-append d c (e ∷ cs) = ground (arith, member-append d c cs)

pub append-Unique : (c : ℕ) (cs : List ℕ) → member c cs ≡ false → Unique cs → Unique (cs ++ c ∷ [])
unfolding member
append-Unique c [] h u = (refl, tt)
append-Unique c (e ∷ cs) h u =
    (rw (member-append e c cs) (ground (arith, h, u.0)), append-Unique c cs (ground (arith, h)) u.1)

remove_absent : (c : ℕ) (cs : List ℕ) → member c cs ≡ false → remove_member c cs ≡ cs
unfolding member remove_member
remove_absent c [] h = refl
remove_absent c (e ∷ cs) h = rw (remove_absent c cs (ground (arith, h))) (ground (arith, h))

pub remove-Unique : (c : ℕ) (cs : List ℕ) → Unique cs → Unique (remove_member c cs)
unfolding remove_member
remove-Unique c [] u = tt
remove-Unique c (e ∷ cs) u = elim (Bool-cases (e == c)) [
  | inl t ↦ rw t (remove-Unique c cs u.1)
  | inr f ↦ rw f (member-remove_member e c cs ∙ rw u.0 (ground arith), remove-Unique c cs u.1)
]

pub length-remove_member :
    (c : ℕ) (cs : List ℕ)
    → member c cs ≡ true
    → Unique cs
    → suc (length (remove_member c cs)) ≡ length cs
unfolding member remove_member
length-remove_member c [] h u = ground (arith, h)
length-remove_member c (e ∷ cs) h u = elim (Bool-cases (e == c)) [
  | inl t ↦
      let absent : member c cs ≡ false = subst (λ x. member x cs ≡ false) ((==_iff e c).0 t) u.0 in
      rw (t, remove_absent c cs absent) refl
  | inr f ↦ rw f (ap suc (length-remove_member c cs (ground (arith, h, f)) u.1))
]

module _ {W Save : Type 0} (s t : Server W Save) (c match_id : ℕ) (r r' : Room) where
  -- One connection and one match change, and agree again.
  pub move-IsSeated :
      room match_id s ≡ some r
      → ((i : ℕ) → room i t ≡ (if match_id == i then some r' else room i s))
      → ((d i : ℕ) → (d == c) ≡ false → is_inside i (t.conns d) ≡ is_inside i (s.conns d))
      → ((i : ℕ)
          → is_inside i (t.conns c)
            ≡ (if match_id == i then member c r'.players else holds c (room i s)))
      → ((d : ℕ) → (d == c) ≡ false → member d r'.players ≡ member d r.players)
      → IsRoom r'
      → IsSeated s
      → IsSeated t
  unfolding holds
  move-IsSeated was rooms others mine kept good h = record {
    agrees = λ d i. elim (Bool-cases (d == c)) [
      | inl e ↦
          subst (λ x. is_inside i (t.conns x) ≡ holds x (room i t)) (sym ((==_iff d c).0 e))
            (mine i ∙ sym (ap (holds c) (rooms i) ∙ holds_if c i))
      | inr n ↦ others d i n ∙ h.agrees d i ∙ sym (ap (holds d) (rooms i) ∙ holds_kept d i n)
    ];
    sound = λ i q e. elim (Bool-cases (match_id == i)) [
      | inl x ↦ subst IsRoom (some-injective r' q (sym (rooms i ∙ rw x refl) ∙ e)) good
      | inr n ↦ h.sound i q (sym (rooms i ∙ rw n refl) ∙ e)
    ];
    no_zero = rooms 0 ∙ rw not_zero h.no_zero;
  }
    where
      holds_if :
          (d i : ℕ)
          → holds d (if match_id == i then some r' else room i s)
            ≡ (if match_id == i then member d r'.players else holds d (room i s))
      holds_if d i = elim (Bool-cases (match_id == i)) [ inl x ↦ rw x refl | inr n ↦ rw n refl ]

      holds_kept :
          (d i : ℕ)
          → (d == c) ≡ false
          → holds d (if match_id == i then some r' else room i s) ≡ holds d (room i s)
      holds_kept d i n = elim (Bool-cases (match_id == i)) [
        | inl x ↦ rw (x, sym ((==_iff match_id i).0 x), was) (kept d n)
        | inr m ↦ rw m refl
      ]

      not_zero : (match_id == 0) ≡ false
      not_zero = elim (Bool-cases (match_id == 0)) [
        | inl x ↦ ground (arith, sym was ∙ ap (λ j. room j s) ((==_iff match_id 0).0 x) ∙ h.no_zero)
        | inr n ↦ n
      ]
