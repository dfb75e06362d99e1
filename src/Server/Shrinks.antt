-- ===== src/Server/Shrinks.antt =====
-- server/receiver_thread.cpp: no handler puts bytes back into the stream, and the loop ends.
pub mod Loop
use argentum_online_taller_g.Prelude.{
  ℕ, ◌≤◌, ◌≡◌, ap, sym, Bool, true, false, Option, none, some, Bytes, length, ◌==◌, if◌then◌else◌,
  ◌⊎◌, Option-cases, inl, inr, arith,
}
use argentum_online_taller_g.Protocol.Wire.{Recv}
use argentum_online_taller_g.Protocol.Updates.{GameUpdate}
use argentum_online_taller_g.Protocol.Takes.{Takes}
use argentum_online_taller_g.Server.State.{Server}
use argentum_online_taller_g.Server.Exec.{
  Exec, ◌>>=◌, ◌>>◌, pure, catch, recv, call, modify, conn, enqueue_update, try_enqueue_update,
}

-- The stream is no longer than before, whether the code throws or not.
pub record Shrinks {W Save A : Type 0} (m : Exec W Save A) : Type 0 where
  pub at : (s : Server W Save) (b : Bytes) → length (m s b).2 ≤ length b

module _ {W Save A : Type 0} where
  Shrinks-pure : (a : A) → Shrinks {W = W} {Save = Save} (pure a)
  unfolding pure
  Shrinks-pure a = record { at = λ s b. omega arith }

  Shrinks-recv : (r : Recv A) → Takes r → Shrinks {W = W} {Save = Save} (recv r)
  unfolding recv
  Shrinks-recv r x = record {
    at = λ s b. elim (Option-cases (r b)) [
      | inl n ↦ rw (n, recv) (omega arith)
      | inr ((a, t), e) ↦ rw (e, recv) (x.at b t a e)
    ];
  }

  Shrinks-call : (f : Server W Save → A × Server W Save) → Shrinks (call f)
  unfolding call
  Shrinks-call f = record { at = λ s b. omega arith }

  Shrinks-if :
      (q : Bool) (m n : Exec W Save A) → Shrinks m → Shrinks n → Shrinks (if q then m else n)
  Shrinks-if true m n x y = x
  Shrinks-if false m n x y = y

  Shrinks-catch : (m h : Exec W Save A) → Shrinks m → Shrinks h → Shrinks (catch m h)
  unfolding catch
  Shrinks-catch m h x y = record {
    at = λ s b.
        let first : length (m s b).2 ≤ length b = x.at s b in
        let second : length (h (m s b).1 (m s b).2).2 ≤ length (m s b).2 =
          y.at (m s b).1 (m s b).2 in
        elim (Option-cases (m s b).0) [
          | inl n ↦ rw (n, catch) (omega (arith, first, second))
          | inr (a, e) ↦ rw (e, catch) first
        ];
  }

module _ {W Save A B : Type 0} where
  Shrinks-bind :
      (m : Exec W Save A) (k : A → Exec W Save B)
      → Shrinks m
      → ((a : A) → Shrinks (k a))
      → Shrinks (m >>= k)
  unfolding ◌>>=◌
  Shrinks-bind m k x y = record {
    at = λ s b.
        let first : length (m s b).2 ≤ length b = x.at s b in
        elim (Option-cases (m s b).0) [
          | inl n ↦ rw (n, ◌>>=◌) first
          | inr (a, e) ↦
              let second : length (k a (m s b).1 (m s b).2).2 ≤ length (m s b).2 =
                (y a).at (m s b).1 (m s b).2 in
              rw (e, ◌>>=◌) (omega (arith, first, second))
        ];
  }

  Shrinks-next : (m : Exec W Save A) (n : Exec W Save B) → Shrinks m → Shrinks n → Shrinks (m >> n)
  unfolding ◌>>◌
  Shrinks-next m n x y = Shrinks-bind m (λ _. n) x (λ _. y)

module _ {W Save : Type 0} where
  Shrinks-conn : (c : ℕ) → Shrinks {W = W} {Save = Save} (conn c)
  unfolding conn
  Shrinks-conn c = record { at = λ s b. omega arith }

  Shrinks-modify : (f : Server W Save → Server W Save) → Shrinks (modify f)
  unfolding modify
  Shrinks-modify f = record { at = λ s b. omega arith }

  if_same :
      {A : Type 0} (q : Bool) (o p : Option A) (s t : Server W Save) (b : Bytes)
      → length (if◌then◌else◌ {A = Option A × Server W Save × Bytes} q (o, s, b) (p, t, b)).2
        ≤ length b
  if_same true o p s t b = omega arith
  if_same false o p s t b = omega arith

  Shrinks-enqueue_update :
      (c : ℕ) (u : GameUpdate) → Shrinks {W = W} {Save = Save} (enqueue_update c u)
  unfolding enqueue_update
  Shrinks-enqueue_update c u = record { at = λ s b. if_same _ _ _ _ _ b }

  Shrinks-try_enqueue_update :
      (c : ℕ) (u : GameUpdate) → Shrinks {W = W} {Save = Save} (try_enqueue_update c u)
  unfolding try_enqueue_update
  Shrinks-try_enqueue_update c u = record { at = λ s b. if_same _ _ _ _ _ b }

ruleset shrinks_rules = (
  Shrinks-pure, Shrinks-recv, Shrinks-call, Shrinks-if, Shrinks-catch, Shrinks-bind, Shrinks-next,
  Shrinks-conn, Shrinks-modify, Shrinks-enqueue_update, Shrinks-try_enqueue_update,
)
