-- ===== src/Server/Rounds/Handlers.antt =====
-- server/receiver_thread.cpp: how the actions of a handler compose.
use argentum_online_taller_g.Prelude.{ℕ, ◌≡◌, ◌≢◌, sym, ◌∙◌, Bytes, Option-cases, inl, inr}
use argentum_online_taller_g.Server.State.{ConnState, Server}
use argentum_online_taller_g.Server.Exec.{Exec, ◌>>=◌, catch}
use argentum_online_taller_g.Server.Seats.{IsSeated, SameSeats, SameSeats-IsSeated}
use argentum_online_taller_g.Server.Quiet.{IsQuiet}

-- What holds when a handler is called.
pub record Ready {W Save : Type 0} (c : ℕ) (st : ConnState) (s : Server W Save) : Type 0 where
  pub seated : IsSeated s
  pub state : (s.conns c).state ≡ st
  pub counter : s.next_match_id ≢ 0

-- Called in this state of the connection, it leaves the places in order.
pub record Keeps {W Save A : Type 0} (c : ℕ) (st : ConnState) (m : Exec W Save A) : Type 0 where
  pub at : (s : Server W Save) (b : Bytes) → Ready c st s → IsSeated (m s b).1

module _ {W Save : Type 0} where
  pub SameSeats-Ready :
      (c : ℕ) (st : ConnState) (s t : Server W Save) → SameSeats s t → Ready c st s → Ready c st t
  SameSeats-Ready c st s t q r = record {
    seated = SameSeats-IsSeated s t q r.seated;
    state = q.state c ∙ r.state;
    counter = λ e. r.counter (sym q.next ∙ e);
  }

module _ {W Save A : Type 0} {c : ℕ} {st : ConnState} where
  pub Keeps-quiet : (m : Exec W Save A) → IsQuiet m → Keeps c st m
  Keeps-quiet m q = record { at = λ s b r. SameSeats-IsSeated s (m s b).1 (q.at s b) r.seated }

  pub Keeps-catch : (m h : Exec W Save A) → Keeps c st m → IsQuiet h → Keeps c st (catch m h)
  unfolding catch
  Keeps-catch m h k q = record {
    at = λ s b r. elim (Option-cases (m s b).0) [
      | inl n ↦
          rw (n, catch)
            (SameSeats-IsSeated (m s b).1 (h (m s b).1 (m s b).2).1 (q.at (m s b).1 (m s b).2)
              (k.at s b r))
      | inr (a, e) ↦ rw (e, catch) (k.at s b r)
    ];
  }

module _ {W Save A B : Type 0} {c : ℕ} {st : ConnState} where
  pub Keeps-after :
      (m : Exec W Save A) (k : A → Exec W Save B)
      → IsQuiet m
      → ((a : A) → Keeps c st (k a))
      → Keeps c st (m >>= k)
  unfolding ◌>>=◌
  Keeps-after m k q h = record {
    at = λ s b r. elim (Option-cases (m s b).0) [
      | inl n ↦ rw (n, ◌>>=◌) (SameSeats-IsSeated s (m s b).1 (q.at s b) r.seated)
      | inr (a, e) ↦
          rw (e, ◌>>=◌)
            ((h a).at (m s b).1 (m s b).2 (SameSeats-Ready c st s (m s b).1 (q.at s b) r))
    ];
  }

  pub Keeps-then :
      (m : Exec W Save A) (k : A → Exec W Save B)
      → Keeps c st m
      → ((a : A) → IsQuiet (k a))
      → Keeps c st (m >>= k)
  unfolding ◌>>=◌
  Keeps-then m k h q = record {
    at = λ s b r. elim (Option-cases (m s b).0) [
      | inl n ↦ rw (n, ◌>>=◌) (h.at s b r)
      | inr (a, e) ↦
          rw (e, ◌>>=◌)
            (SameSeats-IsSeated (m s b).1 (k a (m s b).1 (m s b).2).1 ((q a).at (m s b).1 (m s b).2)
              (h.at s b r))
    ];
  }
