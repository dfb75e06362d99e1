-- ===== src/Server/Quiet.antt =====
-- server/server.cpp and server/receiver_thread.cpp: code that changes nobody's place.
use argentum_online_taller_g.Prelude.{
  ℕ, ◌≡◌, refl, sym, ap, Bool, true, false, Option, some, List, [], ◌∷◌, Bytes, ◌==◌, ==_iff,
  Bool-cases, Option-cases, inl, inr, if◌then◌else◌, lookup, insert, lookup-insert,
}
use argentum_online_taller_g.Protocol.Wire.{Recv}
use argentum_online_taller_g.Protocol.Updates.{GameUpdate}
use argentum_online_taller_g.Server.State.{PlayerConnection, Worlds, Match, MatchCommand, Server}
use argentum_online_taller_g.Server.Exec.{
  Exec, ◌>>=◌, pure, catch, recv, call, modify, conn, set_conn, pushed, try_pushed, enqueue_update,
  try_enqueue_update,
}
use argentum_online_taller_g.Server.Matches
use argentum_online_taller_g.Server.Lobby
use argentum_online_taller_g.Server.Seats.{
  room, room_of, maybe_room, SameSeats, SameSeats-refl, SameSeats-trans,
}

-- Whatever it reads and whether it throws or not, everybody stays.
pub record IsQuiet {W Save A : Type 0} (m : Exec W Save A) : Type 0 where
  pub at : (s : Server W Save) (b : Bytes) → SameSeats s (m s b).1

module _ {W Save : Type 0} where
  -- A connection that keeps its state and its match.
  pub set_conn_lem :
      (c : ℕ) (k : PlayerConnection) (s : Server W Save)
      → k.state ≡ (s.conns c).state
      → k.current_match_id ≡ (s.conns c).current_match_id
      → SameSeats s (set_conn c k s)
  unfolding set_conn room
  set_conn_lem c k s e f = record {
    state =
        λ d. elim (Bool-cases (d == c)) [ inl t ↦ rw (t, (==_iff d c).0 t) e | inr n ↦ rw n refl ];
    match_id =
        λ d. elim (Bool-cases (d == c)) [ inl t ↦ rw (t, (==_iff d c).0 t) f | inr n ↦ rw n refl ];
    rooms = λ i. refl;
    next = refl;
  }

  -- A match that changes, but for its players and their count.
  pub insert_lem :
      (i : ℕ) (m n : Match W Save) (s : Server W Save)
      → lookup i s.matches ≡ some m
      → room_of n ≡ room_of m
      → SameSeats s (record s { matches = insert i n s.matches })
  unfolding maybe_room room
  insert_lem i m n s e f = record {
    state = λ d. refl;
    match_id = λ d. refl;
    rooms = λ j. elim (Bool-cases (i == j)) [
      | inl t ↦ rw (lookup-insert j i n s.matches, t, sym ((==_iff i j).0 t), e) (ap some f)
      | inr g ↦ rw (lookup-insert j i n s.matches, g) refl
    ];
    next = refl;
  }

  pub push_command_to_match_lem :
      (i : ℕ) (cmd : MatchCommand Save) (s : Server W Save)
      → SameSeats s (Lobby.push_command_to_match i cmd s)
  unfolding Lobby.push_command_to_match Matches.push_command room_of
  push_command_to_match_lem i cmd s = elim (Option-cases (lookup i s.matches)) [
    | inl n ↦ rw (n, Lobby.push_command_to_match) (SameSeats-refl s)
    | inr (m, e) ↦
        rw (e, Lobby.push_command_to_match) (insert_lem i m (Matches.push_command cmd m) s e refl)
  ]

  pub pushed_lem :
      (c : ℕ) (u : GameUpdate) (s : Server W Save)
      → SameSeats s (set_conn c (pushed u (s.conns c)) s)
  unfolding pushed
  pushed_lem c u s = set_conn_lem c (pushed u (s.conns c)) s refl refl

  pub broadcast_lem :
      (u : GameUpdate) (cs : List ℕ) (s : Server W Save) → SameSeats s (Matches.broadcast u cs s)
  unfolding Matches.broadcast
  broadcast_lem u [] s = SameSeats-refl s
  broadcast_lem u (c ∷ cs) s =
      let t = set_conn c (pushed u (s.conns c)) s in
      SameSeats-trans s t (Matches.broadcast u cs t) (pushed_lem c u s) (broadcast_lem u cs t)

  pub send_world_map_to_lem :
      (worlds : Worlds W Save) (c : ℕ) (s : Server W Save)
      → SameSeats s (Lobby.send_world_map_to worlds c s)
  unfolding Lobby.send_world_map_to
  send_world_map_to_lem worlds c s = elim (Bool-cases ((s.conns c).current_match_id == 0)) [
    | inl z ↦ rw z (SameSeats-refl s)
    | inr z ↦ elim (Option-cases (lookup (s.conns c).current_match_id s.matches)) [
      | inl n ↦ rw (z, n) (SameSeats-refl s)
      | inr (m, e) ↦ rw (z, e) (pushed_lem c (Lobby.map_update worlds m.world) s)
    ]
  ]

module _ {W Save A : Type 0} where
  pub IsQuiet-pure : (a : A) → IsQuiet {W = W} {Save = Save} (pure a)
  unfolding pure
  IsQuiet-pure a = record { at = λ s b. SameSeats-refl s }

  pub IsQuiet-recv : (r : Recv A) → IsQuiet {W = W} {Save = Save} (recv r)
  unfolding recv
  IsQuiet-recv r = record {
    at = λ s b. elim (Option-cases (r b)) [
      | inl n ↦ rw (n, recv) (SameSeats-refl s)
      | inr (x, e) ↦ rw (e, recv) (SameSeats-refl s)
    ];
  }

  pub IsQuiet-if :
      (q : Bool) (m n : Exec W Save A) → IsQuiet m → IsQuiet n → IsQuiet (if q then m else n)
  IsQuiet-if true m n x y = x
  IsQuiet-if false m n x y = y

  pub IsQuiet-call :
      (f : Server W Save → A × Server W Save)
      → ((s : Server W Save) → SameSeats s (f s).1)
      → IsQuiet (call f)
  unfolding call
  IsQuiet-call f h = record { at = λ s b. h s }

  pub IsQuiet-catch : (m h : Exec W Save A) → IsQuiet m → IsQuiet h → IsQuiet (catch m h)
  unfolding catch
  IsQuiet-catch m h x y = record {
    at = λ s b. elim (Option-cases (m s b).0) [
      | inl n ↦
          rw (n, catch)
            (SameSeats-trans s (m s b).1 (h (m s b).1 (m s b).2).1 (x.at s b)
              (y.at (m s b).1 (m s b).2))
      | inr (a, e) ↦ rw (e, catch) (x.at s b)
    ];
  }

module _ {W Save A B : Type 0} where
  pub IsQuiet-bind :
      (m : Exec W Save A) (k : A → Exec W Save B)
      → IsQuiet m
      → ((a : A) → IsQuiet (k a))
      → IsQuiet (m >>= k)
  unfolding ◌>>=◌
  IsQuiet-bind m k x y = record {
    at = λ s b. elim (Option-cases (m s b).0) [
      | inl n ↦ rw (n, ◌>>=◌) (x.at s b)
      | inr (a, e) ↦
          rw (e, ◌>>=◌)
            (SameSeats-trans s (m s b).1 (k a (m s b).1 (m s b).2).1 (x.at s b)
              ((y a).at (m s b).1 (m s b).2))
    ];
  }

module _ {W Save : Type 0} where
  if_lem :
      {A : Type 0} (s : Server W Save) (q : Bool) (x y : Option A × Server W Save × Bytes)
      → SameSeats s x.1
      → SameSeats s y.1
      → SameSeats s (if q then x else y).1
  if_lem s true x y h k = h
  if_lem s false x y h k = k

  pub IsQuiet-conn : (c : ℕ) → IsQuiet {W = W} {Save = Save} (conn c)
  unfolding conn
  IsQuiet-conn c = record { at = λ s b. SameSeats-refl s }

  pub IsQuiet-modify :
      (f : Server W Save → Server W Save)
      → ((s : Server W Save) → SameSeats s (f s))
      → IsQuiet (modify f)
  unfolding modify
  IsQuiet-modify f h = record { at = λ s b. h s }

  pub IsQuiet-enqueue_update :
      (c : ℕ) (u : GameUpdate) → IsQuiet {W = W} {Save = Save} (enqueue_update c u)
  unfolding enqueue_update
  IsQuiet-enqueue_update c u = record {
    at = λ s b.
        if_lem s (s.conns c).send_queue.closed _ (some tt, set_conn c (pushed u (s.conns c)) s, b)
          (SameSeats-refl s) (pushed_lem c u s);
  }

  pub IsQuiet-try_enqueue_update :
      (c : ℕ) (u : GameUpdate) → IsQuiet {W = W} {Save = Save} (try_enqueue_update c u)
  unfolding try_enqueue_update try_pushed
  IsQuiet-try_enqueue_update c u = record {
    at = λ s b.
        if_lem s (s.conns c).send_queue.closed _
          (some tt, set_conn c (try_pushed u (s.conns c)) s, b) (SameSeats-refl s)
          (set_conn_lem c (try_pushed u (s.conns c)) s refl refl);
  }

pub ruleset quiet_rules = (
  IsQuiet-pure, IsQuiet-recv, IsQuiet-if, IsQuiet-catch, IsQuiet-bind, IsQuiet-conn,
  IsQuiet-enqueue_update, IsQuiet-try_enqueue_update,
)
