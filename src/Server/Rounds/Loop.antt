-- ===== src/Server/Rounds/Loop.antt =====
-- server/receiver_thread.cpp: the handlers and the rounds of the loop.
use argentum_online_taller_g.Prelude.{
  ℕ, ◌+◌, ◌%◌, ◌^◌, ◌≡◌, refl, ap, Bool, true, false, Option, none, some, [], ◌∷◌, Bytes, ◌==◌,
  ==_iff, Bool-cases, Option-cases, ◌⊎◌, inl, inr, if◌then◌else◌, lookup, insert,
}
use argentum_online_taller_g.Protocol.Wire.{Recv}
use argentum_online_taller_g.Protocol.Commands.{Command}
use argentum_online_taller_g.Server.State.{
  PlayerConnection, ConnState, connected, authenticated, in_match, disconnecting, Worlds, Match,
  Server,
}
use argentum_online_taller_g.Server.Exec.{Exec, ◌>>=◌, ◌>>◌, recv, call, modify, conn, set_conn}
use argentum_online_taller_g.Server.Matches
use argentum_online_taller_g.Server.Lobby
use argentum_online_taller_g.Server.Lobby.{is_in_match, LobbyError}
use argentum_online_taller_g.Server.Receiver.{
  set_state, Detail, again, return, send_error, logged_in, handle_login, handle_list_matches,
  created, handle_create_match, restore, tell_joined, joined, handle_join_match, push_or_refuse,
  handle_command, handle_select_race_class, handle_leave_match, in_lobby, in_the_match, handle,
}
use argentum_online_taller_g.Server.Seats.{
  is_inside, same_places, room, IsSeated, SameSeats, SameSeats-refl, SameSeats-trans,
  SameSeats-IsSeated,
}
use argentum_online_taller_g.Server.Quiet.{
  IsQuiet, quiet_rules, IsQuiet-modify, IsQuiet-call, IsQuiet-if, IsQuiet-bind, IsQuiet-conn,
  IsQuiet-enqueue_update, IsQuiet-pure, IsQuiet-recv, IsQuiet-catch, set_conn_lem,
  push_command_to_match_lem, send_world_map_to_lem,
}
use argentum_online_taller_g.Server.Rounds.{seat, seat_others, seat_mine, seat_rooms}
use argentum_online_taller_g.Server.Rounds.Joining.{join-IsSeated}
use argentum_online_taller_g.Server.Rounds.Opening.{create_match-IsSeated}
use argentum_online_taller_g.Server.Rounds.Leaving.{leave_match_lem, leave-IsSeated}
use argentum_online_taller_g.Server.Rounds.Handlers.{
  Ready, Keeps, Keeps-quiet, Keeps-catch, Keeps-after, Keeps-then,
}

module _ {W Save : Type 0} (worlds : Worlds W Save) (text : Detail → Bytes) where
  IsQuiet-send_error :
      (c code : ℕ) (d : Detail) → IsQuiet {W = W} {Save = Save} (send_error worlds text c code d)
  unfolding send_error
  IsQuiet-send_error c code d = search quiet_rules

  IsQuiet-push_or_refuse : (c : ℕ) (cmd : Command) → IsQuiet (push_or_refuse worlds text c cmd)
  unfolding push_or_refuse
  IsQuiet-push_or_refuse c cmd = IsQuiet-bind (conn c) _ (IsQuiet-conn c) (λ k.
      IsQuiet-if (k.current_match_id == 0) _ _ (IsQuiet-send_error c _ _)
        (IsQuiet-modify _ (λ s. push_command_to_match_lem _ _ s)))

  IsQuiet-handle_command :
      (c : ℕ) (payload : PlayerConnection → Recv Command)
      → IsQuiet (handle_command worlds text c payload)
  unfolding handle_command
  IsQuiet-handle_command c payload = search (quiet_rules, IsQuiet-push_or_refuse) depth 10

  IsQuiet-handle_select_race_class : (c : ℕ) → IsQuiet (handle_select_race_class worlds text c)
  unfolding handle_select_race_class
  IsQuiet-handle_select_race_class c = search (quiet_rules, IsQuiet-push_or_refuse) depth 10

  login_lem : (c : ℕ) (nick : Bytes) (s : Server W Save) → SameSeats s (Lobby.login c nick s).1
  unfolding Lobby.login room
  login_lem c [] s = SameSeats-refl s
  login_lem c (x ∷ nick) s = elim (Bool-cases (Lobby.is_used (x ∷ nick) s.nicks_in_use)) [
    | inl t ↦ rw t (SameSeats-refl s)
    | inr f ↦
        let t : Server W Save = record s {
          next_player_id = (s.next_player_id + 1) % 2 ^ 32;
          nicks_in_use = (x ∷ nick) ∷ s.nicks_in_use;
        } in
        let k : PlayerConnection = record (s.conns c) {
          player_id = s.next_player_id;
          nick = x ∷ nick;
        } in
        let same : SameSeats s t = record {
          state = λ d. refl;
          match_id = λ d. refl;
          rooms = λ i. refl;
          next = refl;
        } in
        simp f (SameSeats-trans s t (set_conn c k t) same (set_conn_lem c k t refl refl))
  ]

  -- A connection that is in no match, before and after.
  set_state_lem :
      (c : ℕ) (st : ConnState) (s : Server W Save)
      → is_in_match (s.conns c).state ≡ false
      → is_in_match st ≡ false
      → IsSeated s
      → IsSeated (set_state c st s)
  unfolding set_state set_conn room is_inside
  set_state_lem c st s e f h = same_places s (set_state c st s) inside (λ i. refl) h
    where
      inside : (d i : ℕ) → is_inside i ((set_state c st s).conns d) ≡ is_inside i (s.conns d)
      inside d i = elim (Bool-cases (d == c)) [
        | inl t ↦ rw (t, (==_iff d c).0 t, e, f) refl
        | inr n ↦ rw n refl
      ]

  Keeps-logged_in :
      (c : ℕ) (r : LobbyError ⊎ ℕ)
      → Keeps c connected (logged_in {W = W} {Save = Save} worlds text c r)
  unfolding logged_in is_in_match modify ◌>>◌
  Keeps-logged_in c (inl e) = Keeps-quiet _ (IsQuiet-send_error c _ _)
  Keeps-logged_in c (inr pid) =
      Keeps-catch _ _
        (Keeps-then (modify (set_state c authenticated)) _
          (record { at = λ s b r. set_state_lem c authenticated s (rw r.state refl) refl r.seated })
          (λ _. IsQuiet-enqueue_update c _))
        (IsQuiet-send_error c _ _)

  Keeps-handle_login :
      (c : ℕ) → Keeps c connected (handle_login {W = W} {Save = Save} worlds text c)
  unfolding handle_login
  Keeps-handle_login c = Keeps-after (recv _) _ (IsQuiet-recv _) (λ nick.
      Keeps-after (call (Lobby.login c nick)) _ (IsQuiet-call _ (login_lem c nick))
        (λ r. Keeps-logged_in c r))

  IsQuiet-handle_list_matches :
      (c : ℕ) → IsQuiet (handle_list_matches {W = W} {Save = Save} worlds text c)
  unfolding handle_list_matches
  IsQuiet-handle_list_matches c =
      IsQuiet-bind _ _ (IsQuiet-call _ (λ s. SameSeats-refl s)) (λ ms. IsQuiet-enqueue_update c _)

  IsQuiet-created :
      (c : ℕ) (r : LobbyError ⊎ ℕ) → IsQuiet (created {W = W} {Save = Save} worlds text c r)
  unfolding created
  IsQuiet-created c (inl e) = IsQuiet-send_error c _ _
  IsQuiet-created c (inr i) =
      IsQuiet-catch _ _ (IsQuiet-enqueue_update c _) (IsQuiet-send_error c _ _)

  Keeps-handle_create_match : (c : ℕ) → Keeps c authenticated (handle_create_match worlds text c)
  unfolding handle_create_match call
  Keeps-handle_create_match c = Keeps-after (recv _) _ (IsQuiet-recv _) (λ payload.
      Keeps-then (call (Lobby.create_match worlds payload.0 payload.1)) _
        (record {
          at = λ s b r. create_match-IsSeated worlds payload.0 payload.1 s r.seated r.counter;
        })
        (λ r. IsQuiet-created c r))

  restore_lem :
      (match_id pid : ℕ) (o : Option Save) (s : Server W Save)
      → SameSeats s (restore worlds text match_id pid o s)
  unfolding restore
  restore_lem match_id pid none s = SameSeats-refl s
  restore_lem match_id pid (some save) s = push_command_to_match_lem match_id _ s

  IsQuiet-tell_joined :
      (c match_id : ℕ) (m : Match W Save) → IsQuiet (tell_joined worlds text c match_id m)
  unfolding tell_joined ◌>>◌
  IsQuiet-tell_joined c match_id m = IsQuiet-bind _ _ (IsQuiet-conn c) (λ k.
      IsQuiet-bind _ _ (IsQuiet-enqueue_update c _) (λ _.
        IsQuiet-bind _ _ (IsQuiet-modify _ (send_world_map_to_lem worlds c)) (λ _.
          IsQuiet-modify _
            (restore_lem match_id k.player_id (worlds.find_player_save k.nick m.name)))))

  join_cases :
      (c match_id : ℕ) (s : Server W Save)
      → (Lobby.join_match match_id c s ≡ (none, s))
        ⊎ ((m : Match W Save) × (n : Match W Save) × (lookup match_id s.matches ≡ some m)
            × (Matches.add_player c m ≡ some n)
            × (Lobby.join_match match_id c s
                ≡ (some n, record s { matches = insert match_id n s.matches })))
  unfolding Lobby.join_match
  join_cases c match_id s = elim (Option-cases (lookup match_id s.matches)) [
    | inl n ↦ inl (rw (n, Lobby.join_match) refl)
    | inr (m, e) ↦ elim (Option-cases (Matches.add_player c m)) [
      | inl n ↦ inl (rw (e, n, Lobby.join_match) refl)
      | inr (n, a) ↦ inr (m, n, e, a, rw (e, a, Lobby.join_match) refl)
    ]
  ]

  joined-IsSeated :
      (c match_id : ℕ) (m n : Match W Save) (s : Server W Save) (b : Bytes)
      → Ready c authenticated s
      → lookup match_id s.matches ≡ some m
      → Matches.add_player c m ≡ some n
      → IsSeated
          (joined worlds text c match_id
            (some n)
            (record s { matches = insert match_id n s.matches })
            b).1
  unfolding joined ◌>>◌ ◌>>=◌ modify
  joined-IsSeated c match_id m n s b r e a =
      let u : Server W Save = record s { matches = insert match_id n s.matches } in
      let t : Server W Save = seat c in_match match_id u in
      SameSeats-IsSeated t (tell_joined worlds text c match_id n t b).1
        ((IsQuiet-tell_joined c match_id n).at t b)
        (join-IsSeated s c match_id m n r.seated r.state e a)

  Keeps-join :
      (c match_id : ℕ)
      → Keeps c authenticated (
          call (Lobby.join_match match_id c)
          >>= joined {W = W} {Save = Save} worlds text c match_id)
  unfolding ◌>>=◌ call joined send_error
  Keeps-join c match_id = record {
    at = λ s b r. elim (join_cases c match_id s) [
      | inl e ↦ rw e (
          SameSeats-IsSeated s (send_error worlds text c _ _ s b).1
            ((IsQuiet-send_error c _ _).at s b) r.seated)
      | inr (m, n, e, a, j) ↦ rw j (joined-IsSeated c match_id m n s b r e a)
    ];
  }

  Keeps-handle_join_match : (c : ℕ) → Keeps c authenticated (handle_join_match worlds text c)
  unfolding handle_join_match
  Keeps-handle_join_match c =
      Keeps-after (recv _) _ (IsQuiet-recv _) (λ match_id. Keeps-join c match_id)

  Keeps-handle_leave_match : (c : ℕ) → Keeps c in_match (handle_leave_match worlds text c)
  unfolding handle_leave_match ◌>>◌ ◌>>=◌ modify is_in_match
  Keeps-handle_leave_match c = record {
    at = λ s b r.
        let v = Lobby.leave_match worlds c s in
        leave-IsSeated c s v (seat c authenticated 0 v) r.seated
          (leave_match_lem worlds c s r.seated r.state) r.state
          (λ i. seat_rooms c i 0 authenticated v)
          (λ d i x. ap (is_inside i) (seat_others c d 0 authenticated v x))
          (λ i. seat_mine c i 0 authenticated v);
  }

  pub Keeps-if :
      {A : Type 0} {c : ℕ} {st : ConnState} (q : Bool) (m n : Exec W Save A)
      → Keeps c st m
      → Keeps c st n
      → Keeps c st (if q then m else n)
  Keeps-if true m n x y = x
  Keeps-if false m n x y = y

  Keeps-in_lobby : (c op : ℕ) → Keeps c authenticated (in_lobby worlds text c op)
  unfolding in_lobby
  Keeps-in_lobby c op =
      search
        (
          Keeps-if, Keeps-quiet, IsQuiet-handle_list_matches, Keeps-handle_create_match,
          Keeps-handle_join_match, IsQuiet-send_error,
        )
        depth 20

  Keeps-in_the_match : (c op : ℕ) → Keeps c in_match (in_the_match worlds text c op)
  unfolding in_the_match
  Keeps-in_the_match c op =
      search
        (
          Keeps-if, Keeps-quiet, IsQuiet-handle_command, IsQuiet-handle_select_race_class,
          Keeps-handle_leave_match, IsQuiet-send_error,
        )
        depth 40

  pub Keeps-handle : (st : ConnState) (c op : ℕ) → Keeps c st (handle worlds text st c op)
  unfolding handle ◌>>◌
  Keeps-handle connected c op =
      Keeps-then _ _
        (Keeps-if _ _ _ (Keeps-handle_login c) (Keeps-quiet _ (IsQuiet-send_error c _ _)))
        (λ _. IsQuiet-pure again)
  Keeps-handle authenticated c op = Keeps-then _ _ (Keeps-in_lobby c op) (λ _. IsQuiet-pure again)
  Keeps-handle in_match c op = Keeps-then _ _ (Keeps-in_the_match c op) (λ _. IsQuiet-pure again)
  Keeps-handle disconnecting c op = Keeps-quiet _ (IsQuiet-pure return)
