-- ===== src/Server/Shrinks/Loop.antt =====
-- server/receiver_thread.cpp: the handlers, a round and the loop.
use argentum_online_taller_g.Prelude.{
  ℕ, zero, suc, ◌≤◌, ◌<◌, ◌≡◌, ◌≢◌, refl, ap, sym, ◌∙◌, Bool, true, false, Option, none, some, [],
  ◌∷◌, Bytes, length, ◌==◌, ==_iff, if◌then◌else◌, ◌⊎◌, Option-cases, inl, inr, arith,
}
use argentum_online_taller_g.Protocol.Wire.{Recv, recv_u8}
use argentum_online_taller_g.Protocol.Commands.{Command}
use argentum_online_taller_g.Protocol.Takes.{
  Takes, payload_rules, Takes-recv_string, Takes-recv_join_match_payload,
  Takes-recv_create_match_payload, Takes-recv_select_race_class_payload,
}
use argentum_online_taller_g.Server.State.{
  PlayerConnection, ConnState, connected, authenticated, in_match, disconnecting, Worlds, Match,
  Server,
}
use argentum_online_taller_g.Server.Exec.{Exec, ◌>>=◌, ◌>>◌, pure, conn, recv, set_conn}
use argentum_online_taller_g.Server.Lobby.{LobbyError, disconnect}
use argentum_online_taller_g.Server.Receiver.{
  Detail, again, break, return, send_error, logged_in, handle_login, handle_list_matches, created,
  handle_create_match, tell_joined, joined, handle_join_match, push_or_refuse, handle_command,
  handle_select_race_class, handle_leave_match, in_lobby, in_the_match, handle, round, finish, run,
}
use argentum_online_taller_g.Server.Shrinks.{
  Shrinks, shrinks_rules, Shrinks-pure, Shrinks-bind, Shrinks-conn, Shrinks-if,
}

module _ {W Save : Type 0} (worlds : Worlds W Save) (text : Detail → Bytes) where
  Shrinks-send_error :
      (c code : ℕ) (d : Detail) → Shrinks {W = W} {Save = Save} (send_error worlds text c code d)
  unfolding send_error
  Shrinks-send_error c code d = search shrinks_rules

  Shrinks-logged_in :
      (c : ℕ) (r : LobbyError ⊎ ℕ) → Shrinks {W = W} {Save = Save} (logged_in worlds text c r)
  unfolding logged_in
  Shrinks-logged_in c (inl e) = search (Shrinks-send_error)
  Shrinks-logged_in c (inr pid) = search (shrinks_rules, Shrinks-send_error)

  Shrinks-handle_login : (c : ℕ) → Shrinks {W = W} {Save = Save} (handle_login worlds text c)
  unfolding handle_login
  Shrinks-handle_login c = search (shrinks_rules, Takes-recv_string, Shrinks-logged_in)

  Shrinks-handle_list_matches :
      (c : ℕ) → Shrinks {W = W} {Save = Save} (handle_list_matches worlds text c)
  unfolding handle_list_matches
  Shrinks-handle_list_matches c = search shrinks_rules

  Shrinks-created :
      (c : ℕ) (r : LobbyError ⊎ ℕ) → Shrinks {W = W} {Save = Save} (created worlds text c r)
  unfolding created
  Shrinks-created c (inl e) = search (Shrinks-send_error)
  Shrinks-created c (inr i) = search (shrinks_rules, Shrinks-send_error)

  Shrinks-handle_create_match : (c : ℕ) → Shrinks (handle_create_match worlds text c)
  unfolding handle_create_match
  Shrinks-handle_create_match c =
      search (shrinks_rules, Takes-recv_create_match_payload, Shrinks-created)

  Shrinks-tell_joined : (c i : ℕ) (m : Match W Save) → Shrinks (tell_joined worlds text c i m)
  unfolding tell_joined
  Shrinks-tell_joined c i m = search shrinks_rules depth 10

  Shrinks-joined : (c i : ℕ) (o : Option (Match W Save)) → Shrinks (joined worlds text c i o)
  unfolding joined
  Shrinks-joined c i none = search (Shrinks-send_error)
  Shrinks-joined c i (some m) = search (shrinks_rules, Shrinks-tell_joined)

  Shrinks-handle_join_match : (c : ℕ) → Shrinks (handle_join_match worlds text c)
  unfolding handle_join_match
  Shrinks-handle_join_match c =
      search (shrinks_rules, Takes-recv_join_match_payload, Shrinks-joined)

  Shrinks-push_or_refuse : (c : ℕ) (cmd : Command) → Shrinks (push_or_refuse worlds text c cmd)
  unfolding push_or_refuse
  Shrinks-push_or_refuse c cmd = search (shrinks_rules, Shrinks-send_error)

  Shrinks-handle_command :
      (c : ℕ) (payload : PlayerConnection → Recv Command)
      → ((k : PlayerConnection) → Takes (payload k))
      → Shrinks (handle_command worlds text c payload)
  unfolding handle_command
  Shrinks-handle_command c payload h = search (shrinks_rules, h, Shrinks-push_or_refuse)

  Shrinks-handle_select_race_class : (c : ℕ) → Shrinks (handle_select_race_class worlds text c)
  unfolding handle_select_race_class
  Shrinks-handle_select_race_class c =
      search (shrinks_rules, Takes-recv_select_race_class_payload, Shrinks-push_or_refuse)

  Shrinks-handle_leave_match : (c : ℕ) → Shrinks (handle_leave_match worlds text c)
  unfolding handle_leave_match
  Shrinks-handle_leave_match c = search shrinks_rules

  Shrinks-in_lobby : (c op : ℕ) → Shrinks (in_lobby worlds text c op)
  unfolding in_lobby
  Shrinks-in_lobby c op =
      search
        (
          Shrinks-if, Shrinks-handle_list_matches, Shrinks-handle_create_match,
          Shrinks-handle_join_match, Shrinks-send_error,
        )
        depth 20

  Shrinks-in_the_match : (c op : ℕ) → Shrinks (in_the_match worlds text c op)
  unfolding in_the_match
  Shrinks-in_the_match c op =
      search
        (
          Shrinks-if, Shrinks-handle_command, payload_rules, Shrinks-handle_select_race_class,
          Shrinks-handle_leave_match, Shrinks-send_error,
        )
        depth 40

  Shrinks-handle : (st : ConnState) (c op : ℕ) → Shrinks (handle worlds text st c op)
  unfolding handle
  Shrinks-handle connected c op = search (shrinks_rules, Shrinks-handle_login, Shrinks-send_error)
  Shrinks-handle authenticated c op = search (shrinks_rules, Shrinks-in_lobby)
  Shrinks-handle in_match c op = search (shrinks_rules, Shrinks-in_the_match)
  Shrinks-handle disconnecting c op = Shrinks-pure return

  -- A round takes the opcode.
  round_takes :
      (c : ℕ) (s : Server W Save) (x : ℕ) (b : Bytes)
      → length (round worlds text c s (x ∷ b)).2 ≤ length b
  unfolding round recv_u8 recv ◌>>=◌
  round_takes c s x b =
      (Shrinks-bind _ _ (Shrinks-conn c)
          (λ k. Shrinks-if (x == 255) _ _ (Shrinks-pure break) (Shrinks-handle k.state c x))).at
        s b

  round_ends : (c : ℕ) (s : Server W Save) → (round worlds text c s []).0 ≡ none
  unfolding round recv_u8 recv ◌>>=◌
  round_ends c s = refl

  -- What goes on to the next round does not make the thread return.
  again_only :
      {A : Type 0} (m : Exec W Save A) (s : Server W Save) (b : Bytes)
      → ((m >> pure again) s b).0 ≢ some return
  unfolding ◌>>◌ ◌>>=◌ pure
  again_only m s b e = elim (Option-cases (m s b).0) [
    | inl n ↦
        let f : ((m >> pure again) s b).0 ≡ none = rw (n, ◌>>◌, ◌>>=◌) refl in
        ground (arith, sym f ∙ e)
    | inr (a, n) ↦
        let f : ((m >> pure again) s b).0 ≡ some again = rw (n, ◌>>◌, ◌>>=◌) refl in
        ground (arith, sym f ∙ e)
  ]

  handle_returns :
      (st : ConnState) (c op : ℕ) (s : Server W Save) (b : Bytes)
      → (handle worlds text st c op s b).0 ≡ some return
      → (st ≡ disconnecting) × ((handle worlds text st c op s b).1 ≡ s)
  unfolding handle pure
  handle_returns connected c op s b e = elim (again_only _ s b e) [ ]
  handle_returns authenticated c op s b e = elim (again_only _ s b e) [ ]
  handle_returns in_match c op s b e = elim (again_only _ s b e) [ ]
  handle_returns disconnecting c op s b e = (refl, refl)

  dispatch_returns :
      (q : Bool) (st : ConnState) (c op : ℕ) (s : Server W Save) (b : Bytes)
      → ((if q then pure break else handle worlds text st c op) s b).0 ≡ some return
      → (st ≡ disconnecting) × (((if q then pure break else handle worlds text st c op) s b).1 ≡ s)
  unfolding pure
  dispatch_returns true st c op s b e = ground (arith, e)
  dispatch_returns false st c op s b e = handle_returns st c op s b e

  round_returns :
      (c : ℕ) (s : Server W Save) (x : ℕ) (b : Bytes)
      → (round worlds text c s (x ∷ b)).0 ≡ some return
      → ((round worlds text c s (x ∷ b)).1.conns c).state ≡ disconnecting
  unfolding round recv_u8 recv conn ◌>>=◌
  round_returns c s x b e =
      let (d, f) = dispatch_returns (x == 255) (s.conns c).state c x s b e in
      ap (λ t. (t.conns c).state) f ∙ d

  finish_disconnects :
      (c : ℕ) (s : Server W Save) → ((finish worlds text c s).conns c).state ≡ disconnecting
  unfolding finish disconnect set_conn
  finish_disconnects c s = rw ((==_iff c c).1 refl) refl

  -- When the rounds are more than the bytes that a client sends, the loop on them ends, from any state of
  -- the server, and the connection is then in the state DISCONNECTING.
  pub run_disconnects :
      (n c : ℕ) (s : Server W Save) (b : Bytes)
      → length b < n
      → (t : Server W Save) × (run worlds text n c s b ≡ some t)
        × ((t.conns c).state ≡ disconnecting)
  unfolding run
  run_disconnects zero c s b h = ground (arith, h)
  run_disconnects (suc n) c s [] h =
      let t = finish worlds text c (round worlds text c s []).1 in
      (t, rw (round_ends c s, run) refl, finish_disconnects c (round worlds text c s []).1)
  run_disconnects (suc n) c s (x ∷ b) h =
      let less : length (round worlds text c s (x ∷ b)).2 ≤ length b = round_takes c s x b in
      let u : Server W Save = (round worlds text c s (x ∷ b)).1 in
      elim (Option-cases (round worlds text c s (x ∷ b)).0) [
        | inl e ↦ (finish worlds text c u, rw (e, run) refl, finish_disconnects c u)
        | inr (again, e) ↦
            let (t, f, d) =
              run_disconnects n c u (round worlds text c s (x ∷ b)).2 (omega (arith, less, h)) in
            (t, rw (e, run) f, d)
        | inr (break, e) ↦ (finish worlds text c u, rw (e, run) refl, finish_disconnects c u)
        | inr (return, e) ↦ (u, rw (e, run) refl, round_returns c s x b e)
      ]
