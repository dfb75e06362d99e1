-- ===== src/Server/Refusals.antt =====
-- client/client_protocol.cpp and server/receiver_thread.cpp: a request that comes while the client is in
-- the lobby, which does not serve it.
use argentum_online_taller_g.Prelude.{
  ℕ, ◌<◌, ◌≡◌, refl, ap, ◌∙◌, Bool, true, false, none, some, [], ◌∷◌, ◌++◌, Bytes, ◌==◌, ◌||◌,
  if◌then◌else◌, length, arith,
}
use argentum_online_taller_g.Queue.{Queue, try_push}
use argentum_online_taller_g.Protocol.Wire.{Write, ◌⊕◌, put_u8, recv_u8}
use argentum_online_taller_g.Server.State.{PlayerConnection, authenticated, Worlds, Server}
use argentum_online_taller_g.Server.Exec.{
  ◌>>=◌, ◌>>◌, pure, conn, recv, set_conn, try_pushed, try_enqueue_update,
}
use argentum_online_taller_g.Protocol.ClientOpcode
use argentum_online_taller_g.Protocol.ProtocolError
use argentum_online_taller_g.Protocol.Updates.{GameUpdate, error}
use argentum_online_taller_g.Protocol.Requests
use argentum_online_taller_g.Protocol.Requests.{Request, send_request}
use argentum_online_taller_g.Server.Receiver.{
  Detail, only_in_lobby, again, send_error, in_lobby, handle, round,
}

-- The requests that the lobby serves, and the one to disconnect.
unfoldable pub is_for_lobby : Request → Bool
is_for_lobby Requests.list_matches = true
is_for_lobby (Requests.create_match _ _) = true
is_for_lobby (Requests.join_match _) = true
is_for_lobby Requests.disconnect = true
is_for_lobby _ = false

-- The codes of those requests.
abbrev is_lobby_code : ℕ → Bool
is_lobby_code op =
    op == ClientOpcode.list_matches
    || (op == ClientOpcode.create_match
        || (op == ClientOpcode.join_match || op == ClientOpcode.disconnect))

-- The bytes of a request are its code and a payload.
pub record StartsWith (op : ℕ) (out : Bytes) : Type 0 where
  pub payload : Bytes
  pub coded : out ≡ op ∷ payload

coded_lem :
    (op : ℕ) (w : Write) (out : Bytes) → op < 256 → (put_u8 op ⊕ w) ≡ some out → StartsWith op out
unfolding ◌⊕◌ put_u8
coded_lem op none out h e = ground (arith, e)
coded_lem op (some b) out h e = record { payload = b; coded = ground (arith, e, h) }

bare_coded : (op : ℕ) (out : Bytes) → op < 256 → put_u8 op ≡ some out → StartsWith op out
unfolding put_u8
bare_coded op out h e = record { payload = []; coded = ground (arith, e, h) }

module _ {W Save : Type 0} (worlds : Worlds W Save) (text : Detail → Bytes) (c : ℕ)
    (s : Server W Save) where
  abbrev pub lobby_error : GameUpdate
  lobby_error = error (s.conns c).player_id ProtocolError.command_not_allowed (text only_in_lobby)

  -- The connection has the error behind what it has to send, and nothing else is different.
  abbrev pub told : Server W Save
  told = record s {
    conns = λ d.
        if d == c
        then record (s.conns c) {
          send_queue = record ((s.conns c).send_queue) {
            q = (s.conns c).send_queue.q ++ lobby_error ∷ [];
          };
        }
        else s.conns d;
  }

  -- A round takes the code of the request and no more, and the client is told of the error.
  pub record IsUnserved (out rest : Bytes) : Type 0 where
    pub op : ℕ
    pub sent : StartsWith op out
    pub refused : round worlds text c s (out ++ rest) ≡ (some again, told, sent.payload ++ rest)

  abbrev told_conn : PlayerConnection
  told_conn = try_pushed lobby_error (s.conns c)

  code_refused :
      (op : ℕ) (b : Bytes)
      → (s.conns c).state ≡ authenticated
      → (s.conns c).send_queue.closed ≡ false
      → is_lobby_code op ≡ false
      → round worlds text c s (op ∷ b) ≡ (some again, set_conn c told_conn s, b)
  unfolding round recv recv_u8 conn ◌>>=◌ ◌>>◌ handle in_lobby send_error try_enqueue_update pure
  code_refused op b st unclosed off =
      let l : (op == ClientOpcode.list_matches) ≡ false = ground (arith, off) in
      let m : (op == ClientOpcode.create_match) ≡ false = ground (arith, off) in
      let j : (op == ClientOpcode.join_match) ≡ false = ground (arith, off) in
      let d : (op == ClientOpcode.disconnect) ≡ false = ground (arith, off) in
      simp (st, l, m, j, d, unclosed) refl

  told_lem :
      (s.conns c).send_queue.closed ≡ false
      → length (s.conns c).send_queue.q < (s.conns c).send_queue.max_size
      → set_conn c told_conn s ≡ told
  unfolding set_conn try_pushed try_push
  told_lem unclosed room =
      let q : Queue GameUpdate = (s.conns c).send_queue in
      let full : (length q.q == q.max_size) ≡ false = ground (arith, room) in
      let stores : try_pushed lobby_error (s.conns c)
          ≡ record (s.conns c) { send_queue = record q { q = q.q ++ lobby_error ∷ [] } } =
        simp (try_pushed, try_push, unclosed, full) refl in
      ap (λ k. set_conn c k s) stores

  refused_lem :
      (op : ℕ) (out rest : Bytes)
      → (s.conns c).state ≡ authenticated
      → (s.conns c).send_queue.closed ≡ false
      → length (s.conns c).send_queue.q < (s.conns c).send_queue.max_size
      → is_lobby_code op ≡ false
      → StartsWith op out
      → IsUnserved out rest
  refused_lem op out rest st unclosed room off x = record {
    op = op;
    sent = x;
    refused =
        ap (λ o. round worlds text c s (o ++ rest)) x.coded
        ∙ code_refused op (x.payload ++ rest) st unclosed off
        ∙ ap (λ (t : Server W Save). (some again, t, x.payload ++ rest)) (told_lem unclosed room);
  }

  -- A request that the lobby does not serve, from a client in the lobby whose send queue is open and has
  -- room, is answered by the error COMMAND_NOT_ALLOWED, at the end of what is to be sent; nothing else
  -- of the server changes. Of the bytes of the request, the round takes the code only: the payload, and
  -- what follows, is what the next round reads.
  pub lobby_refuses :
      (r : Request) (out rest : Bytes)
      → (s.conns c).state ≡ authenticated
      → (s.conns c).send_queue.closed ≡ false
      → length (s.conns c).send_queue.q < (s.conns c).send_queue.max_size
      → is_for_lobby r ≡ false
      → send_request r ≡ some out
      → IsUnserved out rest
  unfolding is_for_lobby send_request
  lobby_refuses (Requests.login nick) out rest st o room n e =
      refused_lem ClientOpcode.login out rest st o room refl (coded_lem _ _ out (omega arith) e)
  lobby_refuses (Requests.select_race_class race klass) out rest st o room n e =
      refused_lem ClientOpcode.select_race_class out rest st o room refl
        (coded_lem _ _ out (omega arith) e)
  lobby_refuses (Requests.move dir) out rest st o room n e =
      refused_lem ClientOpcode.move out rest st o room refl (coded_lem _ _ out (omega arith) e)
  lobby_refuses (Requests.attack target) out rest st o room n e =
      refused_lem ClientOpcode.attack out rest st o room refl (coded_lem _ _ out (omega arith) e)
  lobby_refuses Requests.meditate out rest st o room n e =
      refused_lem ClientOpcode.meditate out rest st o room refl (bare_coded _ out (omega arith) e)
  lobby_refuses Requests.resurrect out rest st o room n e =
      refused_lem ClientOpcode.resurrect out rest st o room refl (bare_coded _ out (omega arith) e)
  lobby_refuses Requests.pick_up out rest st o room n e =
      refused_lem ClientOpcode.pick_up out rest st o room refl (bare_coded _ out (omega arith) e)
  lobby_refuses (Requests.drop_item i) out rest st o room n e =
      refused_lem ClientOpcode.drop_item out rest st o room refl (coded_lem _ _ out (omega arith) e)
  lobby_refuses (Requests.equip_item i) out rest st o room n e =
      refused_lem ClientOpcode.equip_item out rest st o room refl
        (coded_lem _ _ out (omega arith) e)
  lobby_refuses (Requests.chat t) out rest st o room n e =
      refused_lem ClientOpcode.chat out rest st o room refl (coded_lem _ _ out (omega arith) e)
  lobby_refuses (Requests.private_chat w t) out rest st o room n e =
      refused_lem ClientOpcode.private_chat out rest st o room refl
        (coded_lem _ _ out (omega arith) e)
  lobby_refuses (Requests.interact npc type arg amount) out rest st o room n e =
      refused_lem ClientOpcode.interact out rest st o room refl (coded_lem _ _ out (omega arith) e)
  lobby_refuses (Requests.clan_action action arg) out rest st o room n e =
      refused_lem ClientOpcode.clan out rest st o room refl (coded_lem _ _ out (omega arith) e)
  lobby_refuses (Requests.cheat type) out rest st o room n e =
      refused_lem ClientOpcode.cheat out rest st o room refl (coded_lem _ _ out (omega arith) e)
  lobby_refuses Requests.leave_match out rest st o room n e =
      refused_lem ClientOpcode.leave_match out rest st o room refl
        (bare_coded _ out (omega arith) e)
  lobby_refuses Requests.list_matches out rest st o room n e = ground (arith, n)
  lobby_refuses (Requests.create_match m k) out rest st o room n e = ground (arith, n)
  lobby_refuses (Requests.join_match i) out rest st o room n e = ground (arith, n)
  lobby_refuses Requests.disconnect out rest st o room n e = ground (arith, n)
