-- ===== src/Server/Handled.antt =====
-- server/receiver_thread.cpp: one round of a client in a match, on a request whose opcode has a handler.
use argentum_online_taller_g.Prelude.{
  ℕ, get_elem?, ◌≡◌, refl, sym, ◌∙◌, ap, subst, false, Option, none, some, [], ◌++◌, Bytes, ◌==◌,
  if◌then◌else◌, arith,
}
use mathlib.Core.List.{append_assoc}
use argentum_online_taller_g.Config.{PlayerRace, PlayerClass}
use argentum_online_taller_g.Protocol.Wire.{Write, ◌⊕◌, Recv, give, put_u8, recv_u8}
use argentum_online_taller_g.Protocol.Reads.{Reads, Reads-give, put_nothing, u8-Reads, IsU8}
use argentum_online_taller_g.Protocol.Requests.{select_race_class, send_request}
use argentum_online_taller_g.Protocol.Commands.{
  Command, select_race_class_command, recv_select_race_class_payload,
}
use argentum_online_taller_g.Server.State.{PlayerConnection, in_match, Worlds, from_client, Server}
use argentum_online_taller_g.Server.Exec.{Exec, ◌>>=◌, ◌>>◌, recv, conn, pure, modify}
use argentum_online_taller_g.Server.Lobby
use argentum_online_taller_g.Server.Receiver.{
  Detail, Next, again, break, push_or_refuse, handle_command, handle_select_race_class,
  in_the_match, handle, round,
}
use argentum_online_taller_g.Server.Payloads.{races, classes, select-Reads}

-- The bytes that are sent make this round, whatever follows them.
pub record Serves {W Save : Type 0} (w : Write) (m : Exec W Save Next) (s t : Server W Save)
    : Type 0 where
  pub out : Bytes
  pub written : w ≡ some out
  pub served : (rest : Bytes) → m s (out ++ rest) ≡ (some again, t, rest)

recv_lem :
    {W Save A : Type 0} (r : Recv A) (s : Server W Save) {b t : Bytes} {a : A}
    → r b ≡ some (a, t)
    → recv r s b ≡ (some a, s, t)
unfolding recv
recv_lem r s e = rw (e, recv) refl

module _ {W Save A B : Type 0} where
  after :
      (m : Exec W Save A) (k : A → Exec W Save B) (s : Server W Save) {b d : Bytes}
      {t : Server W Save} {a : A}
      → m s b ≡ (some a, t, d)
      → (m >>= k) s b ≡ k a t d
  unfolding ◌>>=◌
  after m k s {t = t} e =
      ap
        (λ (p : Option A × Server W Save × Bytes).
          elim p.0 as (λ _. Option B × Server W Save × Bytes) [
            | none ↦ (none, p.1, p.2)
            | some a ↦ k a p.1 p.2
          ])
        e

  received_then :
      (r : Recv A) (k : A → Exec W Save B) (s : Server W Save) {b t : Bytes} {a : A}
      → r b ≡ some (a, t)
      → (recv r >>= k) s b ≡ k a s t
  unfolding ◌>>=◌
  received_then r k s e = after (recv r) k s (recv_lem r s e)

module _ {W Save : Type 0} (worlds : Worlds W Save) (text : Detail → Bytes) (c : ℕ)
    (s : Server W Save) where
  abbrev me : PlayerConnection
  me = s.conns c

  push_or_refuse_lem :
      (cmd : Command) (b : Bytes)
      → (me.current_match_id == 0) ≡ false
      → push_or_refuse worlds text c cmd s b
        ≡ (some tt, Lobby.push_command_to_match me.current_match_id (from_client cmd) s, b)
  unfolding push_or_refuse conn modify ◌>>=◌
  push_or_refuse_lem cmd b n = simp n refl

  handle_command_lem :
      (payload : PlayerConnection → Recv Command) (cmd : Command) (b t : Bytes)
      → (me.current_match_id == 0) ≡ false
      → payload me b ≡ some (cmd, t)
      → handle_command worlds text c payload s b
        ≡ (some tt, Lobby.push_command_to_match me.current_match_id (from_client cmd) s, t)
  unfolding handle_command conn ◌>>=◌
  handle_command_lem payload cmd b t n e =
      received_then (payload me) (push_or_refuse worlds text c) s e ∙ push_or_refuse_lem cmd t n

  round_lem :
      (op : ℕ) (b t : Bytes)
      → me.state ≡ in_match
      → (op == 255) ≡ false
      → recv_u8 b ≡ some (op, t)
      → round worlds text c s b ≡ (in_the_match worlds text c op >> pure again) s t
  unfolding round conn ◌>>=◌ handle
  round_lem op b t st n e =
      received_then recv_u8
        (λ x. conn c >>= (λ k. if x == 255 then pure break else handle worlds text k.state c x)) s e
      ∙ simp (n, st) refl

  -- A request whose opcode has a handler that reads the payload, and leaves the server `t`.
  handler_served :
      {A : Type 0} (op : ℕ) (w : Write) (r : Recv A) (a : A) (t : Server W Save)
      → IsU8 op
      → (op == 255) ≡ false
      → me.state ≡ in_match
      → ((b d : Bytes) → r b ≡ some (a, d) → in_the_match worlds text c op s b ≡ (some tt, t, d))
      → Reads w r a
      → Serves (put_u8 op ⊕ w) (round worlds text c) s t
  unfolding ◌>>=◌ ◌>>◌ ◌⊕◌ pure
  handler_served op w r a t u8 n st handled x =
      let y : Reads (put_u8 op) recv_u8 op = u8-Reads op u8 in
      record {
        out = y.out ++ x.out;
        written = rw (y.written, x.written) refl;
        served = λ rest.
            let more : Bytes = x.out ++ rest in
            ap (round worlds text c s) (append_assoc y.out x.out rest)
            ∙ round_lem op (y.out ++ more) more st n (y.read more)
            ∙ after (in_the_match worlds text c op) (λ _. pure again) s
                (handled more rest (x.read rest));
      }

  -- The requests whose opcode is that of a command.
  pub command_served :
      (op : ℕ) (w : Write) (payload : PlayerConnection → Recv Command) (cmd : Command)
      → IsU8 op
      → (op == 255) ≡ false
      → in_the_match worlds text c op ≡ handle_command worlds text c payload
      → me.state ≡ in_match
      → (me.current_match_id == 0) ≡ false
      → Reads w (payload me) cmd
      → Serves
          (put_u8 op ⊕ w)
          (round worlds text c)
          s
          (Lobby.push_command_to_match me.current_match_id (from_client cmd) s)
  command_served op w payload cmd u8 n e st id x =
      handler_served op w (payload me) cmd _ u8 n st
        (λ b d f. ap (λ h. h s b) e ∙ handle_command_lem payload cmd b d id f) x

  pub select_served :
      (race klass : ℕ) (r : PlayerRace) (q : PlayerClass)
      → me.state ≡ in_match
      → (me.current_match_id == 0) ≡ false
      → get_elem? races race ≡ some r
      → get_elem? classes klass ≡ some q
      → Serves (send_request (select_race_class race klass)) (round worlds text c) s (
          Lobby.push_command_to_match me.current_match_id
            (from_client (select_race_class_command me.player_id me.nick r q))
            s)
  unfolding send_request in_the_match handle_select_race_class conn ◌>>=◌
  select_served race klass r q st id e f =
      let cmd : Command = select_race_class_command me.player_id me.nick r q in
      let pushes : PlayerRace × PlayerClass → Exec W Save Unit = λ p. conn c >>= (λ k.
        push_or_refuse worlds text c (select_race_class_command k.player_id k.nick p.0 p.1)) in
      handler_served _ _ recv_select_race_class_payload (r, q) _ (omega arith) refl st
        (λ b d g.
          received_then recv_select_race_class_payload pushes s g ∙ push_or_refuse_lem cmd d id)
        (select-Reads race klass r q e f)

  -- A request that is an opcode and nothing more.
  pub bare_served :
      (op : ℕ) (cmd : PlayerConnection → Command)
      → IsU8 op
      → (op == 255) ≡ false
      → in_the_match worlds text c op ≡ handle_command worlds text c (λ k. give (cmd k))
      → me.state ≡ in_match
      → (me.current_match_id == 0) ≡ false
      → Serves
          (put_u8 op)
          (round worlds text c)
          s
          (Lobby.push_command_to_match me.current_match_id (from_client (cmd me)) s)
  bare_served op cmd u8 n e st id =
      subst
        (λ w.
          Serves w (round worlds text c) s
            (Lobby.push_command_to_match me.current_match_id (from_client (cmd me)) s))
        (sym (put_nothing (put_u8 op)))
        (command_served op (some []) (λ k. give (cmd k)) (cmd me) u8 n e st id
          (Reads-give (cmd me)))
