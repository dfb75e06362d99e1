-- ===== src/Server/Exec.antt =====
-- server/receiver_thread.cpp: code that reads the socket of a client, changes the server and may throw.
use argentum_online_taller_g.Prelude.{ℕ, Option, none, some, Bytes, ◌==◌, if◌then◌else◌}
use argentum_online_taller_g.Queue.{push, try_push}
use argentum_online_taller_g.Protocol.Wire.{Recv}
use argentum_online_taller_g.Protocol.Updates.{GameUpdate}
use argentum_online_taller_g.Server.State.{PlayerConnection, Server}

-- The connection after an attempt to put the update in its queue.
unfoldable pub pushed : GameUpdate → PlayerConnection → PlayerConnection
pushed u k = record k { send_queue = (push u k.send_queue).1 }

unfoldable pub try_pushed : GameUpdate → PlayerConnection → PlayerConnection
try_pushed u k = record k { send_queue = (try_push u k.send_queue).1 }

-- What came out, the server and what is left to read; `none` is an exception.
abbrev pub Exec : Type 0 → Type 0 → Type 0 → Type 0
Exec W Save A = Server W Save → Bytes → Option A × Server W Save × Bytes

module _ {W Save A B : Type 0} where
  infixl 5 ◌>>=◌
  unfoldable pub ◌>>=◌ : Exec W Save A → (A → Exec W Save B) → Exec W Save B
  (m >>= k) s b = let (r, t, c) = m s b in elim r [ none ↦ (none, t, c) | some a ↦ k a t c ]

  infixl 5 ◌>>◌
  unfoldable pub ◌>>◌ : Exec W Save A → Exec W Save B → Exec W Save B
  m >> n = m >>= (λ _. n)

module _ {W Save A : Type 0} where
  unfoldable pub pure : A → Exec W Save A
  pure a s b = (some a, s, b)

  unfoldable pub throw : Exec W Save A
  throw s b = (none, s, b)

  -- `try` and `catch`.
  unfoldable pub catch : Exec W Save A → Exec W Save A → Exec W Save A
  catch m h s b = let (r, t, c) = m s b in elim r [ none ↦ h t c | some a ↦ (some a, t, c) ]

  -- A call of the protocol.
  unfoldable pub recv : Recv A → Exec W Save A
  recv r s b = elim (r b) [ none ↦ (none, s, b) | some (a, c) ↦ (some a, s, c) ]

  -- A call of the server.
  unfoldable pub call : (Server W Save → A × Server W Save) → Exec W Save A
  call f s b = let (a, t) = f s in (some a, t, b)

module _ {W Save : Type 0} where
  unfoldable pub set_conn : ℕ → PlayerConnection → Server W Save → Server W Save
  set_conn c k s = record s { conns = λ d. if d == c then k else s.conns d }

  unfoldable pub modify : (Server W Save → Server W Save) → Exec W Save Unit
  modify f s b = (some tt, f s, b)

  unfoldable pub conn : ℕ → Exec W Save PlayerConnection
  conn c s b = (some (s.conns c), s, b)

  -- `enqueue_update`, and `try_enqueue_update`: `ClosedQueue` is thrown when the queue is closed.
  unfoldable pub enqueue_update : ℕ → GameUpdate → Exec W Save Unit
  enqueue_update c u s b =
      if (s.conns c).send_queue.closed
      then (none, s, b)
      else (some tt, set_conn c (pushed u (s.conns c)) s, b)

  unfoldable pub try_enqueue_update : ℕ → GameUpdate → Exec W Save Unit
  try_enqueue_update c u s b =
      if (s.conns c).send_queue.closed
      then (none, s, b)
      else (some tt, set_conn c (try_pushed u (s.conns c)) s, b)
