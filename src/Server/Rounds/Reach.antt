-- ===== src/Server/Rounds/Reach.antt =====
-- server/receiver_thread.cpp: the states that the server comes to, whoever is served next.
use argentum_online_taller_g.Prelude.{
  ℕ, ◌+◌, ◌<◌, ◌^◌, List, length, ◌≡◌, ◌≢◌, refl, sym, ◌∙◌, ap, subst, true, false, Bytes, ◌==◌,
  ==_iff, Bool-cases, inl, inr, if◌then◌else◌, arith,
}
use argentum_online_taller_g.Server.State.{
  PlayerConnection, ConnState, connected, authenticated, in_match, disconnecting, Worlds,
  MatchCommand, Server,
}
use argentum_online_taller_g.Server.Exec.{Exec, ◌>>=◌, conn, recv, set_conn}
use argentum_online_taller_g.Server.Lobby
use argentum_online_taller_g.Server.Lobby.{is_in_match}
use argentum_online_taller_g.Server.Receiver.{Detail, break, round, handle, finish}
use argentum_online_taller_g.Server.Seats.{
  SameSeats-IsSeated, is_inside, room, IsSeated, same_places,
}
use argentum_online_taller_g.Protocol.Updates.{GameUpdate}
use argentum_online_taller_g.Server.Ticks.{tick_match}
use argentum_online_taller_g.Server.Rounds.Ticking.{tick_match-SameSeats}
use argentum_online_taller_g.Server.Quiet.{IsQuiet-recv, IsQuiet-pure}
use argentum_online_taller_g.Server.Rounds.Opening.{new_server-IsSeated}
use argentum_online_taller_g.Server.Rounds.Leaving.{leave_match_lem, leave-IsSeated}
use argentum_online_taller_g.Server.Rounds.Handlers.{Keeps, Keeps-quiet, Keeps-after}
use argentum_online_taller_g.Server.Rounds.Loop.{Keeps-if, Keeps-handle}

is_in_match_lem : (st : ConnState) → is_in_match st ≡ true → st ≡ in_match
unfolding is_in_match
is_in_match_lem in_match h = refl
is_in_match_lem connected h = ground (arith, h)
is_in_match_lem authenticated h = ground (arith, h)
is_in_match_lem disconnecting h = ground (arith, h)

module _ {W Save : Type 0} where
  Keeps-conn :
      {A : Type 0} {c : ℕ} {st : ConnState} (f : PlayerConnection → Exec W Save A)
      → ((k : PlayerConnection) → k.state ≡ st → Keeps c st (f k))
      → Keeps c st (conn c >>= f)
  unfolding ◌>>=◌ conn
  Keeps-conn {c} f h = record { at = λ s b r. (h (s.conns c) r.state).at s b r }

module _ {W Save : Type 0} (worlds : Worlds W Save) (text : Detail → Bytes) where
  Keeps-round : (st : ConnState) (c : ℕ) → Keeps c st (round worlds text c)
  unfolding round
  Keeps-round st c = Keeps-after (recv _) _ (IsQuiet-recv _) (λ op. Keeps-conn _ (λ k e.
      Keeps-if worlds text _ _ _ (Keeps-quiet _ (IsQuiet-pure break)) (
        subst (λ x. Keeps c x (handle worlds text k.state c op)) e
          (Keeps-handle worlds text k.state c op))))

  pub round-IsSeated :
      (c : ℕ) (s : Server W Save) (b : Bytes)
      → IsSeated s
      → s.next_match_id ≢ 0
      → IsSeated (round worlds text c s b).1
  round-IsSeated c s b h n =
      (Keeps-round (s.conns c).state c).at s b (record { seated = h; state = refl; counter = n })

  finished_outside :
      (c i : ℕ) (s : Server W Save) → is_inside i ((finish worlds text c s).conns c) ≡ false
  unfolding finish Lobby.disconnect set_conn is_inside is_in_match
  finished_outside c i s = rw ((==_iff c c).1 refl) refl

  module _ (c : ℕ) (s : Server W Save) where
    -- What `disconnect` does first.
    abbrev away : Server W Save
    away = if is_in_match (s.conns c).state then Lobby.leave_match worlds c s else s

    finished_others :
        (d i : ℕ)
        → (d == c) ≡ false
        → is_inside i ((finish worlds text c s).conns d) ≡ is_inside i (away.conns d)
    unfolding finish Lobby.disconnect set_conn
    finished_others d i n = rw n refl

    finished_rooms : (i : ℕ) → room i (finish worlds text c s) ≡ room i away
    unfolding finish Lobby.disconnect set_conn room
    finished_rooms i = refl

    pub finish-IsSeated : IsSeated s → IsSeated (finish worlds text c s)
    unfolding is_inside
    finish-IsSeated h = elim (Bool-cases (is_in_match (s.conns c).state)) [
      | inl t ↦
          let v = Lobby.leave_match worlds c s in
          let e : away ≡ v = rw t refl in
          leave-IsSeated c s v (finish worlds text c s) h (leave_match_lem worlds c s h (inside t))
            (inside t) (λ i. finished_rooms i ∙ ap (room i) e)
            (λ d i n. finished_others d i n ∙ ap (λ x. is_inside i (x.conns d)) e)
            (λ i. finished_outside c i s)
      | inr f ↦
          let e : away ≡ s = rw f refl in
          same_places s (finish worlds text c s)
            (λ d i. elim (Bool-cases (d == c)) [
              | inl t ↦
                  subst
                    (λ x. is_inside i ((finish worlds text c s).conns x) ≡ is_inside i (s.conns x))
                    (sym ((==_iff d c).0 t)) (finished_outside c i s ∙ rw f refl)
              | inr n ↦ finished_others d i n ∙ ap (λ x. is_inside i (x.conns d)) e
            ])
            (λ i. finished_rooms i ∙ ap (room i) e) h
    ]
      where
        inside : is_in_match (s.conns c).state ≡ true → (s.conns c).state ≡ in_match
        inside t = is_in_match_lem (s.conns c).state t

  module _ (execute : MatchCommand Save → W → List GameUpdate × W) where
    -- The states that rounds and ends of the loops of any connections and ticks of any matches, in any
    -- order, lead to, as long as the counter of the matches has not come round to 0.
    pub data Reaches (s : Server W Save) : Server W Save → Type 0 where
      start : Reaches s s
      after_round :
          (t : Server W Save) (c : ℕ) (b : Bytes)
          → Reaches s t
          → t.next_match_id ≢ 0
          → Reaches s (round worlds text c t b).1
      after_end : (t : Server W Save) (c : ℕ) → Reaches s t → Reaches s (finish worlds text c t)
      after_tick : (t : Server W Save) (i : ℕ) → Reaches s t → Reaches s (tick_match execute i t)

    Reaches-IsSeated : (s t : Server W Save) → Reaches s t → IsSeated s → IsSeated t
    Reaches-IsSeated s _ start h = h
    Reaches-IsSeated s _ (after_round t c b r n) h =
        round-IsSeated c t b (Reaches-IsSeated s t r h) n
    Reaches-IsSeated s _ (after_end t c r) h = finish-IsSeated c t (Reaches-IsSeated s t r h)
    Reaches-IsSeated s _ (after_tick t i r) h =
        SameSeats-IsSeated t (tick_match execute i t) (tick_match-SameSeats execute i t)
          (Reaches-IsSeated s t r h)

    -- From the start of the server with fewer than 2 ^ 32 - 1 saved matches, in every state that rounds
    -- and ends of the loops of any connections and ticks of any matches lead to, in any order, as long
    -- as the counter of the matches is not 0 when a round starts: a connection is in a match exactly if
    -- the match has it among its players, and the count of the players of a match is right, never above
    -- the most that it admits, with no player twice.
    pub reached-IsSeated :
        (saved : List (Bytes × ℕ)) (t : Server W Save)
        → length saved + 1 < 2 ^ 32
        → Reaches (Lobby.new_server worlds saved) t
        → IsSeated t
    reached-IsSeated saved t l r =
        Reaches-IsSeated (Lobby.new_server worlds saved) t r (new_server-IsSeated worlds saved l)
