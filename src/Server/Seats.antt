-- ===== src/Server/Seats.antt =====
-- server/server.cpp and server/game/basic_match.cpp: who is in which match.
use argentum_online_taller_g.Prelude.{
  ℕ, ◌≤◌, ◌<◌, ◌≡◌, refl, sym, ◌∙◌, ap, Bool, false, ◌&&◌, Option, none, some, List, [], ◌∷◌,
  length, ◌==◌, lookup, member,
}
use argentum_online_taller_g.Server.State.{PlayerConnection, Match, Server}
use argentum_online_taller_g.Server.Lobby.{is_in_match}

-- What the match keeps of its players.
pub record Room : Type 0 where
  pub players : List ℕ
  pub current_players : ℕ
  pub max_players : ℕ

-- No connection stands twice.
abbrev pub Unique : List ℕ → Type 0
Unique [] = Unit
Unique (c ∷ cs) = (member c cs ≡ false) × Unique cs

-- The count is that of the players, who are no more than the match admits, each one once.
pub record IsRoom (r : Room) : Type 0 where
  pub counted : r.current_players ≡ length r.players
  pub fits : length r.players ≤ r.max_players
  pub small : r.max_players < 256
  pub unique : Unique r.players

-- The connection is in this match.
unfoldable pub is_inside : ℕ → PlayerConnection → Bool
is_inside match_id k = is_in_match k.state && k.current_match_id == match_id

-- The match holds this connection.
unfoldable pub holds : ℕ → Option Room → Bool
holds c none = false
holds c (some r) = member c r.players

module _ {W Save : Type 0} where
  unfoldable pub room_of : Match W Save → Room
  room_of m = record {
    players = m.players;
    current_players = m.current_players;
    max_players = m.max_players;
  }

  unfoldable pub maybe_room : Option (Match W Save) → Option Room
  maybe_room none = none
  maybe_room (some m) = some (room_of m)

  unfoldable pub room : ℕ → Server W Save → Option Room
  room match_id s = maybe_room (lookup match_id s.matches)

  -- The connections that think that they are in a match are those that the match holds, every match
  -- is sound, and no match has the id that stands for none.
  pub record IsSeated (s : Server W Save) : Type 0 where
    pub agrees : (c match_id : ℕ) → is_inside match_id (s.conns c) ≡ holds c (room match_id s)
    pub sound : (match_id : ℕ) (r : Room) → room match_id s ≡ some r → IsRoom r
    pub no_zero : room 0 s ≡ none

  -- The same connections are in the same matches, and the next match has the same id.
  pub record SameSeats (s t : Server W Save) : Type 0 where
    pub state : (c : ℕ) → (t.conns c).state ≡ (s.conns c).state
    pub match_id : (c : ℕ) → (t.conns c).current_match_id ≡ (s.conns c).current_match_id
    pub rooms : (i : ℕ) → room i t ≡ room i s
    pub next : t.next_match_id ≡ s.next_match_id

  pub SameSeats-refl : (s : Server W Save) → SameSeats s s
  SameSeats-refl s = record {
    state = λ c. refl;
    match_id = λ c. refl;
    rooms = λ i. refl;
    next = refl;
  }

  pub SameSeats-trans : (s t u : Server W Save) → SameSeats s t → SameSeats t u → SameSeats s u
  SameSeats-trans s t u x y = record {
    state = λ c. y.state c ∙ x.state c;
    match_id = λ c. y.match_id c ∙ x.match_id c;
    rooms = λ i. y.rooms i ∙ x.rooms i;
    next = y.next ∙ x.next;
  }

  pub SameSeats-IsSeated : (s t : Server W Save) → SameSeats s t → IsSeated s → IsSeated t
  unfolding is_inside
  SameSeats-IsSeated s t x h = record {
    agrees = λ c i. rw (x.state c, x.match_id c, x.rooms i) (h.agrees c i);
    sound = λ i r e. h.sound i r (sym (x.rooms i) ∙ e);
    no_zero = x.rooms 0 ∙ h.no_zero;
  }

  -- Everybody is in the same match as before, whatever the states are.
  pub same_places :
      (s t : Server W Save)
      → ((d i : ℕ) → is_inside i (t.conns d) ≡ is_inside i (s.conns d))
      → ((i : ℕ) → room i t ≡ room i s)
      → IsSeated s
      → IsSeated t
  same_places s t inside rooms h = record {
    agrees = λ d i. inside d i ∙ h.agrees d i ∙ sym (ap (holds d) (rooms i));
    sound = λ i r e. h.sound i r (sym (rooms i) ∙ e);
    no_zero = rooms 0 ∙ h.no_zero;
  }
