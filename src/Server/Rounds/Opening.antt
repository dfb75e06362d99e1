-- ===== src/Server/Rounds/Opening.antt =====
-- server/server.cpp and server/game/basic_match.cpp: matches that are made, by a client or from the saved ones.
use mathlib.Core.Option.{some-injective}
use argentum_online_taller_g.Prelude.{
  ℕ, ◌+◌, ◌%◌, ◌^◌, ◌<◌, ◌≡◌, ◌≢◌, refl, sym, ◌∙◌, ap, subst, false, none, some, List, [], ◌∷◌,
  length, ◌==◌, ==_iff, Bool-cases, Option-cases, inl, inr, if◌then◌else◌, lookup, member, Bytes,
  arith,
}
use argentum_online_taller_g.Server.State.{new_connection, Worlds, Match, Server}
use argentum_online_taller_g.Server.Matches
use argentum_online_taller_g.Server.Lobby
use argentum_online_taller_g.Server.Lobby.{is_in_match}
use argentum_online_taller_g.Server.Seats.{
  Room, IsRoom, is_inside, holds, same_places, room, room_of, maybe_room, IsSeated,
}
use argentum_online_taller_g.Server.Rounds.{room-insert}

abbrev fresh_room : ℕ → Room
fresh_room max_players = record {
  players = [];
  current_players = 0;
  max_players = max_players % 256;
}

module _ {W Save : Type 0} where
  -- A match that did not exist, with nobody in it.
  fresh-IsSeated :
      (s t : Server W Save) (match_id max_players : ℕ)
      → match_id ≢ 0
      → room match_id s ≡ none
      → ((i : ℕ) → room i t ≡ (if match_id == i then some (fresh_room max_players) else room i s))
      → ((d i : ℕ) → is_inside i (t.conns d) ≡ is_inside i (s.conns d))
      → IsSeated s
      → IsSeated t
  unfolding holds member
  fresh-IsSeated s t match_id max_players positive absent rooms inside h = record {
    agrees = λ d i. inside d i ∙ h.agrees d i ∙ sym (ap (holds d) (rooms i) ∙ nobody d i);
    sound = λ i r e. elim (Bool-cases (match_id == i)) [
      | inl x ↦
          subst IsRoom (some-injective (fresh_room max_players) r (sym (rooms i ∙ rw x refl) ∙ e))
            empty
      | inr n ↦ h.sound i r (sym (rooms i ∙ rw n refl) ∙ e)
    ];
    no_zero = rooms 0 ∙ rw not_zero h.no_zero;
  }
    where
      empty : IsRoom (fresh_room max_players)
      empty = record { counted = refl; fits = ground arith; small = omega arith; unique = tt }

      not_zero : (match_id == 0) ≡ false
      not_zero = ground (arith, positive)

      nobody :
          (d i : ℕ)
          → holds d (if match_id == i then some (fresh_room max_players) else room i s)
            ≡ holds d (room i s)
      nobody d i = elim (Bool-cases (match_id == i)) [
        | inl x ↦ rw (x, sym ((==_iff match_id i).0 x), absent) refl
        | inr n ↦ rw n refl
      ]

  emplace-IsSeated :
      (s : Server W Save) (match_id next max_players : ℕ) (m : Match W Save)
      → IsSeated s
      → match_id ≢ 0
      → room_of m ≡ fresh_room max_players
      → IsSeated (record s { matches = Lobby.emplace match_id m s.matches; next_match_id = next })
  unfolding Lobby.emplace room maybe_room
  emplace-IsSeated s match_id next max_players m h n fresh =
      let t : Server W Save = record s {
        matches = Lobby.emplace match_id m s.matches;
        next_match_id = next;
      } in
      elim (Option-cases (lookup match_id s.matches)) [
        | inl e ↦
            fresh-IsSeated s t match_id max_players n (rw e refl)
              (λ i. rw (e, Lobby.emplace) (room-insert i match_id m s ∙ rw fresh refl))
              (λ d i. refl) h
        | inr (old, e) ↦ same_places s t (λ d i. refl) (λ i. rw (e, Lobby.emplace) refl) h
      ]

  pub create_match-IsSeated :
      (worlds : Worlds W Save) (name : Bytes) (max_players : ℕ) (s : Server W Save)
      → IsSeated s
      → s.next_match_id ≢ 0
      → IsSeated (Lobby.create_match worlds name max_players s).1
  unfolding Lobby.create_match Matches.new_match room_of
  create_match-IsSeated worlds [] max_players s h n = h
  create_match-IsSeated worlds (x ∷ name) max_players s h n = elim (Bool-cases (max_players == 0)) [
    | inl z ↦ rw z h
    | inr z ↦ elim (Bool-cases (Lobby.is_named (x ∷ name) s.matches)) [
      | inl u ↦ rw (z, u) h
      | inr u ↦
          rw (z, u)
            (emplace-IsSeated s s.next_match_id ((s.next_match_id + 1) % 2 ^ 32) max_players
              (Matches.new_match s.next_match_id (x ∷ name) max_players worlds.world_factory) h n
              refl)
    ]
  ]

  empty_server-IsSeated : IsSeated {W = W} {Save = Save} Lobby.empty_server
  unfolding Lobby.empty_server is_inside holds room maybe_room lookup new_connection is_in_match
  empty_server-IsSeated = record {
    agrees = λ c i. refl;
    sound = λ i r e. ground (arith, e);
    no_zero = refl;
  }

  load_matches-IsSeated :
      (worlds : Worlds W Save) (saved : List (Bytes × ℕ)) (s : Server W Save)
      → IsSeated s
      → s.next_match_id ≢ 0
      → s.next_match_id + length saved < 2 ^ 32
      → IsSeated (Lobby.load_matches worlds saved s)
        × ((Lobby.load_matches worlds saved s).next_match_id ≢ 0)
  unfolding Lobby.load_matches Matches.new_match room_of
  load_matches-IsSeated worlds [] s h n l = (h, n)
  load_matches-IsSeated worlds ((name, max_players) ∷ saved) s h n l =
      let next = (s.next_match_id + 1) % 2 ^ 32 in
      let m : Match W Save =
        Matches.new_match s.next_match_id name max_players worlds.world_factory in
      load_matches-IsSeated worlds saved
        (record s { next_match_id = next; matches = Lobby.emplace s.next_match_id m s.matches })
        (emplace-IsSeated s s.next_match_id next max_players m h n refl) (omega (arith, l, n))
        (omega (arith, l, n))

  pub new_server-IsSeated :
      (worlds : Worlds W Save) (saved : List (Bytes × ℕ))
      → length saved + 1 < 2 ^ 32
      → IsSeated (Lobby.new_server worlds saved)
  unfolding Lobby.new_server Lobby.empty_server
  new_server-IsSeated worlds saved l =
      (load_matches-IsSeated worlds saved Lobby.empty_server empty_server-IsSeated
        (λ e. ground (arith, e)) (omega (arith, l))).0
