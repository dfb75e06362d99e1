-- ===== src/Server/Rounds/Joining.antt =====
-- server/server.cpp and server/game/basic_match.cpp: a player that joins a match.
use mathlib.Core.Option.{some-injective}
use argentum_online_taller_g.Prelude.{
  ℕ, ◌+◌, ◌%◌, ◌≡◌, refl, sym, ◌∙◌, ap, true, false, some, List, [], ◌∷◌, ◌++◌, ◌==◌, leb,
  Bool-cases, inl, inr, if◌then◌else◌, lookup, insert, member, length-append, arith,
}
use argentum_online_taller_g.Server.State.{authenticated, in_match, Match, Server}
use argentum_online_taller_g.Server.Matches
use argentum_online_taller_g.Server.Lobby.{is_in_match}
use argentum_online_taller_g.Server.Seats.{
  Room, IsRoom, is_inside, holds, room, room_of, maybe_room, IsSeated,
}
use argentum_online_taller_g.Server.Moves.{member-append, append-Unique, move-IsSeated}
use argentum_online_taller_g.Server.Rounds.{seat, seat_others, seat_mine, seat_rooms, room-insert}

abbrev joined_room : ℕ → Room → Room
joined_room c r = record r {
  players = r.players ++ c ∷ [];
  current_players = (r.current_players + 1) % 256;
}

joined_room-IsRoom :
    (c : ℕ) (r : Room)
    → IsRoom r
    → leb r.max_players r.current_players ≡ false
    → member c r.players ≡ false
    → IsRoom (joined_room c r)
joined_room-IsRoom c r h free absent = record {
  counted = ground (arith, h.counted, h.small, free, length-append r.players (c ∷ []));
  fits = ground (arith, h.counted, free, length-append r.players (c ∷ []));
  small = h.small;
  unique = append-Unique c r.players absent h.unique;
}

present_last : (c : ℕ) (cs : List ℕ) → true ≡ member c (cs ++ c ∷ [])
present_last c cs = rw (member-append c c cs) (ground arith)

module _ {W Save : Type 0} where
  abbrev joined_match : ℕ → Match W Save → Match W Save
  joined_match c m = record m {
    players = m.players ++ c ∷ [];
    current_players = (m.current_players + 1) % 256;
  }

  add_player_lem :
      (c : ℕ) (m n : Match W Save)
      → Matches.add_player c m ≡ some n
      → (leb m.max_players m.current_players ≡ false) × (room_of n ≡ joined_room c (room_of m))
  unfolding Matches.add_player Matches.is_full room_of
  add_player_lem c m n a = elim (Bool-cases (leb m.max_players m.current_players)) [
    | inl full ↦ ground (arith, full, a)
    | inr free ↦
        let e : Matches.add_player c m ≡ some (joined_match c m) = rw free refl in
        (free, ap room_of (sym (some-injective (joined_match c m) n (sym e ∙ a))))
  ]

  pub join-IsSeated :
      (s : Server W Save) (c match_id : ℕ) (m n : Match W Save)
      → IsSeated s
      → (s.conns c).state ≡ authenticated
      → lookup match_id s.matches ≡ some m
      → Matches.add_player c m ≡ some n
      → IsSeated (seat c in_match match_id (record s { matches = insert match_id n s.matches }))
  unfolding room maybe_room room_of is_inside holds is_in_match
  join-IsSeated s c match_id m n h st e a =
      let was : room match_id s ≡ some (room_of m) = rw e refl in
      let outside : (i : ℕ) → holds c (room i s) ≡ false = λ i. sym (h.agrees c i) ∙ rw st refl in
      let absent : member c m.players ≡ false = sym (ap (holds c) was) ∙ outside match_id in
      let (free, now) = add_player_lem c m n a in
      let u : Server W Save = record s { matches = insert match_id n s.matches } in
      move-IsSeated s (seat c in_match match_id u) c match_id (room_of m)
        (joined_room c (room_of m)) was
        (λ i. seat_rooms c i match_id in_match u ∙ room-insert i match_id n s ∙ rw now refl)
        (λ d i x. ap (is_inside i) (seat_others c d match_id in_match u x))
        (λ i. seat_mine c i match_id in_match u ∙ mine i (outside i))
        (λ d x. member-append d c m.players ∙ ground (arith, x))
        (joined_room-IsRoom c (room_of m) (h.sound match_id (room_of m) was) free absent) h
    where
      mine :
          (i : ℕ)
          → holds c (room i s) ≡ false
          → (match_id == i)
            ≡ (if match_id == i then member c (m.players ++ c ∷ []) else holds c (room i s))
      mine i x = elim (Bool-cases (match_id == i)) [
        | inl t ↦ rw t (present_last c m.players)
        | inr f ↦ rw f (sym x)
      ]
