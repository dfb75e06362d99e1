-- ===== src/Server/Routing.antt =====
-- server/game/basic_match.cpp: what each connection gets of the updates that a match routes.
use argentum_online_taller_g.Prelude.{
  ℕ, ◌+◌, ◌≤◌, ◌<◌, ◌≡◌, refl, sym, ap, ◌∙◌, Bool, true, false, ◌&&◌, ◌||◌, List, [], ◌∷◌, ◌++◌,
  length, Bool-cases, inl, inr, ◌==◌, if◌then◌else◌, member, arith, subst,
}
use mathlib.Core.List.{append_assoc, append-nil}
use argentum_online_taller_g.Queue.{push}
use argentum_online_taller_g.Protocol.Updates.{GameUpdate, get_target_player_id}
use argentum_online_taller_g.Server.State.{PlayerConnection, Server}
use argentum_online_taller_g.Server.Exec.{set_conn, pushed}
use argentum_online_taller_g.Server.Matches.{broadcast, send_update_to_player}
use argentum_online_taller_g.Server.Seats.{Unique}
use argentum_online_taller_g.Server.Ticks.{route, route_all}

-- The update is for the connection `c` of a player `id`: `c` is in the match, and the update names
-- nobody or this player.
unfoldable pub is_for : List ℕ → (c id : ℕ) → GameUpdate → Bool
is_for players c id u =
    member c players && (get_target_player_id u == 0 || get_target_player_id u == id)

-- Those of the updates that are for the connection, in their order.
unfoldable pub inbox : List ℕ → (c id : ℕ) → List GameUpdate → List GameUpdate
inbox players c id [] = []
inbox players c id (u ∷ us) =
    let rest = inbox players c id us in if is_for players c id u then u ∷ rest else rest

-- The connection with these updates behind those that it has to send.
abbrev pub with_updates : List GameUpdate → PlayerConnection → PlayerConnection
with_updates us k = record k { send_queue = record (k.send_queue) { q = k.send_queue.q ++ us } }

-- No two connections of the match have the same player.
abbrev pub OneEach : {W Save : Type 0} → List ℕ → Server W Save → Type 0
OneEach players s =
    (c d : ℕ)
    → member c players ≡ true
    → member d players ≡ true
    → (s.conns c).player_id ≡ (s.conns d).player_id
    → c ≡ d

pushed-player_id : (u : GameUpdate) (k : PlayerConnection) → (pushed u k).player_id ≡ k.player_id
unfolding pushed
pushed-player_id u k = refl

-- An open connection with room stores what is pushed.
pushed-with_updates :
    (u : GameUpdate) (k : PlayerConnection)
    → k.send_queue.closed ≡ false
    → length k.send_queue.q < k.send_queue.max_size
    → pushed u k ≡ with_updates (u ∷ []) k
unfolding pushed push
pushed-with_updates u k o room =
    let full : (length k.send_queue.q == k.send_queue.max_size) ≡ false = ground (arith, room) in
    simp (o, full) refl

with_nothing : (k : PlayerConnection) → with_updates [] k ≡ k
with_nothing k =
    ap (λ q. record k { send_queue = record (k.send_queue) { q = q } }) (append-nil k.send_queue.q)

with_updates-append :
    (us vs : List GameUpdate) (k : PlayerConnection)
    → with_updates vs (with_updates us k) ≡ with_updates (us ++ vs) k
with_updates-append us vs k =
    ap (λ q. record k { send_queue = record (k.send_queue) { q = q } })
      (append_assoc k.send_queue.q us vs)

length-snoc : (l : List GameUpdate) (u : GameUpdate) → length (l ++ u ∷ []) ≡ length l + 1
length-snoc [] u = refl
length-snoc (v ∷ l) u = ground (arith, length-snoc l u)

module _ {W Save : Type 0} where
  set_conn-conns :
      (d c : ℕ) (k : PlayerConnection) (s : Server W Save)
      → (set_conn d k s).conns c ≡ (if c == d then k else s.conns c)
  unfolding set_conn
  set_conn-conns d c k s = refl

  broadcast-conns :
      (u : GameUpdate) (players : List ℕ) (c : ℕ) (s : Server W Save)
      → Unique players
      → (broadcast u players s).conns c
        ≡ (if member c players then pushed u (s.conns c) else s.conns c)
  unfolding broadcast member set_conn
  broadcast-conns u [] c s h = refl
  broadcast-conns u (d ∷ ds) c s h =
      let t : Server W Save = set_conn d (pushed u (s.conns d)) s in
      let step : (t.conns c) ≡ (if c == d then pushed u (s.conns d) else s.conns c) = refl in
      broadcast-conns u ds c t h.1 ∙ elim (Bool-cases (c == d)) [
        | inl e ↦
            let same : c ≡ d = ground (arith, e) in
            let no_more : member c ds ≡ false = rw same h.0 in
            let here : (d == c) ≡ true = ground (arith, e) in
            let alike : s.conns d ≡ s.conns c = ap s.conns (sym same) in
            simp (e, no_more, here, alike) refl
        | inr n ↦ let away : (d == c) ≡ false = ground (arith, n) in simp (n, away) refl
      ]

  send-conns :
      (u : GameUpdate) (id : ℕ) (players : List ℕ) (c : ℕ) (s : Server W Save)
      → OneEach players s
      → (send_update_to_player id u players s).conns c ≡ (
          if member c players && (id == (s.conns c).player_id)
          then pushed u (s.conns c)
          else s.conns c)
  unfolding send_update_to_player member set_conn
  send-conns u id [] c s h = refl
  send-conns u id (d ∷ ds) c s h = elim (Bool-cases ((s.conns d).player_id == id)) [
    | inl e ↦ elim (Bool-cases (c == d)) [
      | inl same ↦
          let eq : c ≡ d = ground (arith, same) in
          let here : (d == c) ≡ true = ground (arith, same) in
          let alike : s.conns d ≡ s.conns c = ap s.conns (sym eq) in
          let mine : (id == (s.conns c).player_id) ≡ true = rw (← alike) (ground (arith, e)) in
          let named : ((s.conns c).player_id == id) ≡ true = ground (arith, mine) in
          simp (same, here, alike, named, mine) refl
      | inr other ↦
          let away : (d == c) ≡ false = ground (arith, other) in
          let not_mine : (member c ds && (id == (s.conns c).player_id)) ≡ false =
            elim (Bool-cases (member c ds && (id == (s.conns c).player_id))) [
              | inr f ↦ f
              | inl both ↦
                  let held : member c (d ∷ ds) ≡ true = ground (arith, both) in
                  let first : member d (d ∷ ds) ≡ true = ground arith in
                  let one : (s.conns c).player_id ≡ (s.conns d).player_id =
                    ground (arith, both, e) in
                  ground (arith, h c d held first one, other)
            ] in
          simp (e, other, away, not_mine) refl
    ]
    | inr n ↦
        let rest : OneEach ds s = λ i j p q. h i j (ground (arith, p)) (ground (arith, q)) in
        let mine : Bool = id == (s.conns c).player_id in
        let tests : (member c ds && mine) ≡ (member c (d ∷ ds) && mine) =
          elim (Bool-cases (c == d)) [
            | inl same ↦
                let eq : c ≡ d = ground (arith, same) in
                let alike : s.conns d ≡ s.conns c = ap s.conns (sym eq) in
                let other : (id == (s.conns c).player_id) ≡ false =
                  rw (← alike) (ground (arith, n)) in
                ground (arith, other)
            | inr away ↦ let back : (d == c) ≡ false = ground (arith, away) in ground (arith, back)
          ] in
        let first : (send_update_to_player id u (d ∷ ds) s).conns c
            ≡ (send_update_to_player id u ds s).conns c =
          simp n refl in
        first
        ∙ send-conns u id ds c s rest
        ∙ ap (λ b. if b then pushed u (s.conns c) else s.conns c) tests
  ]

  route-conns :
      (u : GameUpdate) (players : List ℕ) (c : ℕ) (s : Server W Save)
      → Unique players
      → OneEach players s
      → (route u players s).conns c
        ≡ (if is_for players c (s.conns c).player_id u then pushed u (s.conns c) else s.conns c)
  unfolding route is_for
  route-conns u players c s h one = elim (Bool-cases (get_target_player_id u == 0)) [
    | inl e ↦
        let all : (route u players s).conns c ≡ (broadcast u players s).conns c = simp e refl in
        let tests : member c players ≡ is_for players c (s.conns c).player_id u =
          simp e (ground arith) in
        all
        ∙ broadcast-conns u players c s h
        ∙ ap (λ b. if b then pushed u (s.conns c) else s.conns c) tests
    | inr n ↦
        let id : ℕ = get_target_player_id u in
        let named : (route u players s).conns c ≡ (send_update_to_player id u players s).conns c =
          simp n refl in
        let tests : (member c players && (id == (s.conns c).player_id))
            ≡ is_for players c (s.conns c).player_id u =
          simp n refl in
        named
        ∙ send-conns u id players c s one
        ∙ ap (λ b. if b then pushed u (s.conns c) else s.conns c) tests
  ]

  route-player_id :
      (u : GameUpdate) (players : List ℕ) (c : ℕ) (s : Server W Save)
      → Unique players
      → OneEach players s
      → ((route u players s).conns c).player_id ≡ (s.conns c).player_id
  route-player_id u players c s h one =
      let mine : Bool = is_for players c (s.conns c).player_id u in
      ap (λ (k : PlayerConnection). k.player_id) (route-conns u players c s h one)
      ∙ elim (Bool-cases mine) [ inl t ↦ rw t (pushed-player_id u (s.conns c)) | inr f ↦ rw f refl ]

  route-OneEach :
      (u : GameUpdate) (players : List ℕ) (s : Server W Save)
      → Unique players
      → OneEach players s
      → OneEach players (route u players s)
  route-OneEach u players s h one = λ c d p q e.
      one c d p q
        (sym (route-player_id u players c s h one) ∙ e ∙ route-player_id u players d s h one)

  pub delivered :
      (us : List GameUpdate) (players : List ℕ) (c : ℕ) (s : Server W Save) (k : PlayerConnection)
      → Unique players
      → OneEach players s
      → s.conns c ≡ k
      → k.send_queue.closed ≡ false
      → length k.send_queue.q + length (inbox players c k.player_id us) ≤ k.send_queue.max_size
      → (route_all us players s).conns c ≡ with_updates (inbox players c k.player_id us) k
  unfolding route_all inbox
  delivered [] players c s k h one e o room = e ∙ sym (with_nothing k)
  delivered (u ∷ us) players c s k h one e o room =
      let routed : (route u players s).conns c
          ≡ (if is_for players c k.player_id u then pushed u k else k) =
        subst
          (λ x.
            (route u players s).conns c
            ≡ (if is_for players c x.player_id u then pushed u x else x))
          e (route-conns u players c s h one) in
      let still : OneEach players (route u players s) = route-OneEach u players s h one in
      elim (Bool-cases (is_for players c k.player_id u)) [
        | inl t ↦
            let more : length k.send_queue.q + length (u ∷ inbox players c k.player_id us)
                ≤ k.send_queue.max_size =
              rw (inbox, t) at room in
            let stored : pushed u k ≡ with_updates (u ∷ []) k =
              pushed-with_updates u k o (omega (arith, more)) in
            let now : (route u players s).conns c ≡ with_updates (u ∷ []) k =
              routed ∙ rw t stored in
            rw t (
              delivered us players c (route u players s) (with_updates (u ∷ []) k) h still now o
                (omega (arith, more, length-snoc k.send_queue.q u))
              ∙ with_updates-append (u ∷ []) (inbox players c k.player_id us) k)
        | inr f ↦
            let same : (route u players s).conns c ≡ k = routed ∙ rw f refl in
            let less : length k.send_queue.q + length (inbox players c k.player_id us)
                ≤ k.send_queue.max_size =
              rw (inbox, f) at room in
            rw f (delivered us players c (route u players s) k h still same o less)
      ]

  broadcast-rest :
      (u : GameUpdate) (players : List ℕ) (s : Server W Save)
      → broadcast u players s ≡ record s { conns = (broadcast u players s).conns }
  unfolding broadcast set_conn
  broadcast-rest u [] s = refl
  broadcast-rest u (c ∷ cs) s = broadcast-rest u cs (set_conn c (pushed u (s.conns c)) s)

  send-rest :
      (id : ℕ) (u : GameUpdate) (players : List ℕ) (s : Server W Save)
      → send_update_to_player id u players s
        ≡ record s { conns = (send_update_to_player id u players s).conns }
  unfolding send_update_to_player set_conn
  send-rest id u [] s = refl
  send-rest id u (c ∷ cs) s = elim (Bool-cases ((s.conns c).player_id == id)) [
    | inl e ↦ simp e refl
    | inr n ↦ simp n (send-rest id u cs s)
  ]

  route-rest :
      (u : GameUpdate) (players : List ℕ) (s : Server W Save)
      → route u players s ≡ record s { conns = (route u players s).conns }
  unfolding route
  route-rest u players s = elim (Bool-cases (get_target_player_id u == 0)) [
    | inl e ↦ simp e (broadcast-rest u players s)
    | inr n ↦ simp n (send-rest (get_target_player_id u) u players s)
  ]

  pub route_all-rest :
      (us : List GameUpdate) (players : List ℕ) (s : Server W Save)
      → route_all us players s ≡ record s { conns = (route_all us players s).conns }
  unfolding route_all
  route_all-rest [] players s = refl
  route_all-rest (u ∷ us) players s =
      route_all-rest us players (route u players s)
      ∙ ap
          (λ (t : Server W Save). record t {
            conns = (route_all us players (route u players s)).conns;
          })
          (route-rest u players s)

  pub route_all-append :
      (us vs : List GameUpdate) (players : List ℕ) (s : Server W Save)
      → route_all (us ++ vs) players s ≡ route_all vs players (route_all us players s)
  unfolding route_all
  route_all-append [] vs players s = refl
  route_all-append (u ∷ us) vs players s = route_all-append us vs players (route u players s)
