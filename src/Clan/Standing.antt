-- ===== src/Clan/Standing.antt =====
-- server/game/clan.cpp: a clan as what each player is to it, and a small state machine on that.
use argentum_online_taller_g.Prelude.{
  ℕ, ◌≡◌, Bool, true, false, not, Option, none, some, arith, ◌==◌, if◌then◌else◌, member,
  member-add_member, member-remove_member,
}
use argentum_online_taller_g.Prelude.Int.{ℤ}
use argentum_online_taller_g.Clan.{
  Clan, is_full, request_join, accept, reject, ban, kick, leave, ClanStep, request_join_step,
  leave_step, accept_step, reject_step, ban_step, kick_step, apply,
}
use argentum_online_taller_g.Clan.Valid.{IsValid}

-- What a player is to a clan.
pub data Standing : Type 0 where
  outside asking joined barred : Standing

unfoldable pub standing : Clan → ℕ → Standing
standing c id =
    if member id c.members
    then joined
    else if member id c.pending
    then asking
    else if member id c.banned
    then barred
    else outside

-- The player that an operation is about, and whether whoever calls it has the right to.
unfoldable pub subject : ClanStep → ℕ
subject (request_join_step k) = k
subject (leave_step k) = k
subject (accept_step j k) = k
subject (reject_step j k) = k
subject (ban_step j k) = k
subject (kick_step j k) = k

unfoldable pub entitled : ℕ → ClanStep → Bool
entitled founder (request_join_step k) = true
entitled founder (leave_step k) = not (k == founder)
entitled founder (accept_step j k) = j == founder
entitled founder (reject_step j k) = j == founder
entitled founder (ban_step j k) = if j == founder then not (k == founder) else false
entitled founder (kick_step j k) = if j == founder then not (k == founder) else false

-- What the player becomes, by what it is and by whether the clan is full; `none` refuses.
unfoldable pub move : Bool → ClanStep → Standing → Option Standing
move full (request_join_step k) outside = if full then none else some asking
move full (accept_step j k) asking = if full then none else some joined
move full (reject_step j k) asking = some outside
move full (ban_step j k) _ = some barred
move full (kick_step j k) joined = some outside
move full (leave_step k) joined = some outside
move full _ _ = none

-- The move of an operation on a clan, if it has one.
unfoldable pub allowed_move : ℤ → ClanStep → Clan → Option Standing
allowed_move max s c =
    if entitled c.founder_id s then move (is_full max c) s (standing c (subject s)) else none

unfoldable pub is_allowed : Option Standing → Bool
is_allowed none = false
is_allowed (some next) = true

-- The standing after a move, which without a move is the one before.
unfoldable pub moved : Option Standing → Standing → Standing
moved none before = before
moved (some next) before = next

-- What the operations promise: success is having a move, the player gets the standing of the
-- move, nobody else's changes, and a failure leaves the clan as it is.
abbrev pub Follows : ℤ → ClanStep → Clan → (Bool × Clan) → Type 0
Follows max s c out =
    (out.0 ≡ is_allowed (allowed_move max s c))
    × ((id : ℕ)
        → standing out.1 id ≡ (
            if id == subject s
            then moved (allowed_move max s c) (standing c id)
            else standing c id))
    × (out.0 ≡ false → out.1 ≡ c)

request_join-Follows :
    (max : ℤ) (k : ℕ) (c : Clan) → Follows max (request_join_step k) c (request_join max k c)
unfolding request_join allowed_move entitled move subject standing is_allowed moved
request_join-Follows max k c =
    (ground arith, λ id. ground (arith, member-add_member id k c.pending), λ h. ground (arith, h))

accept-Follows :
    (max : ℤ) (j k : ℕ) (c : Clan)
    → IsValid max c
    → Follows max (accept_step j k) c (accept max j k c)
unfolding accept allowed_move entitled move subject standing is_allowed moved
accept-Follows max j k c (f, mp, mb, pb, size) = (
  ground (arith, mp k),
  λ id. ground (arith, mp k, member-add_member id k c.members, member-remove_member id k c.pending),
  λ h. ground (arith, h),
)

reject-Follows :
    (max : ℤ) (j k : ℕ) (c : Clan) → IsValid max c → Follows max (reject_step j k) c (reject j k c)
unfolding reject allowed_move entitled move subject standing is_allowed moved
reject-Follows max j k c (f, mp, mb, pb, size) = (
  ground (arith, mp k),
  λ id. ground (arith, mp k, pb k, member-remove_member id k c.pending),
  λ h. ground (arith, h),
)

ban-Follows : (max : ℤ) (j k : ℕ) (c : Clan) → Follows max (ban_step j k) c (ban j k c)
unfolding ban allowed_move entitled move subject standing is_allowed moved
ban-Follows max j k c = (
  ground arith,
  λ id. ground (
    arith,
    member-remove_member id k c.members,
    member-remove_member id k c.pending,
    member-add_member id k c.banned,
  ),
  λ h. ground (arith, h),
)

kick-Follows :
    (max : ℤ) (j k : ℕ) (c : Clan) → IsValid max c → Follows max (kick_step j k) c (kick j k c)
unfolding kick allowed_move entitled move subject standing is_allowed moved
kick-Follows max j k c (f, mp, mb, pb, size) = (
  ground arith,
  λ id. ground (arith, mp k, mb k, member-remove_member id k c.members),
  λ h. ground (arith, h),
)

leave-Follows :
    (max : ℤ) (k : ℕ) (c : Clan) → IsValid max c → Follows max (leave_step k) c (leave k c)
unfolding leave allowed_move entitled move subject standing is_allowed moved
leave-Follows max k c (f, mp, mb, pb, size) = (
  ground arith,
  λ id. ground (arith, mp k, mb k, member-remove_member id k c.members),
  λ h. ground (arith, h),
)

-- On a valid clan every operation is the move of a state machine on the players' standings: it
-- succeeds exactly where the caller is entitled to it and the machine has a move, the player
-- that it is about gets the standing of the move, everyone else keeps theirs, and a refused
-- operation leaves the clan as it is.
pub apply-Follows :
    (max : ℤ) (s : ClanStep) (c : Clan) → IsValid max c → Follows max s c (apply max s c)
unfolding apply
apply-Follows max (request_join_step k) c v = request_join-Follows max k c
apply-Follows max (leave_step k) c v = leave-Follows max k c v
apply-Follows max (accept_step j k) c v = accept-Follows max j k c v
apply-Follows max (reject_step j k) c v = reject-Follows max j k c v
apply-Follows max (ban_step j k) c v = ban-Follows max j k c
apply-Follows max (kick_step j k) c v = kick-Follows max j k c v
