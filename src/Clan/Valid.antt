-- ===== src/Clan/Valid.antt =====
-- server/game/clan.cpp: when a clan is valid, and its operations on valid clans.
use argentum_online_taller_g.Prelude.{
  ℕ, suc, ◌≤◌, ◌≡◌, refl, Bool, true, false, List, [], ◌∷◌, Bytes, arith, length, member,
  add_member, remove_member, member-add_member, member-remove_member,
}
use argentum_online_taller_g.Prelude.Int.{ℤ, pos, ◌≤ℤ◌}
use argentum_online_taller_g.Clan.{
  Clan, new_clan, is_full, request_join, accept, reject, ban, kick, leave, ClanStep,
  request_join_step, leave_step, accept_step, reject_step, ban_step, kick_step, apply, apply_all,
}

-- Nobody is at once two of a member, a player who asks to join and a banned one.
abbrev pub Disjoint : List ℕ → List ℕ → Type 0
Disjoint s t = (id : ℕ) → member id s ≡ true → member id t ≡ false

-- The founder is a member, nobody is two things at once, and the clan is not over its size.
abbrev pub IsValid : ℤ → Clan → Type 0
IsValid max c =
    (member c.founder_id c.members ≡ true)
    × Disjoint c.members c.pending
    × Disjoint c.members c.banned
    × Disjoint c.pending c.banned
    × (pos (length c.members) ≤ℤ max)

length-add_member : (k : ℕ) (s : List ℕ) → length (add_member k s) ≤ suc (length s)
unfolding add_member
length-add_member k [] = ground arith
length-add_member k (i ∷ s) = ground (arith, length-add_member k s)

length-remove_member : (k : ℕ) (s : List ℕ) → length (remove_member k s) ≤ length s
unfolding remove_member
length-remove_member k [] = ground arith
length-remove_member k (i ∷ s) = ground (arith, length-remove_member k s)

pub new_clan-IsValid :
    (max : ℤ) (clan_id : ℕ) (name : Bytes) (founder_id : ℕ)
    → pos 1 ≤ℤ max
    → IsValid max (new_clan clan_id name founder_id)
unfolding new_clan add_member member
new_clan-IsValid max clan_id name founder_id h =
    (ground arith, λ id _. refl, λ id _. refl, λ id _. refl, h)

-- What an operation on clans has to preserve.
abbrev pub Preserves : ℤ → Clan → (Bool × Clan) → Type 0
Preserves max c out = IsValid max c → IsValid max out.1

pub request_join-IsValid : (max : ℤ) (k : ℕ) (c : Clan) → Preserves max c (request_join max k c)
unfolding request_join
request_join-IsValid max k c (f, mp, mb, pb, size) = (
  ground arith,
  λ id h. ground (arith, mp id, member-add_member id k c.pending, h),
  λ id h. ground (arith, mb id, h),
  λ id h. ground (arith, pb id, member-add_member id k c.pending, h),
  ground arith,
)

pub accept-IsValid : (max : ℤ) (j k : ℕ) (c : Clan) → Preserves max c (accept max j k c)
unfolding accept is_full
accept-IsValid max j k c (f, mp, mb, pb, size) = (
  ground (arith, member-add_member c.founder_id k c.members),
  λ id h.
      ground
        (arith, mp id, member-add_member id k c.members, member-remove_member id k c.pending, h),
  λ id h. ground (arith, mb id, pb id, member-add_member id k c.members, h),
  λ id h. ground (arith, pb id, member-remove_member id k c.pending, h),
  ground (arith, length-add_member k c.members),
)

pub reject-IsValid : (max : ℤ) (j k : ℕ) (c : Clan) → Preserves max c (reject j k c)
unfolding reject
reject-IsValid max j k c (f, mp, mb, pb, size) = (
  ground arith,
  λ id h. ground (arith, mp id, member-remove_member id k c.pending, h),
  λ id h. ground (arith, mb id, h),
  λ id h. ground (arith, pb id, member-remove_member id k c.pending, h),
  ground arith,
)

pub ban-IsValid : (max : ℤ) (j k : ℕ) (c : Clan) → Preserves max c (ban j k c)
unfolding ban
ban-IsValid max j k c (f, mp, mb, pb, size) = (
  ground (arith, member-remove_member c.founder_id k c.members),
  λ id h.
      ground
        (arith, mp id, member-remove_member id k c.members, member-remove_member id k c.pending, h),
  λ id h.
      ground
        (arith, mb id, member-remove_member id k c.members, member-add_member id k c.banned, h),
  λ id h.
      ground
        (arith, pb id, member-remove_member id k c.pending, member-add_member id k c.banned, h),
  ground (arith, length-remove_member k c.members),
)

pub kick-IsValid : (max : ℤ) (j k : ℕ) (c : Clan) → Preserves max c (kick j k c)
unfolding kick
kick-IsValid max j k c (f, mp, mb, pb, size) = (
  ground (arith, member-remove_member c.founder_id k c.members),
  λ id h. ground (arith, mp id, member-remove_member id k c.members, h),
  λ id h. ground (arith, mb id, member-remove_member id k c.members, h),
  λ id h. ground (arith, pb id, h),
  ground (arith, length-remove_member k c.members),
)

pub leave-IsValid : (max : ℤ) (k : ℕ) (c : Clan) → Preserves max c (leave k c)
unfolding leave
leave-IsValid max k c (f, mp, mb, pb, size) = (
  ground (arith, member-remove_member c.founder_id k c.members),
  λ id h. ground (arith, mp id, member-remove_member id k c.members, h),
  λ id h. ground (arith, mb id, member-remove_member id k c.members, h),
  λ id h. ground (arith, pb id, h),
  ground (arith, length-remove_member k c.members),
)

pub apply-IsValid :
    (max : ℤ) (s : ClanStep) (c : Clan) → IsValid max c → IsValid max (apply max s c).1
unfolding apply
apply-IsValid max (request_join_step k) c v = request_join-IsValid max k c v
apply-IsValid max (leave_step k) c v = leave-IsValid max k c v
apply-IsValid max (accept_step j k) c v = accept-IsValid max j k c v
apply-IsValid max (reject_step j k) c v = reject-IsValid max j k c v
apply-IsValid max (ban_step j k) c v = ban-IsValid max j k c v
apply-IsValid max (kick_step j k) c v = kick-IsValid max j k c v

apply_all_kept :
    (max : ℤ) (steps : List ClanStep) (c : Clan)
    → IsValid max c
    → IsValid max (apply_all max steps c)
unfolding apply_all
apply_all_kept max [] c v = v
apply_all_kept max (s ∷ steps) c v =
    apply_all_kept max steps (apply max s c).1 (apply-IsValid max s c v)

-- Whatever is done to a new clan, by whomever and in any order, its founder stays a member,
-- nobody is at once two of a member, a player who asks to join and a banned one, and the
-- members are never more than the clan's maximum. This takes a maximum of at least 1.
pub apply_all-IsValid :
    (max : ℤ) (steps : List ClanStep) (clan_id : ℕ) (name : Bytes) (founder_id : ℕ)
    → pos 1 ≤ℤ max
    → IsValid max (apply_all max steps (new_clan clan_id name founder_id))
apply_all-IsValid max steps clan_id name founder_id h =
    apply_all_kept max steps (new_clan clan_id name founder_id)
      (new_clan-IsValid max clan_id name founder_id h)
