-- ===== src/Protocol/Reads.antt =====
-- server/server_protocol.cpp and client/client_protocol.cpp: what is put is what is received.
use mathlib.Core.List.{append_assoc, append-nil}
use argentum_online_taller_g.Prelude.{
  ℕ, ◌+◌, ◌-◌, ◌*◌, ◌/◌, ◌%◌, ◌^◌, ◌<◌, ◌≡◌, refl, sym, ap, Bool, true, false, none, some, List, [],
  ◌∷◌, ◌++◌, map, Bytes, length, ltb, arith, All, subst,
}
use argentum_online_taller_g.Prelude.Int.{ℤ, pos, negsuc, ◌≤ℤ◌}
use argentum_online_taller_g.Protocol.Wire.{
  Write, ◌⊕◌, Recv, ◌>>=◌, give, put_u8, put_bool, put_u16, put_u32, i32_bits, bits_i32, put_i32,
  put_u64, put_string, put_each, recv_u8, recv_bool, recv_u16, recv_u32, recv_i32, recv_u64,
  recv_bytes, recv_string, recv_each,
}

-- The value is written, and the reader that gets it, followed by anything, reads it and stops there.
pub record Reads {ℓ} {A : Type ℓ} (w : Write) (r : Recv A) (a : A) : Type ℓ where
  pub out : Bytes
  pub written : w ≡ some out
  pub read : (rest : Bytes) → r (out ++ rest) ≡ some (a, rest)

abbrev pub IsU8 : ℕ → Type 0
IsU8 v = v < 256

abbrev pub IsU16 : ℕ → Type 0
IsU16 v = v < 65536

abbrev pub IsU32 : ℕ → Type 0
IsU32 v = v < 2 ^ 32

abbrev pub IsU64 : ℕ → Type 0
IsU64 v = v < 2 ^ 64

abbrev pub IsI32 : ℤ → Type 0
IsI32 v = (negsuc (2 ^ 31 - 1) ≤ℤ v) × (v ≤ℤ pos (2 ^ 31 - 1))

-- Short enough for `put_string`.
abbrev pub IsText : Bytes → Type 0
IsText s = length s < 65536

pub bind_some {ℓ κ} :
    {A : Type ℓ} {B : Type κ} (r : Recv A) (k : A → Recv B) {s t : Bytes} {a : A}
    → r s ≡ some (a, t)
    → (r >>= k) s ≡ k a t
unfolding ◌>>=◌
bind_some r k e = rw (e, ◌>>=◌) refl

pub Reads-then {ℓ κ} :
    {A : Type ℓ} {B : Type κ} {w w' : Write} {r : Recv A} {a : A} {b : B} (k : A → Recv B)
    → Reads w r a
    → Reads w' (k a) b
    → Reads (w ⊕ w') (r >>= k) b
unfolding ◌⊕◌
Reads-then {w} {w'} {r} {a} {b} k x y = record {
  out = x.out ++ y.out;
  written = rw (x.written, y.written) refl;
  read = λ rest.
      rw (append_assoc x.out y.out rest, bind_some r k (x.read (y.out ++ rest))) (y.read rest);
}

pub Reads-give {ℓ} : {A : Type ℓ} (a : A) → Reads (some []) (give a) a
unfolding give
Reads-give a = record { out = []; written = refl; read = λ rest. refl }

pub put_nothing : (w : Write) → w ≡ w ⊕ some []
unfolding ◌⊕◌
put_nothing none = refl
put_nothing (some a) = ap some (sym (append-nil a))

-- The last thing of a message needs nothing after it.
pub Reads-last {ℓ κ} :
    {A : Type ℓ} {B : Type κ} {w : Write} {r : Recv A} {a : A} {b : B} (k : A → Recv B)
    → Reads w r a
    → Reads (some []) (k a) b
    → Reads w (r >>= k) b
Reads-last {w} {r} {b} k x y =
    subst (λ v. Reads v (r >>= k) b) (sym (put_nothing w)) (Reads-then k x y)

pub ruleset reads_rules = (Reads-then, Reads-last, Reads-give)

pub u8-Reads : (v : ℕ) → IsU8 v → Reads (put_u8 v) recv_u8 v
unfolding put_u8 recv_u8
u8-Reads v h = record { out = v % 256 ∷ []; written = refl; read = λ rest. ground (arith, h) }

pub u16-Reads : (v : ℕ) → IsU16 v → Reads (put_u16 v) recv_u16 v
unfolding put_u16 recv_u16
u16-Reads v h = record {
  out = v / 256 % 256 ∷ v % 256 ∷ [];
  written = refl;
  read = λ rest. let e : v / 256 % 256 * 256 + v % 256 ≡ v = omega (arith, h) in rw e refl;
}

pub u32-Reads : (v : ℕ) → IsU32 v → Reads (put_u32 v) recv_u32 v
unfolding put_u32 recv_u32
u32-Reads v h = record {
  out = v / 2 ^ 24 % 256 ∷ v / 2 ^ 16 % 256 ∷ v / 256 % 256 ∷ v % 256 ∷ [];
  written = refl;
  read = λ rest.
      let e : v / 2 ^ 24 % 256 * 2 ^ 24 + v / 2 ^ 16 % 256 * 2 ^ 16 + v / 256 % 256 * 256 + v % 256
          ≡ v =
        omega (arith, h) in
      rw e refl;
}

pub bool-Reads : (b : Bool) → Reads (put_bool b) recv_bool b
unfolding put_bool put_u8 recv_bool recv_u8 ◌>>=◌ give
bool-Reads true = record { out = 1 ∷ []; written = refl; read = λ rest. refl }
bool-Reads false = record { out = 0 ∷ []; written = refl; read = λ rest. refl }

-- `bool-Reads` and what follows it, for a search, which does not find the value by itself.
pub bool_then {ℓ} :
    {B : Type ℓ} {w : Write} {c : B} (b : Bool) (k : Bool → Recv B)
    → Reads w (k b) c
    → Reads (put_bool b ⊕ w) (recv_bool >>= k) c
bool_then b k = Reads-then k (bool-Reads b)

pub bool_last {ℓ} :
    {B : Type ℓ} {c : B} (b : Bool) (k : Bool → Recv B)
    → Reads (some []) (k b) c
    → Reads (put_bool b) (recv_bool >>= k) c
bool_last b k = Reads-last k (bool-Reads b)

i32_bits-IsU32 : (v : ℤ) → IsU32 (i32_bits v)
unfolding i32_bits
i32_bits-IsU32 (pos n) = omega arith
i32_bits-IsU32 (negsuc n) = omega arith

bits_i32-i32_bits : (v : ℤ) → IsI32 v → bits_i32 (i32_bits v) ≡ v
unfolding i32_bits bits_i32
bits_i32-i32_bits (pos n) h = ground arith
bits_i32-i32_bits (negsuc n) h = ground arith

pub i32-Reads : (v : ℤ) → IsI32 v → Reads (put_i32 v) recv_i32 v
unfolding put_i32 recv_i32
i32-Reads v h =
    let e : bits_i32 (i32_bits v) ≡ v = bits_i32-i32_bits v h in
    subst (Reads (put_i32 v) recv_i32) e
      (Reads-last _ (u32-Reads (i32_bits v) (i32_bits-IsU32 v)) (Reads-give _))

pub u64-Reads : (v : ℕ) → IsU64 v → Reads (put_u64 v) recv_u64 v
unfolding put_u64 recv_u64
u64-Reads v h =
    let whole : v / 2 ^ 32 * 2 ^ 32 + v % 2 ^ 32 ≡ v = omega arith in
    subst (Reads (put_u64 v) recv_u64) whole (
      Reads-then _ (u32-Reads (v / 2 ^ 32) (omega (arith, h)))
        (Reads-last _ (u32-Reads (v % 2 ^ 32) (omega arith)) (Reads-give _)))

bytes-Reads : (s : Bytes) → Reads (some s) (recv_bytes (length s)) s
unfolding recv_bytes
bytes-Reads s = record { out = s; written = refl; read = go s }
  where
    go : (s rest : Bytes) → recv_bytes (length s) (s ++ rest) ≡ some (s, rest)
    go [] rest = refl
    go (b ∷ s) rest = rw (go s rest) refl

pub string-Reads : (s : Bytes) → IsText s → Reads (put_string s) recv_string s
unfolding put_string recv_string
string-Reads s h =
    let fits : ltb 65535 (length s) ≡ false = ground (arith, h) in
    rw fits (Reads-then _ (u16-Reads (length s) h) (bytes-Reads s))

-- A vector whose elements are read as what `g` makes of them.
pub each_as-Reads {ℓ κ} :
    {A : Type ℓ} {B : Type κ} {P : A → Type ℓ} (f : A → Write) (r : Recv B) (g : A → B)
    → ((x : A) → P x → Reads (f x) r (g x))
    → (xs : List A) → All P xs
    → Reads (put_each f xs) (recv_each (length xs) r) (map g xs)
unfolding put_each recv_each
each_as-Reads f r g e [] h = Reads-give []
each_as-Reads f r g e (x ∷ xs) h =
    Reads-then _ (e x h.0) (Reads-last _ (each_as-Reads f r g e xs h.1) (Reads-give _))

pub each-Reads {ℓ} :
    {A : Type ℓ} {P : A → Type ℓ} (f : A → Write) (r : Recv A)
    → ((x : A) → P x → Reads (f x) r x)
    → (xs : List A) → All P xs
    → Reads (put_each f xs) (recv_each (length xs) r) xs
unfolding put_each recv_each
each-Reads f r e [] h = Reads-give []
each-Reads f r e (x ∷ xs) h =
    Reads-then _ (e x h.0) (Reads-last _ (each-Reads f r e xs h.1) (Reads-give _))

pub ruleset wire_rules = (
  reads_rules, u8-Reads, u16-Reads, u32-Reads, bool-Reads, bool_then, bool_last, i32-Reads,
  u64-Reads, string-Reads,
)
