-- ===== src/Protocol/Wire.antt =====
-- server/server_protocol.cpp and client/client_protocol.cpp: numbers and texts on the wire, which
-- both ends write and read in the same way. Integers are in network order.
use argentum_online_taller_g.Prelude.{
  ℕ, zero, suc, ◌+◌, ◌-◌, ◌*◌, ◌/◌, ◌%◌, ◌^◌, Bool, not, Option, none, some, List, [], ◌∷◌, ◌++◌,
  Bytes, length, ltb, ◌==◌, if◌then◌else◌,
}
use argentum_online_taller_g.Prelude.Int.{ℤ, pos, negsuc}

-- What is put into the buffer of a message; `none` is `std::length_error`.
abbrev pub Write : Type 0
Write = Option Bytes

-- One thing after another.
infixr 40 ◌⊕◌
unfoldable pub ◌⊕◌ : Write → Write → Write
none ⊕ w = none
some a ⊕ none = none
some a ⊕ some b = some (a ++ b)

-- What is received and what is left of the stream; `none` is an exception: the stream has ended, or
-- what was read is not allowed.
abbrev pub Recv {ℓ} : Type ℓ → Type ℓ
Recv A = Bytes → Option (A × Bytes)

infixl 5 ◌>>=◌
unfoldable pub ◌>>=◌ {ℓ κ} : {A : Type ℓ} {B : Type κ} → Recv A → (A → Recv B) → Recv B
(r >>= k) s = elim (r s) [ none ↦ none | some (a, t) ↦ k a t ]

unfoldable pub give {ℓ} : {A : Type ℓ} → A → Recv A
give a s = some (a, s)

unfoldable pub throw_error {ℓ} : {A : Type ℓ} → Recv A
throw_error s = none

unfoldable pub put_u8 : ℕ → Write
put_u8 v = some (v % 256 ∷ [])

unfoldable pub put_bool : Bool → Write
put_bool b = put_u8 (if b then 1 else 0)

unfoldable pub put_u16 : ℕ → Write
put_u16 v = some (v / 256 % 256 ∷ v % 256 ∷ [])

unfoldable pub put_u32 : ℕ → Write
put_u32 v = some (v / 2 ^ 24 % 256 ∷ v / 2 ^ 16 % 256 ∷ v / 256 % 256 ∷ v % 256 ∷ [])

-- The bits of an `int32_t` as a `uint32_t`, and back.
unfoldable pub i32_bits : ℤ → ℕ
i32_bits (pos n) = n % 2 ^ 32
i32_bits (negsuc n) = 2 ^ 32 - 1 - n % 2 ^ 32

unfoldable pub bits_i32 : ℕ → ℤ
bits_i32 v = if ltb v (2 ^ 31) then pos v else negsuc (2 ^ 32 - 1 - v)

unfoldable pub put_i32 : ℤ → Write
put_i32 v = put_u32 (i32_bits v)

unfoldable pub put_u64 : ℕ → Write
put_u64 v = put_u32 (v / 2 ^ 32) ⊕ put_u32 (v % 2 ^ 32)

unfoldable pub put_string : Bytes → Write
put_string s = if ltb 65535 (length s) then none else put_u16 (length s) ⊕ some s

-- A loop that puts each element of a vector.
unfoldable pub put_each {ℓ} : {A : Type ℓ} → (A → Write) → List A → Write
put_each f [] = some []
put_each f (x ∷ xs) = f x ⊕ put_each f xs

unfoldable pub recv_u8 : Recv ℕ
recv_u8 [] = none
recv_u8 (b ∷ s) = some (b, s)

unfoldable pub recv_bool : Recv Bool
recv_bool = recv_u8 >>= (λ b. give (not (b == 0)))

unfoldable pub recv_u16 : Recv ℕ
recv_u16 (a ∷ b ∷ s) = some (a * 256 + b, s)
recv_u16 _ = none

unfoldable pub recv_u32 : Recv ℕ
recv_u32 (a ∷ b ∷ c ∷ d ∷ s) = some (a * 2 ^ 24 + b * 2 ^ 16 + c * 256 + d, s)
recv_u32 _ = none

unfoldable pub recv_i32 : Recv ℤ
recv_i32 = recv_u32 >>= (λ v. give (bits_i32 v))

unfoldable pub recv_u64 : Recv ℕ
recv_u64 = recv_u32 >>= (λ hi. recv_u32 >>= (λ lo. give (hi * 2 ^ 32 + lo)))

-- `recvall` of so many bytes.
unfoldable pub recv_bytes : ℕ → Recv Bytes
recv_bytes zero s = some ([], s)
recv_bytes (suc n) [] = none
recv_bytes (suc n) (b ∷ s) = elim (recv_bytes n s) [ none ↦ none | some (bs, t) ↦ some (b ∷ bs, t) ]

unfoldable pub recv_string : Recv Bytes
recv_string = recv_u16 >>= recv_bytes

-- A loop that receives so many elements.
unfoldable pub recv_each {ℓ} : {A : Type ℓ} → ℕ → Recv A → Recv (List A)
recv_each zero r = give []
recv_each (suc n) r = r >>= (λ x. recv_each n r >>= (λ xs. give (x ∷ xs)))
