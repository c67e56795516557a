-- ===== src/Wire.antt =====
-- Reading and writing bytes, as src/cluster/gossip_protocol.c and src/dag/dag_catalog.c do: numbers in network order at a moving offset.
pub mod Laws
use mathlib.Core.Option
use roole.Base.{
  ℕ, zero, suc, ◌+◌, ◌-◌, ◌*◌, ◌/◌, ◌%◌, ◌^◌, Bool, true, false, Option, none, some, List, [], ◌∷◌,
  ◌++◌, ◌==◌, leb, if◌then◌else◌, length, take, drop, replicate,
}

-- The `n` bytes of a number, the highest first (`htons`, `htonl`, `htobe64`, then `memcpy`).
unfoldable pub encode : ℕ → ℕ → List ℕ
encode zero v = []
encode (suc n) v = encode n (v / 256) ++ v % 256 ∷ []

decode_from : ℕ → List ℕ → ℕ
decode_from acc [] = acc
decode_from acc (b ∷ bs) = decode_from (acc * 256 + b) bs

-- The number that bytes in network order stand for.
pub decode : List ℕ → ℕ
unfolding decode_from
decode bs = decode_from 0 bs

-- A read moves over the bytes that are left of the buffer. `none` is a read past the end of the
-- buffer, which is undefined in C.
abbrev pub Read : Type 0 → Type 0
Read A = List ℕ → Option (A × List ℕ)

infixl 5 ◌>>=◌ ◌>>◌
abbrev pub ◌>>=◌ : {A B : Type 0} → Read A → (A → Read B) → Read B
◌>>=◌ m f bs = elim (m bs) [ none ↦ none | some (a, rest) ↦ f a rest ]

abbrev pub ◌>>◌ : {B : Type 0} → Read (Unit {0}) → Read B → Read B
m >> k = m >>= λ _. k

abbrev pub pure : {A : Type 0} → A → Read A
pure a bs = some (a, bs)

-- The number of bytes between the offset and the end.
abbrev pub remaining : Read ℕ
remaining bs = some (length bs, bs)

-- `n` bytes by `memcpy`.
unfoldable pub bytes : ℕ → Read (List ℕ)
bytes n bs = if leb n (length bs) then some (take n bs, drop n bs) else none

-- An unsigned number of `n` bytes.
unfoldable pub number : ℕ → Read ℕ
unfolding bytes
number n bs = elim (bytes n bs) [ none ↦ none | some (b, rest) ↦ some (decode b, rest) ]

-- A C string in a field: the bytes before the first 0.
unfoldable pub c_string : List ℕ → List ℕ
c_string [] = []
c_string (b ∷ bs) = elim (b == 0) [ true ↦ [] | false ↦ b ∷ c_string bs ]

-- `memset(field, 0, n); strncpy(field, s, n - 1);`
pub padded : ℕ → List ℕ → List ℕ
padded n s = take (n - 1) s ++ replicate (n - length (take (n - 1) s)) 0
