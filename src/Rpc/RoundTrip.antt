-- ===== src/Rpc/RoundTrip.antt =====
-- Headers of src/core/rpc.c, written and then read.
use roole.Base.{
  ℕ, ◌^◌, ◌≤◌, ◌<◌, ◌≡◌, inl, inr, Bool, false, some, List, ◌++◌, append_assoc, arith, ltb, length,
  length-append, Bool-cases,
}
use roole.Wire.{◌>>=◌, encode}
use roole.Wire.Laws.{length-encode, number-encode, bytes-append}
use roole.Rpc.{
  Header, rpc_header_size, store, load, pack_halves, status_of, type_of, pack_header,
  rpc_unpack_header,
}

-- A header whose fields have the ranges of their C types, and that announces itself at least.
pub record IsWire (h : Header) : Type 0 where
  pub long : rpc_header_size ≤ h.total_len
  pub length_word : h.total_len < 2 ^ 32
  pub request_word : h.request_id < 2 ^ 32
  pub sender_word : h.sender_id < 2 ^ 16
  pub type_half : h.type < 16
  pub status_half : h.status < 16
  pub func_byte : h.func_id < 2 ^ 8

module _ (little : Bool) where
  length-store : (v : ℕ) → length (store little v) ≡ 2
  unfolding store
  length-store v = elim (Bool-cases little) [
    | inl low ↦ rw low
    | inr high ↦ rw high (length-encode 2 v)
  ]

  load-store : (v : ℕ) → v < 2 ^ 16 → load little (store little v) ≡ v
  unfolding store load encode
  load-store v h = elim (Bool-cases little) [
    | inl low ↦ rw low (omega arith)
    | inr high ↦ rw high (omega arith)
  ]

  pack_halves-byte : (type status : ℕ) → pack_halves little type status < 2 ^ 8
  unfolding pack_halves
  pack_halves-byte type status = elim (Bool-cases little) [
    | inl low ↦ rw low (omega arith)
    | inr high ↦ rw high (omega arith)
  ]

  type_of-pack_halves :
      (type status : ℕ) → type < 16 → type_of little (pack_halves little type status) ≡ type
  unfolding pack_halves type_of
  type_of-pack_halves type status h = elim (Bool-cases little) [
    | inl low ↦ rw low (omega arith)
    | inr high ↦ rw high (omega arith)
  ]

  status_of-pack_halves :
      (type status : ℕ) → status < 16 → status_of little (pack_halves little type status) ≡ status
  unfolding pack_halves status_of
  status_of-pack_halves type status h = elim (Bool-cases little) [
    | inl low ↦ rw low (omega arith)
    | inr high ↦ rw high (omega arith)
  ]

  pub length-pack_header : (h : Header) → length (pack_header little h) ≡ 12
  unfolding pack_header
  length-pack_header h =
      omega (arith, length-append {0} {A = ℕ}, length-encode, length-store h.sender_id)

  pub unpack-pack :
      (h : Header) (rest : List ℕ)
      → IsWire h
      → rpc_unpack_header little (pack_header little h ++ rest) ≡ some (some h, rest)
  unfolding pack_header rpc_unpack_header
  unpack-pack h rest v =
      let fits : ltb h.total_len rpc_header_size ≡ false = ground (arith, v.long) in
      simp append_assoc (
        rw (
          ◌>>=◌,
          number-encode 4 h.total_len _ v.length_word,
          number-encode 4 h.request_id _ v.request_word,
          bytes-append 2 (store little h.sender_id) _ (length-store h.sender_id),
          number-encode 1 (pack_halves little h.type h.status) _ (pack_halves-byte h.type h.status),
          number-encode 1 h.func_id _ v.func_byte,
          load-store h.sender_id v.sender_word,
          fits,
          type_of-pack_halves h.type h.status v.type_half,
          status_of-pack_halves h.type h.status v.status_half,
        ))
