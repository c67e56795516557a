-- ===== src/Rpc.antt =====
-- The messages of src/core/rpc.c and include/roole/rpc.h: `rpc_pack_message` and
-- `rpc_unpack_header`. `little` says whether the machine stores the low byte of a number first, which
-- matters for the sender, the only number that is not in network order, and for the two halves of a
-- byte.
pub mod RoundTrip
pub mod Stream
mod Tests
use roole.Base.{
  ℕ, ◌+◌, ◌*◌, ◌/◌, ◌%◌, ◌^◌, Bool, Option, none, some, List, [], ◌∷◌, ◌++◌, ltb, if◌then◌else◌,
  length, get_or,
}
use roole.Wire.{Read, ◌>>=◌, ◌>>◌, pure, bytes, number, encode}

-- `rpc_header_t`. `type` and `status` are the two halves of `type_and_status`.
pub record Header : Type 0 where
  pub total_len : ℕ
  pub request_id : ℕ
  pub sender_id : ℕ
  pub type : ℕ
  pub status : ℕ
  pub func_id : ℕ

abbrev pub rpc_header_size : ℕ
rpc_header_size = 12

module _ (little : Bool) where
  -- A number of two bytes as the machine stores it.
  pub store : ℕ → List ℕ
  store v = if little then v % 256 ∷ v / 256 % 256 ∷ [] else encode 2 v

  pub load : List ℕ → ℕ
  load bs =
      if little then get_or bs 0 0 + get_or bs 1 0 * 256 else get_or bs 0 0 * 256 + get_or bs 1 0

  -- `rpc_type_status_t`: its first field is in the low half of the byte where the low byte of a
  -- number comes first, and in the high half elsewhere.
  pub pack_halves : ℕ → ℕ → ℕ
  pack_halves type status =
      if little then type % 16 * 16 + status % 16 else status % 16 * 16 + type % 16

  pub status_of : ℕ → ℕ
  status_of byte = if little then byte % 16 else byte / 16

  pub type_of : ℕ → ℕ
  type_of byte = if little then byte / 16 else byte % 16

  -- The twelve bytes of a header.
  pub pack_header : Header → List ℕ
  unfolding store pack_halves
  pack_header h =
      encode 4 h.total_len
      ++ (encode 4 h.request_id
          ++ (store h.sender_id ++ (encode 1 (pack_halves h.type h.status) ++ encode 1 h.func_id)))

  -- `rpc_pack_message`: the bytes written.
  abbrev pub rpc_pack_message : ℕ → ℕ → ℕ → ℕ → ℕ → List ℕ → List ℕ
  rpc_pack_message node_id request_id type status func_id payload =
      pack_header (record {
        total_len = (rpc_header_size + length payload) % 2 ^ 32;
        request_id = request_id;
        sender_id = node_id;
        type = type;
        status = status;
        func_id = func_id;
      })
      ++ payload

  -- `rpc_unpack_header`; the inner `none` is -1.
  pub rpc_unpack_header : Read (Option Header)
  unfolding load status_of type_of
  rpc_unpack_header = do
    total_len ← number 4
    request_id ← number 4
    sender ← bytes 2
    type_and_status ← number 1
    func_id ← number 1
    let header : Header = record {
      total_len = total_len;
      request_id = request_id;
      sender_id = load sender;
      type = type_of type_and_status;
      status = status_of type_and_status;
      func_id = func_id;
    }
    pure (if ltb total_len rpc_header_size then none else some header)
