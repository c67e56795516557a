-- ===== src/Gossip/Message/Update.antt =====
-- Member updates of src/cluster/gossip_protocol.c, written and then read.
use roole.Base.{
  ℕ, suc, ◌-◌, ◌^◌, ◌<◌, ◌≡◌, refl, ap, ◌∙◌, some, List, ◌++◌, append_assoc, arith, length, set,
  replicate, length-append,
}
use roole.Base.Status.{alive, type_code, status_code}
use roole.Wire.{◌>>=◌, c_string, padded}
use roole.Wire.Laws.{
  length-encode, number-encode, bytes-append, IsText, length-padded, padded_lem, c_string-set,
}
use roole.Gossip.Message.{
  MemberUpdate, type_of_byte, status_of_byte, serialize_member_update, deserialize_member_update,
  member_update_size,
}

-- An update whose fields have the ranges of their C types, with a type and a status that a byte can
-- stand for and an address that fits its field.
pub record IsWire (u : MemberUpdate) : Type 0 where
  pub id_word : u.node_id < 2 ^ 16
  pub type_byte : type_code u.node_type < 2 ^ 8
  pub type_known : type_of_byte (type_code u.node_type) ≡ u.node_type
  pub status_byte : status_code u.status < 2 ^ 8
  pub status_known : status_of_byte (status_code u.status) ≡ u.status
  pub address_fits : length u.ip_address < 16
  pub address_text : IsText u.ip_address
  pub gossip_word : u.gossip_port < 2 ^ 16
  pub data_word : u.data_port < 2 ^ 16
  pub incarnation_word : u.incarnation < 2 ^ 64
  pub timestamp_word : u.timestamp_ms < 2 ^ 64

pub alive_known : status_of_byte (status_code alive) ≡ alive
unfolding status_of_byte
alive_known = refl

pub length-serialize_member_update :
    (u : MemberUpdate) → length (serialize_member_update u) ≡ member_update_size
unfolding serialize_member_update
length-serialize_member_update u =
    omega (arith, length-append {0} {A = ℕ}, length-encode, length-padded 16 u.ip_address)

address-field : (s : List ℕ) → length s < 16 → IsText s → c_string (set (padded 16 s) 15 0) ≡ s
address-field s h t =
    ap (λ f. c_string (set f 15 0))
      (padded_lem 16 s h ∙ ap (λ k. s ++ replicate k 0) {y = suc (15 - length s)} (omega arith))
    ∙ c_string-set s (replicate (15 - length s) 0) 15 t (omega arith)

pub deserialize-serialize_update :
    (u : MemberUpdate) (rest : List ℕ)
    → IsWire u
    → deserialize_member_update (serialize_member_update u ++ rest) ≡ some (u, rest)
unfolding deserialize_member_update serialize_member_update
deserialize-serialize_update u rest v = simp append_assoc (
    rw (
      ◌>>=◌,
      number-encode 2 u.node_id _ v.id_word,
      number-encode 1 (type_code u.node_type) _ v.type_byte,
      number-encode 1 (status_code u.status) _ v.status_byte,
      bytes-append 16 (padded 16 u.ip_address) _ (length-padded 16 u.ip_address (omega arith)),
      number-encode 2 u.gossip_port _ v.gossip_word,
      number-encode 2 u.data_port _ v.data_word,
      number-encode 8 u.incarnation _ v.incarnation_word,
      number-encode 8 u.timestamp_ms _ v.timestamp_word,
      v.type_known,
      v.status_known,
      address-field u.ip_address v.address_fits v.address_text,
    ))
