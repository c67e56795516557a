-- ===== src/Base/Status.antt =====
-- The error codes of include/roole/common.h and the enumerations of include/roole/cluster.h.
use Prim.Native.Nat.{ℕ}
use mathlib.Core.Bool.{Bool}
use roole.Base.Tests.{◌==◌}

-- `result_status_t`.
pub data ResultStatus : Type 0 where
  ok err_nomem err_invalid err_notfound err_timeout : ResultStatus
  err_network err_exists err_full err_empty : ResultStatus

-- `node_type_t`. A byte of the network is cast to it unchecked, so other values occur.
pub data NodeType : Type 0 where
  unknown router worker : NodeType
  other_type : ℕ → NodeType

-- `node_status_t`, cast from bytes in the same way.
pub data NodeStatus : Type 0 where
  alive suspect dead : NodeStatus
  other_status : ℕ → NodeStatus

abbrev pub type_code : NodeType → ℕ
type_code unknown = 0
type_code router = 1
type_code worker = 2
type_code (other_type n) = n

abbrev pub status_code : NodeStatus → ℕ
status_code alive = 0
status_code suspect = 1
status_code dead = 2
status_code (other_status n) = n

-- `==` on the enumerations compares their integers.
abbrev pub eq_type : NodeType → NodeType → Bool
eq_type a b = type_code a == type_code b

abbrev pub eq_status : NodeStatus → NodeStatus → Bool
eq_status a b = status_code a == status_code b
