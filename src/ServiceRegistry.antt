-- ===== src/ServiceRegistry.antt =====
-- The registry of services of src/core/service_registry.c and include/roole/service_registry.h. A call
-- holds the lock of one type of service from its first read to its last write, so it is one step.
-- Services are pointers, as numbers, 0 for null.
pub mod Lookup
pub mod LongNames
mod Tests
use mathlib.Core.Option
use roole.Base.{
  ℕ, ◌-◌, Bool, true, false, ◌&&◌, Option, none, some, List, [], ◌∷◌, ◌==◌, leb, if◌then◌else◌,
  length, get_or, set, take, replicate, eq_text,
}
use roole.Base.Int.{ℤ, pos, negsuc}
use roole.Slots.{claim}

-- `service_entry_t`.
pub record ServiceEntry : Type 0 where
  pub name : List ℕ
  pub service_ptr : ℕ
  pub active : Bool

abbrev pub service_type_max : ℕ
service_type_max = 8

abbrev pub max_services_per_type : ℕ
max_services_per_type = 16

abbrev pub max_service_name : ℕ
max_service_name = 64

-- `struct service_registry`: a row of slots for each type of service.
abbrev pub ServiceRegistry : Type 0
ServiceRegistry = List (List ServiceEntry)

-- `service_registry_create`, where the allocation and the locks succeed.
abbrev pub create : ServiceRegistry
create =
    replicate service_type_max
      (replicate max_services_per_type (record { name = []; service_ptr = 0; active = false }))

abbrev pub pointer_of : ServiceEntry → ℕ
pointer_of e = e.service_ptr

abbrev pub is_active : ServiceEntry → Bool
is_active e = e.active

-- The first active slot with the name.
unfoldable pub find_entry : List ℕ → List ServiceEntry → Option ServiceEntry
find_entry name [] = none
find_entry name (e ∷ es) = if e.active && eq_text e.name name then some e else find_entry name es

-- That slot made free; the name stays in it.
unfoldable pub release : List ℕ → List ServiceEntry → Option (List ServiceEntry)
release name [] = none
release name (e ∷ es) =
    let rest = Option.map (λ row. e ∷ row) (release name es) in
    if e.active && eq_text e.name name
    then some (record e { active = false; service_ptr = 0 } ∷ es)
    else rest

-- The row of a type after a change of it.
abbrev pub with_row : ServiceRegistry → ℕ → Option (List ServiceEntry) → ℤ × ServiceRegistry
with_row registry type none = (negsuc 0, registry)
with_row registry type (some row) = (pos 0, set registry type row)

-- The slot that a registration fills; `strncpy` keeps 63 bytes of the name.
abbrev pub entry_of : List ℕ → ℕ → ServiceEntry
entry_of name service_ptr = record {
  name = take (max_service_name - 1) name;
  service_ptr = service_ptr;
  active = true;
}

abbrev pub row_of : ServiceRegistry → ℕ → List ServiceEntry
row_of registry type = get_or registry type []

-- The row after the search for the name.
abbrev pub fill : List ℕ → ℕ → List ServiceEntry → Option ServiceEntry → Option (List ServiceEntry)
fill name service_ptr row (some e) = none
fill name service_ptr row none = claim pointer_of is_active (entry_of name service_ptr) row

-- `service_registry_register`.
unfoldable pub register : ServiceRegistry → ℕ → List ℕ → ℕ → ℤ × ServiceRegistry
register registry type name service_ptr =
    let row = row_of registry type in
    if service_ptr == 0
    then (negsuc 0, registry)
    else if leb service_type_max type
    then (negsuc 0, registry)
    else with_row registry type (fill name service_ptr row (find_entry name row))

-- `service_registry_unregister`.
unfoldable pub unregister : ServiceRegistry → ℕ → List ℕ → ℤ × ServiceRegistry
unregister registry type name =
    if leb service_type_max type
    then (negsuc 0, registry)
    else with_row registry type (release name (row_of registry type))

-- The pointer of the slot that was found.
abbrev pub pointer_in : Option ServiceEntry → ℕ
pointer_in none = 0
pointer_in (some e) = e.service_ptr

-- `service_registry_get`.
unfoldable pub get : ServiceRegistry → ℕ → List ℕ → ℕ
get registry type name =
    if leb service_type_max type then 0 else pointer_in (find_entry name (row_of registry type))
