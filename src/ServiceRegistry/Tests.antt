-- ===== src/ServiceRegistry/Tests.antt =====
-- Runs of src/core/service_registry.c.
use roole.Base.{
  ℕ, ◌≡◌, ◌⊎◌, refl, true, false, none, some, length, List, [], ◌∷◌, arith, length-replicate,
  All-replicate, replicate, All,
}
use roole.Base.Int.{pos, negsuc}
use roole.ServiceRegistry.{
  ServiceEntry, create, row_of, find_entry, register, get, max_services_per_type,
}
use roole.ServiceRegistry.Lookup.{Found, register_lem}
use roole.ServiceRegistry.LongNames.{IsShort, long_name_lost}

-- The main event bus.
abbrev main_name : List ℕ
main_name = 109 ∷ 97 ∷ 105 ∷ 110 ∷ []

register_lem_example :
    let r = register create 2 main_name 500 in
    let row = row_of create 2 in
    ((r ≡ (negsuc 0, create))
      × (((e : ServiceEntry) × (find_entry main_name row ≡ some e))
          ⊎ All (λ e. e.active ≡ true) row))
    ⊎ ((r.0 ≡ pos 0)
        × (find_entry main_name row ≡ none)
        × (¬ All (λ e. e.active ≡ true) row)
        × (length (row_of r.1 2) ≡ length row)
        × Found create 2 main_name 500 r.1)
register_lem_example =
    register_lem create 2 main_name 500 (omega arith) (omega arith) (λ e. omega (arith, e)) refl

abbrev long_name : List ℕ
long_name = replicate 64 109

row-IsShort : All IsShort (row_of create 2)
row-IsShort =
    All-replicate IsShort max_services_per_type
      (record { name = []; service_ptr = 0; active = false }) (omega arith)

long_name_lost_example :
    let r = register create 2 long_name 500 in (r.0 ≡ pos 0) × (get r.1 2 long_name ≡ 0)
long_name_lost_example =
    long_name_lost create 2 long_name 500 refl (omega arith) (λ e. omega (arith, e))
      (omega (arith, length-replicate {0} {A = ℕ} 64 109)) row-IsShort (λ h. cc h.0)
