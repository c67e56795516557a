-- ===== src/ServiceRegistry/LongNames.antt =====
-- Names that do not fit the slots of src/core/service_registry.c.
use roole.Base.{
  ℕ, ◌-◌, ◌≤◌, ◌<◌, ◌≡◌, ◌≢◌, refl, ap, ◌∙◌, inl, inr, true, false, none, List, [], ◌∷◌, arith,
  ◌==◌, leb, length, length-take, set, get_or-set_self, Bool-cases, Option-cases, All, eq_text,
  eq_text_sound, ==_ne,
}
use roole.Base.Int.{pos}
use roole.Slots.{claim}
use roole.Slots.Laws.{All-claim}
use roole.ServiceRegistry.{
  ServiceEntry, ServiceRegistry, service_type_max, max_service_name, pointer_of, is_active,
  find_entry, entry_of, row_of, fill, register, pointer_in, get,
}
use roole.ServiceRegistry.Lookup.{claim_full, get_in}

-- A slot holds less than 64 bytes of a name.
abbrev pub IsShort : ServiceEntry → Type 0
IsShort e = length e.name < max_service_name

find_entry-long :
    (name : List ℕ) (row : List ServiceEntry)
    → max_service_name ≤ length name
    → All IsShort row
    → find_entry name row ≡ none
unfolding find_entry
find_entry-long name [] long short = refl
find_entry-long name (e ∷ row) long (fits, short) = elim (Bool-cases (eq_text e.name name)) [
  | inr differs ↦ ground (arith, differs, find_entry-long name row long short)
  | inl same ↦
      let equal : length e.name ≡ length name = ap length (eq_text_sound e.name name same) in
      absurd (omega (arith, fits, long, equal))
]

-- Where a slot of the type is free, a service that is not null is registered under a name of 64
-- bytes or more, with the result 0, but the registry does not find it under that name.
pub long_name_lost :
    (registry : ServiceRegistry) (type : ℕ) (name : List ℕ) (service_ptr : ℕ)
    → length registry ≡ service_type_max
    → type < service_type_max
    → service_ptr ≢ 0
    → max_service_name ≤ length name
    → All IsShort (row_of registry type)
    → ¬ All (λ e. e.active ≡ true) (row_of registry type)
    → let r = register registry type name service_ptr in (r.0 ≡ pos 0) × (get r.1 type name ≡ 0)
unfolding register
long_name_lost registry type name service_ptr rows known pointer long short free =
    let row = row_of registry type in
    let nonnull : (service_ptr == 0) ≡ false = ==_ne service_ptr 0 pointer in
    let inside : leb service_type_max type ≡ false = ground arith in
    let fresh = find_entry-long name row long short in
    elim (Option-cases (claim pointer_of is_active (entry_of name service_ptr) row)) [
      | inl full ↦ absurd (free (claim_full _ row full))
      | inr (row', got) ↦
          let cut : IsShort (entry_of name service_ptr) =
            omega (arith, length-take (max_service_name - 1) name) in
          let still =
            All-claim pointer_of is_active IsShort (entry_of name service_ptr) row row' cut short
              got in
          let here : row_of (set registry type row') type ≡ row' =
            get_or-set_self registry type row' [] (omega (arith, rows)) in
          let done : register registry type name service_ptr ≡ (pos 0, set registry type row') =
            rw (nonnull, inside, fresh, fill, got) refl in
          (
            ap (λ r. r.0) done,
            ap (λ r. get r.1 type name) done
                ∙ get_in (set registry type row') type name known
                ∙ ap (λ r. pointer_in (find_entry name r)) here
                ∙ ap pointer_in (find_entry-long name row' long still),
          )
    ]
