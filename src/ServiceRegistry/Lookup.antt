-- ===== src/ServiceRegistry/Lookup.antt =====
-- What service_registry_get of src/core/service_registry.c finds after a registration.
use roole.Base.{
  ℕ, ◌-◌, ◌<◌, ◌≡◌, ◌≢◌, ◌⊎◌, refl, sym, ap, subst, ◌∙◌, inl, inr, true, false, ◌&&◌, none, some,
  List, [], ◌∷◌, arith, ◌==◌, leb, length, take_all, set, get_or-set_self, get_or-set_ne,
  if◌then◌else◌, Bool-cases, Option-cases, All, eq_text, eq_text_refl, eq_text_sound, ==_ne,
  ==_refl,
}
use roole.Base.Int.{pos, negsuc}
use roole.Slots.{claim}
use roole.Slots.Laws.{length-claim}
use roole.ServiceRegistry.{
  ServiceEntry, ServiceRegistry, service_type_max, max_service_name, pointer_of, is_active,
  find_entry, with_row, entry_of, row_of, fill, register, pointer_in, get,
}

-- A registration fills a slot, and the search for any name finds the new entry or what it found.
find_entry-claim :
    (name : List ℕ) (new : ServiceEntry) (row row' : List ServiceEntry)
    → new.active ≡ true
    → find_entry new.name row ≡ none
    → claim pointer_of is_active new row ≡ some row'
    → find_entry name row' ≡ (if eq_text new.name name then some new else find_entry name row)
unfolding find_entry claim
find_entry-claim name new [] row' on fresh e = cc
find_entry-claim name new (x ∷ row) row' on fresh e = elim (Bool-cases x.active) [
  | inr free ↦ ground (arith, free)
  | inl used ↦ elim (Option-cases (claim pointer_of is_active new row)) [
    | inl gone ↦ ground (arith, used, gone)
    | inr (zs, got) ↦ elim (Bool-cases (eq_text x.name name)) [
      | inr other ↦
          ground (arith, used, got, other, find_entry-claim name new row zs on (ground arith) got)
      | inl same ↦ elim (Bool-cases (eq_text new.name name)) [
        | inr differs ↦ ground (arith, used, got, same, differs)
        | inl also ↦ ground (
          arith,
          used,
          eq_text_sound x.name name same,
          eq_text_sound new.name name also,
          eq_text_refl name,
        )
      ]
    ]
  ]
]

-- A registration finds no slot where all are in use.
pub claim_full :
    (new : ServiceEntry) (row : List ServiceEntry)
    → claim pointer_of is_active new row ≡ none
    → All (λ e. e.active ≡ true) row
unfolding claim
claim_full new [] e = tt
claim_full new (x ∷ row) e = elim (Bool-cases x.active) [
  | inr free ↦ absurd (ground (arith, free))
  | inl used ↦ elim (Option-cases (claim pointer_of is_active new row)) [
    | inl gone ↦ (used, claim_full new row gone)
    | inr (zs, got) ↦ absurd (ground (arith, used, got))
  ]
]

-- A registration that finds a slot found it free.
claim_free :
    (new : ServiceEntry) (row row' : List ServiceEntry)
    → claim pointer_of is_active new row ≡ some row'
    → ¬ All (λ e. e.active ≡ true) row
unfolding claim
claim_free new [] row' e all = cc
claim_free new (x ∷ row) row' e all = elim (Option-cases (claim pointer_of is_active new row)) [
  | inl gone ↦ ground (arith, gone, all.0)
  | inr (zs, got) ↦ claim_free new row zs got all.1
]

pub get_in :
    (registry : ServiceRegistry) (type : ℕ) (name : List ℕ)
    → type < service_type_max
    → get registry type name ≡ pointer_in (find_entry name (row_of registry type))
unfolding get
get_in registry type name h =
    let known : leb service_type_max type ≡ false = ground arith in rw known

module _ (registry : ServiceRegistry) (type : ℕ) (name : List ℕ) (service_ptr : ℕ) where
  -- What the look-ups give once the service is there.
  abbrev pub Found : ServiceRegistry → Type 0
  Found registry' =
      (type' : ℕ) (name' : List ℕ)
      → get registry' type' name'
        ≡ (if type == type' && eq_text name name' then service_ptr else get registry type' name')

  module _ (known : type < service_type_max) (short : length name < max_service_name)
      (pointer : service_ptr ≢ 0) where
    register_in :
        register registry type name service_ptr
        ≡ with_row registry type
            (fill name service_ptr (row_of registry type) (find_entry name (row_of registry type)))
    unfolding register
    register_in =
        let nonnull : (service_ptr == 0) ≡ false = ==_ne service_ptr 0 pointer in
        let inside : leb service_type_max type ≡ false = ground arith in rw (nonnull, inside)

    whole_name :
        entry_of name service_ptr ≡ record { name = name; service_ptr = service_ptr; active = true }
    whole_name =
        ap (λ n. record { name = n; service_ptr = service_ptr; active = true })
          (take_all (max_service_name - 1) name (omega arith))

    module _ (row : List ServiceEntry) (rows : length registry ≡ service_type_max)
        (fresh : find_entry name (row_of registry type) ≡ none)
        (got : claim pointer_of is_active (entry_of name service_ptr) (row_of registry type)
          ≡ some row) where
      found_here :
          (name' : List ℕ)
          → get (set registry type row) type name'
            ≡ (if eq_text name name' then service_ptr else get registry type name')
      found_here name' =
          let new : ServiceEntry = record {
            name = name;
            service_ptr = service_ptr;
            active = true;
          } in
          let filled : claim pointer_of is_active new (row_of registry type) ≡ some row =
            subst (λ e. claim pointer_of is_active e (row_of registry type) ≡ some row) whole_name
              got in
          let found = find_entry-claim name' new (row_of registry type) row refl fresh filled in
          let before = get_in registry type name' known in
          get_in (set registry type row) type name' known
          ∙ ap (λ r. pointer_in (find_entry name' r))
              (get_or-set_self registry type row [] (omega (arith, rows)))
          ∙ elim (Bool-cases (eq_text name name')) [
            | inl same ↦ rw (found, same)
            | inr differs ↦ rw (found, differs, before)
          ]

      registered-Found : Found (set registry type row)
      unfolding get
      registered-Found type' name' = elim (Bool-cases (type == type')) [
        | inl same ↦
            let e : type ≡ type' = ground arith in
            subst
              (λ t.
                get (set registry type row) t name'
                ≡ (if type == t && eq_text name name' then service_ptr else get registry t name'))
              e (rw (==_refl type) (found_here name'))
        | inr differs ↦
            let kept : row_of (set registry type row) type' ≡ row_of registry type' =
              get_or-set_ne registry {i = type} {j = type'} row [] (ground arith) in
            rw (get, kept, differs)
      ]

    -- With a row for each type, a name of less than 64 bytes and a service that is not null, a
    -- registration of a known type is refused exactly where a service of the type has the name
    -- already, or all slots of the type are in use, and then changes nothing; otherwise it returns 0,
    -- the type has as many slots as before, and afterwards the name gives the new service, while
    -- every other name and type gives what it gave.
    pub register_lem :
        length registry ≡ service_type_max
        → let r = register registry type name service_ptr in
          let row = row_of registry type in
          ((r ≡ (negsuc 0, registry))
            × (((e : ServiceEntry) × (find_entry name row ≡ some e))
                ⊎ All (λ e. e.active ≡ true) row))
          ⊎ ((r.0 ≡ pos 0)
              × (find_entry name row ≡ none)
              × (¬ All (λ e. e.active ≡ true) row)
              × (length (row_of r.1 type) ≡ length row)
              × Found r.1)
    register_lem rows =
        let row = row_of registry type in
        elim (Option-cases (find_entry name row)) [
          | inr (e, there) ↦ inl (register_in ∙ rw there refl, inl (e, there))
          | inl fresh ↦
              elim (Option-cases (claim pointer_of is_active (entry_of name service_ptr) row)) [
                | inl full ↦ inl (register_in ∙ rw (fresh, full) refl, inr (claim_full _ row full))
                | inr (row', got) ↦
                    let done : register registry type name service_ptr
                        ≡ (pos 0, set registry type row') =
                      register_in ∙ rw (fresh, fill, got) refl in
                    inr (
                      ap (λ r. r.0) done,
                      fresh,
                      claim_free _ row row' got,
                      ap (λ r. length (row_of r.1 type)) done
                          ∙ ap length (get_or-set_self registry type row' [] (omega (arith, rows)))
                          ∙ length-claim pointer_of is_active _ row row' got,
                      subst (λ r. Found r.1) (sym done) (registered-Found row' rows fresh got),
                    )
              ]
        ]
