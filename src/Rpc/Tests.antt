-- ===== src/Rpc/Tests.antt =====
-- Runs of src/core/rpc.c on a connection with two requests.
use roole.Base.{
  ℕ, ◌≤◌, ◌≡◌, refl, inl, Bool, true, some, List, [], ◌∷◌, ◌++◌, arith, length, map, ltb,
}
use roole.Rpc.{Header}
use roole.Rpc.Stream.{Request, serve, process_buffered_data}
use roole.Rpc.Stream.Progress.{process_buffered_data-total}
use roole.Rpc.Stream.Framing.{Sent, IsSent, flat, process_buffered_data-flat}
use roole.Rpc.Stream.Memory.{request_repeated}

-- A request to function 37 with two bytes, and one to a function that is not in the table.
abbrev submit : Sent
submit = record {
  header = record {
    total_len = 14;
    request_id = 1000;
    sender_id = 7;
    type = 1;
    status = 0;
    func_id = 37;
  };
  payload = 5 ∷ 6 ∷ [];
}

abbrev stray : Sent
stray = record {
  header = record {
    total_len = 12;
    request_id = 1001;
    sender_id = 7;
    type = 1;
    status = 0;
    func_id = 99;
  };
  payload = [];
}

submit-IsSent : IsSent submit
submit-IsSent = record {
  wire = record {
    long = omega arith;
    length_word = omega arith;
    request_word = omega arith;
    sender_word = omega arith;
    type_half = omega arith;
    status_half = omega arith;
    func_byte = omega arith;
  };
  announced = refl;
}

stray-IsSent : IsSent stray
stray-IsSent = record {
  wire = record {
    long = omega arith;
    length_word = omega arith;
    request_word = omega arith;
    sender_word = omega arith;
    type_half = omega arith;
    status_half = omega arith;
    func_byte = omega arith;
  };
  announced = refl;
}

abbrev starts : Header → List ℕ → Bool
starts h payload = true

abbrev table : List ℕ
table = 32 ∷ 37 ∷ []

abbrev incomplete : List ℕ
incomplete = 0 ∷ 0 ∷ 0 ∷ []

process_buffered_data-flat_example :
    process_buffered_data true starts
      (λ i. true)
      (some table)
      (flat true (submit ∷ stray ∷ []) ++ incomplete)
    ≡ some (
      map (λ s. serve true starts (λ i. true) table s.header s.payload) (submit ∷ stray ∷ []),
      incomplete,
    )
process_buffered_data-flat_example =
    process_buffered_data-flat true starts (λ i. true) table (submit ∷ stray ∷ []) incomplete
      (λ k. refl) (submit-IsSent, (stray-IsSent, tt)) (inl (omega arith))

process_buffered_data-total_example :
    (requests : List Request) × (rest : List ℕ) × (process_buffered_data true starts
        (λ i. true)
        (some table)
        (3 ∷ incomplete)
      ≡ some (requests, rest))
    × (length rest ≤ 4)
process_buffered_data-total_example =
    process_buffered_data-total true starts (λ i. true) table (3 ∷ incomplete)

-- Memory for one context only.
abbrev one : ℕ → Bool
one i = ltb i 1

request_repeated_example :
    process_buffered_data true starts one
      (some table)
      (flat true (submit ∷ stray ∷ []) ++ incomplete)
    ≡ some (
      serve true starts one table submit.header submit.payload ∷ [],
      flat true (submit ∷ stray ∷ []) ++ incomplete,
    )
request_repeated_example =
    request_repeated true starts one table submit stray incomplete submit-IsSent stray-IsSent refl
      refl
