-- ===== src/Ring.antt =====
-- The circular buffer that src/node/message_queue.c and the update queue of
-- src/cluster/gossip_engine.c share: an array with head, tail and count, under a lock.
pub mod Contents
use roole.Base.{ℕ, zero, suc, ◌+◌, ◌-◌, ◌%◌, ◌^◌, ◌≤◌, ◌<◌, ◌≡◌, List, [], ◌∷◌, length, get_or, set}

pub record Ring (A : Type 0) : Type 0 where
  pub slots : List A
  pub head : ℕ
  pub tail : ℕ
  pub count : ℕ

-- Addition of `size_t`.
abbrev pub add_size : ℕ → ℕ → ℕ
add_size a b = (a + b) % 2 ^ 64

module _ {A : Type 0} (capacity : ℕ) where
  -- `a[tail] = x; tail = (tail + 1) % capacity; count++;`
  unfoldable pub put : Ring A → A → Ring A
  put r x = record r {
    slots = set r.slots r.tail x;
    tail = add_size r.tail 1 % capacity;
    count = add_size r.count 1;
  }

  -- `x = a[head]; head = (head + 1) % capacity; count--;`, run where `count` is not 0. A read
  -- outside the array would give `blank`; `IsValid` rules it out.
  pub pull : A → Ring A → A × Ring A
  pull blank r = (
    get_or r.slots r.head blank,
    record r { head = add_size r.head 1 % capacity; count = r.count - 1 },
  )

  -- The entries at the `n` positions from `i` on, round the array.
  abbrev pub span : A → List A → ℕ → ℕ → List A
  span blank slots i zero = []
  span blank slots i (suc n) = get_or slots (i % capacity) blank ∷ span blank slots (i + 1) n

  pub record IsValid (r : Ring A) : Type 0 where
    pub full_array : length r.slots ≡ capacity
    pub nonempty : 0 < capacity
    pub addressable : capacity < 2 ^ 64
    pub head_in : r.head < capacity
    pub count_in : r.count ≤ capacity
    pub tail_at : r.tail ≡ (r.head + r.count) % capacity
