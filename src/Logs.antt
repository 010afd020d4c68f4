-- ===== src/Logs.antt =====
-- The log history (LogBuffer of apps/snx-edge-server/src/api/logs.rs), over any entries.
mod History
mod Ring
mod Tests
use snx_edge.Common.{
  ℕ, zero, suc, ◌+◌, ◌-◌, ◌%◌, List, [], ◌∷◌, ◌++◌, Option, none, some, length, get_elem?, set,
  drop, ltb, if◌then◌else◌,
}

pub record LogBuffer (A : Type 0) : Type 0 where
  pub entries : List A
  pub capacity : ℕ
  pub write_pos : ℕ
  pub count : ℕ

abbrev pub min : ℕ → ℕ → ℕ
min a b = if ltb a b then a else b

module _ {A : Type 0} where
  -- `none` where the assertion fails.
  unfoldable pub new : ℕ → Option (LogBuffer A)
  new zero = none
  new (suc c) = some (record { entries = []; capacity = suc c; write_pos = 0; count = 0 })

  unfoldable pub push : A → LogBuffer A → LogBuffer A
  push e b = record b {
    entries =
        if ltb (length b.entries) b.capacity
        then b.entries ++ e ∷ []
        else set b.entries b.write_pos e;
    write_pos = (b.write_pos + 1) % b.capacity;
    count = b.count + 1;
  }

  -- A run of entries, the first one first.
  unfoldable pub push_all : List A → LogBuffer A → LogBuffer A
  push_all [] b = b
  push_all (e ∷ es) b = push_all es (push e b)

  abbrev pub cons_found : Option A → Option (List A) → Option (List A)
  cons_found (some e) (some es) = some (e ∷ es)
  cons_found _ _ = none

  -- `n` entries round the ring, from `start + i` on; `none` where an index is out of bounds.
  unfoldable pub walk : List A → ℕ → ℕ → ℕ → Option (List A)
  walk entries start i zero = some []
  walk entries start i (suc n) =
      cons_found (get_elem? entries ((start + i) % length entries)) (walk entries start (i + 1) n)

  unfoldable pub last_n : ℕ → LogBuffer A → Option (List A)
  last_n n b =
      let len = length b.entries in
      let wanted = min n len in
      if ltb len b.capacity
      then some (drop (len - wanted) b.entries)
      else walk b.entries ((b.write_pos + len - wanted) % len) 0 wanted
