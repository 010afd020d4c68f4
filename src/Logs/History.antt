-- ===== src/Logs/History.antt =====
-- The log history after any number of entries (api/logs.rs).
use native.Mathlib.Nat.{mod-eq_of_lt, mod_self}
use snx_edge.Common.{
  ℕ, zero, suc, ◌+◌, ◌-◌, ◌%◌, ◌≤◌, ◌<◌, ◌≡◌, refl, sym, ap, ◌∙◌, ◌⊎◌, inl, inr, List, [], ◌∷◌,
  ◌++◌, some, length, length-append, drop, ltb, ltb→lt, arith, Bool-cases,
}
use mathlib.Core.Option.{none-ne-some, some-injective}
use mathlib.Core.List.{append_assoc, append-nil}
use snx_edge.Logs.{LogBuffer, min, new, push, push_all, last_n}
use snx_edge.Logs.Ring.{
  set-middle, drop-append, drop-drop, last_n-filling, last_n-round, lt→ltb, le→not_ltb, min-le,
  not_ltb→le,
}

module _ {A : Type 0} where
  -- What the buffer holds after the entries `xs`, the oldest first.
  Filling : ℕ → List A → LogBuffer A → Type 0
  Filling size xs b =
      (length xs < size)
      × (b ≡ record { entries = xs; capacity = size; write_pos = length xs; count = length xs })

  Round : ℕ → List A → LogBuffer A → Type 0
  Round size xs b =
      (early : List A) × (oldest : A) × (late : List A) × (length early + suc (length late) ≡ size)
      × (size ≤ length xs)
      × (oldest ∷ late ++ early ≡ drop (length xs - size) xs)
      × (b ≡ record {
        entries = early ++ oldest ∷ late;
        capacity = size;
        write_pos = length early;
        count = length xs;
      })

  Keeps : ℕ → List A → LogBuffer A → Type 0
  Keeps size xs b = Filling size xs b ⊎ Round size xs b

  last_n-Keeps :
      (size n : ℕ) (xs : List A) (b : LogBuffer A)
      → Keeps size xs b
      → last_n n b ≡ some (drop (length xs - min n size) xs)
  unfolding Keeps Filling Round
  last_n-Keeps size n xs b (inl (small, e)) = rw e (last_n-filling size n xs small)
  last_n-Keeps size n xs b (inr (early, oldest, late, full, long, view, e)) =
      let bound = min-le n size in
      let k : length xs - size + (size - min n size) ≡ length xs - min n size =
        omega (arith, long, bound) in
      rw (e, last_n-round size n (length xs) early (oldest ∷ late) full, view)
        (ap (λ ys. some ys)
          (drop-drop (size - min n size) (length xs - size) xs ∙ ap (λ m. drop m xs) k))

  -- The buffer at its turning point, where the next entry goes to its start.
  turned-Round :
      (size : ℕ) (xs ys : List A) (b : LogBuffer A)
      → length ys ≡ size
      → 0 < size
      → size ≤ length xs
      → ys ≡ drop (length xs - size) xs
      → b ≡ record { entries = ys; capacity = size; write_pos = 0; count = length xs }
      → Round size xs b
  unfolding Round
  turned-Round size xs [] b full some_room long view e = absurd (omega (arith, full, some_room))
  turned-Round size xs (y ∷ ys) b full some_room long view e =
      ([], y, ys, omega (arith, full), long, ap (λ zs. y ∷ zs) (append-nil ys) ∙ view, e)

  view-push :
      (size : ℕ) (xs : List A) (oldest : A) (rest : List A) (e : A)
      → 0 < size
      → size ≤ length xs
      → oldest ∷ rest ≡ drop (length xs - size) xs
      → rest ++ e ∷ [] ≡ drop (length (xs ++ e ∷ []) - size) (xs ++ e ∷ [])
  view-push size xs oldest rest e some_room long view =
      let len = length-append xs (e ∷ []) in
      let k = length xs - size in
      let next : length (xs ++ e ∷ []) - size ≡ k + 1 = omega (arith, len, long) in
      let inside : k + 1 ≤ length xs = omega (arith, some_room, long) in
      let tail : rest ≡ drop (k + 1) xs = ap (drop 1) view ∙ drop-drop 1 k xs in
      rw (next, drop-append (k + 1) xs (e ∷ []) inside) (ap (λ zs. zs ++ e ∷ []) tail)

  push-end :
      (size count : ℕ) (xs : List A) (e : A)
      → length xs < size
      → push e (record { entries = xs; capacity = size; write_pos = length xs; count = count })
        ≡ record {
          entries = xs ++ e ∷ [];
          capacity = size;
          write_pos = (length xs + 1) % size;
          count = count + 1;
        }
  unfolding push
  push-end size count xs e h = rw (lt→ltb (length xs) size h) refl

  push-full :
      (size count : ℕ) (early : List A) (oldest : A) (late : List A) (e : A)
      → length early + suc (length late) ≡ size
      → push e (record {
        entries = early ++ oldest ∷ late;
        capacity = size;
        write_pos = length early;
        count = count;
      })
        ≡ record {
          entries = early ++ e ∷ late;
          capacity = size;
          write_pos = (length early + 1) % size;
          count = count + 1;
        }
  unfolding push
  push-full size count early oldest late e h =
      let len = length-append early (oldest ∷ late) ∙ h in
      rw (len, le→not_ltb size size (omega arith), set-middle early oldest late e) refl

  push-filling-Keeps :
      (size : ℕ) (xs : List A) (e : A)
      → length xs < size
      → Keeps size (xs ++ e ∷ []) (
          push e
            (record { entries = xs; capacity = size; write_pos = length xs; count = length xs }))
  unfolding Keeps Filling
  push-filling-Keeps size xs e h =
      let len : length (xs ++ e ∷ []) ≡ length xs + 1 = length-append xs (e ∷ []) in
      elim (Bool-cases (ltb (length xs + 1) size)) [
        | inl t ↦
            (let small = ltb→lt (length xs + 1) size t in
              inl (
                omega (arith, len, small),
                push-end size (length xs) xs e h ∙ rw (mod-eq_of_lt small, len) refl,
              ))
        | inr t ↦
            (let over = not_ltb→le (length xs + 1) size t in
              let full : length xs + 1 ≡ size = omega (arith, over, h) in
              let none_lost : length (xs ++ e ∷ []) - size ≡ 0 = omega (arith, len, full) in
              inr (
                turned-Round size (xs ++ e ∷ []) (xs ++ e ∷ [])
                  (push e (record {
                    entries = xs;
                    capacity = size;
                    write_pos = length xs;
                    count = length xs;
                  }))
                  (len ∙ full) (omega (arith, h)) (omega (arith, len, full)) (rw none_lost refl)
                  (push-end size (length xs) xs e h ∙ rw (full, mod_self size, len, full) refl)))
      ]

  push-Round :
      (size : ℕ) (xs : List A) (early : List A) (oldest : A) (late : List A) (e : A)
      → length early + suc (length late) ≡ size
      → size ≤ length xs
      → oldest ∷ late ++ early ≡ drop (length xs - size) xs
      → Round size (xs ++ e ∷ []) (
          push e (record {
            entries = early ++ oldest ∷ late;
            capacity = size;
            write_pos = length early;
            count = length xs;
          }))
  unfolding Round
  push-Round size xs early oldest [] e full long view =
      let len : length (xs ++ e ∷ []) ≡ length xs + 1 = length-append xs (e ∷ []) in
      let size_e : length (early ++ e ∷ []) ≡ size = length-append early (e ∷ []) ∙ full in
      turned-Round size (xs ++ e ∷ []) (early ++ e ∷ [])
        (push e (record {
          entries = early ++ oldest ∷ [];
          capacity = size;
          write_pos = length early;
          count = length xs;
        }))
        size_e (omega (arith, full)) (omega (arith, len, long))
        (view-push size xs oldest early e (omega (arith, full)) long view)
        (push-full size (length xs) early oldest [] e full ∙ rw (full, mod_self size, len) refl)
  push-Round size xs early oldest (l ∷ late) e full long view =
      let len : length (xs ++ e ∷ []) ≡ length xs + 1 = length-append xs (e ∷ []) in
      let early_len : length (early ++ e ∷ []) ≡ length early + 1 = length-append early (e ∷ []) in
      let below : length early + 1 < size = omega (arith, full) in
      let moved : (early ++ e ∷ []) ++ l ∷ late ≡ early ++ e ∷ l ∷ late =
        append_assoc early (e ∷ []) (l ∷ late) in
      let turned : (l ∷ late ++ early) ++ e ∷ [] ≡ l ∷ late ++ (early ++ e ∷ []) =
        append_assoc (l ∷ late) early (e ∷ []) in
      (
        early ++ e ∷ [],
        l,
        late,
        omega (arith, early_len, full),
        omega (arith, len, long),
        sym turned ∙ view-push size xs oldest (l ∷ late ++ early) e (omega (arith, full)) long view,
        push-full size (length xs) early oldest (l ∷ late) e full
            ∙ rw (mod-eq_of_lt below, moved, early_len, len) refl,
      )

  push-Keeps :
      (size : ℕ) (xs : List A) (e : A) (b : LogBuffer A)
      → Keeps size xs b
      → Keeps size (xs ++ e ∷ []) (push e b)
  unfolding Keeps Filling Round
  push-Keeps size xs e b (inl (small, eq)) = rw eq (push-filling-Keeps size xs e small)
  push-Keeps size xs e b (inr (early, oldest, late, full, long, view, eq)) =
      rw eq (inr (push-Round size xs early oldest late e full long view))

  push_all-Keeps :
      (size : ℕ) (xs es : List A) (b : LogBuffer A)
      → Keeps size xs b
      → Keeps size (xs ++ es) (push_all es b)
  unfolding push_all
  push_all-Keeps size xs [] b h = rw (append-nil xs) h
  push_all-Keeps size xs (e ∷ es) b h =
      rw (sym (append_assoc xs (e ∷ []) es))
        (push_all-Keeps size (xs ++ e ∷ []) es (push e b) (push-Keeps size xs e b h))

  -- After any run of entries, a log buffer made by `new` answers `last_n` with the last `n` of
  -- them, or the last of its capacity if `n` is more, in the order in which they were pushed; no
  -- index is out of bounds.
  pub last_n-push_all :
      (size n : ℕ) (start : LogBuffer A) (es : List A)
      → new size ≡ some start
      → last_n n (push_all es start) ≡ some (drop (length es - min n size) es)
  unfolding new Keeps Filling
  last_n-push_all zero n start es made = absurd (none-ne-some start made)
  last_n-push_all (suc size) n start es made =
      let empty : LogBuffer A = (record {
        entries = [];
        capacity = suc size;
        write_pos = 0;
        count = 0;
      }) in
      let e : empty ≡ start = some-injective empty start made in
      last_n-Keeps (suc size) n es (push_all es start)
        (push_all-Keeps (suc size) [] es start (inl (omega arith, sym e)))
