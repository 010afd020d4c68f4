-- ===== src/Logs/Ring.antt =====
-- The ring buffer keeps the last entries in their order (api/logs.rs).
use native.Mathlib.Nat.{mod-eq_of_lt, mod-eq-sub-mod, mod-add-mod}
use snx_edge.Common.{
  ℕ, zero, suc, ◌+◌, ◌-◌, ◌%◌, ◌≤◌, ◌<◌, ◌≡◌, refl, sym, ap, ◌∙◌, inl, inr, true, false, List, [],
  ◌∷◌, ◌++◌, some, length, length-append, get_elem?, set, drop, ltb, ltb→lt, arith, Bool-cases,
}
use snx_edge.Logs.{min, walk, last_n}

pub not_ltb→le : (a b : ℕ) → ltb a b ≡ false → b ≤ a
not_ltb→le a b h = ground arith

pub lt→ltb : (a b : ℕ) → a < b → ltb a b ≡ true
lt→ltb a b h = ground arith

pub le→not_ltb : (a b : ℕ) → b ≤ a → ltb a b ≡ false
le→not_ltb a b h = ground arith

pub min-le : (a b : ℕ) → min a b ≤ b
min-le a b = ground arith

min-cut : (n len size : ℕ) → len < size → len - min n len ≡ len - min n size
min-cut n len size h = ground arith

module _ {A : Type 0} where
  get-left : (xs ys : List A) (i : ℕ) → i < length xs → get_elem? (xs ++ ys) i ≡ get_elem? xs i
  get-left [] ys i h = absurd (omega (arith, h))
  get-left (x ∷ xs) ys zero h = refl
  get-left (x ∷ xs) ys (suc i) h = get-left xs ys i (omega (arith, h))

  get-right : (xs ys : List A) (i : ℕ) → get_elem? (xs ++ ys) (length xs + i) ≡ get_elem? ys i
  get-right [] ys i = ap (get_elem? ys) (omega arith)
  get-right (x ∷ xs) ys i =
      let e : suc (length xs) + i ≡ suc (length xs + i) = omega arith in rw e (get-right xs ys i)

  drop-get :
      (xs : List A) (k : ℕ)
      → k < length xs
      → (x : A) × (get_elem? xs k ≡ some x) × (drop k xs ≡ x ∷ drop (suc k) xs)
  drop-get [] k h = absurd (omega (arith, h))
  drop-get (x ∷ xs) zero h = (x, refl, refl)
  drop-get (x ∷ xs) (suc k) h = drop-get xs k (omega (arith, h))

  pub drop-length : (xs : List A) → drop (length xs) xs ≡ []
  drop-length [] = refl
  drop-length (x ∷ xs) = drop-length xs

  pub set-middle :
      (xs : List A) (y : A) (ys : List A) (e : A) → set (xs ++ y ∷ ys) (length xs) e ≡ xs ++ e ∷ ys
  set-middle [] y ys e = refl
  set-middle (x ∷ xs) y ys e = ap (λ z. x ∷ z) (set-middle xs y ys e)

  pub drop-append : (k : ℕ) (xs ys : List A) → k ≤ length xs → drop k (xs ++ ys) ≡ drop k xs ++ ys
  drop-append zero xs ys h = refl
  drop-append (suc k) [] ys h = absurd (omega (arith, h))
  drop-append (suc k) (x ∷ xs) ys h = drop-append k xs ys (omega (arith, h))

  drop-none : (k : ℕ) → drop {A = A} k [] ≡ []
  drop-none zero = refl
  drop-none (suc k) = refl

  pub drop-drop : (a b : ℕ) (xs : List A) → drop a (drop b xs) ≡ drop (b + a) xs
  drop-drop a zero xs = ap (λ k. drop k xs) (omega arith)
  drop-drop a (suc b) [] = drop-none a ∙ sym (drop-none (suc b + a))
  drop-drop a (suc b) (x ∷ xs) =
      let e : suc b + a ≡ suc (b + a) = omega arith in rw e (drop-drop a b xs)

  -- An index past the end of the buffer wraps round to its start.
  ring-wrap :
      (early late : List A) (j : ℕ)
      → j < length early
      → get_elem? (early ++ late) ((length early + (length late + j)) % length (early ++ late))
        ≡ get_elem? (late ++ early) (length late + j)
  ring-wrap early late j h =
      let size = length-append early late in
      let above : length (early ++ late) ≤ length early + (length late + j) = omega (arith, size) in
      let low : j < length (early ++ late) = omega (arith, size, h) in
      let rest : length early + (length late + j) - length (early ++ late) ≡ j =
        omega (arith, size) in
      rw (mod-eq-sub-mod above, rest, mod-eq_of_lt low)
        (get-left early late j h ∙ sym (get-right late early j))

  -- The ring over its turning point: `early` stands before it in the buffer and `late` from it on, and
  -- the entry `k` of the view stands at the index that `last_n` computes.
  ring-get :
      (early late : List A) (k : ℕ)
      → k < length early + length late
      → get_elem? (early ++ late) ((length early + k) % length (early ++ late))
        ≡ get_elem? (late ++ early) k
  ring-get early late k h = elim (Bool-cases (ltb k (length late))) [
    | inl e ↦
        (let low : length early + k < length (early ++ late) =
            (let size = length-append early late in ground (arith, size)) in
          let small : k < length late = ltb→lt k (length late) e in
          rw (mod-eq_of_lt low) (get-right early late k ∙ sym (get-left late early k small)))
    | inr e ↦
        (let over = not_ltb→le k (length late) e in
          let j : length late + (k - length late) ≡ k = omega (arith, over) in
          let small : k - length late < length early = omega (arith, over, h) in
          rw (sym j) (ring-wrap early late (k - length late) small))
  ]

  walk-view :
      (early late : List A) (wanted i n : ℕ)
      → i + n ≡ wanted
      → wanted ≤ length early + length late
      → walk
          (early ++ late)
          ((length early + length (early ++ late) - wanted) % length (early ++ late))
          i
          n
        ≡ some (drop (length early + length late - wanted + i) (late ++ early))
  unfolding walk
  walk-view early late wanted i zero sum h =
      let size = length-append late early in
      let e : length early + length late - wanted + i ≡ length (late ++ early) =
        omega (arith, sum, h, size) in
      rw (e, drop-length (late ++ early)) refl
  walk-view early late wanted i (suc n) sum h =
      let k = length early + length late - wanted + i in
      let size = length-append early late in
      let view = length-append late early in
      let small : k < length early + length late = omega (arith, sum, h) in
      let inside : k < length (late ++ early) = omega (arith, small, view) in
      let (x, at, from) = drop-get (late ++ early) k inside in
      let shift : length early + length (early ++ late) - wanted + i ≡ length early + k =
        omega (arith, h, size) in
      let next : length early + length late - wanted + (i + 1) ≡ suc k = omega arith in
      let here : get_elem? (early ++ late) (
            ((length early + length (early ++ late) - wanted) % length (early ++ late) + i)
            % length (early ++ late))
          ≡ some x =
        (rw
          (
            mod-add-mod (length early + length (early ++ late) - wanted) (length (early ++ late)) i,
            shift,
          )
          (ring-get early late k small ∙ at)) in
      let later = walk-view early late wanted (i + 1) n (omega (arith, sum)) h in
      rw (here, later, next, from) refl

  pub last_n-filling :
      (size n : ℕ) (xs : List A)
      → length xs < size
      → last_n n
          (record { entries = xs; capacity = size; write_pos = length xs; count = length xs })
        ≡ some (drop (length xs - min n size) xs)
  unfolding last_n
  last_n-filling size n xs h = rw (lt→ltb (length xs) size h, min-cut n (length xs) size h) refl

  pub last_n-round :
      (size n count : ℕ) (early late : List A)
      → length early + length late ≡ size
      → last_n n (record {
        entries = early ++ late;
        capacity = size;
        write_pos = length early;
        count = count;
      })
        ≡ some (drop (size - min n size) (late ++ early))
  unfolding last_n
  last_n-round size n count early late h =
      let len : length (early ++ late) ≡ size = length-append early late ∙ h in
      let wanted = min n (length (early ++ late)) in
      let e = length-append early late in
      let bound : wanted ≤ length early + length late =
        omega (arith, e, min-le n (length (early ++ late))) in
      let start : length early + length late - wanted + 0 ≡ length (early ++ late) - wanted =
        omega (arith, e) in
      rw (sym len, le→not_ltb (length (early ++ late)) (length (early ++ late)) (omega arith))
        (walk-view early late wanted 0 wanted (omega arith) bound
          ∙ ap (λ k. some (drop k (late ++ early))) start)
