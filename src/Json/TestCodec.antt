-- ===== src/Json/TestCodec.antt =====
-- A codec for JSON values, to have one at hand: each value is told by a tag, each text by its length.
use snx_edge.Common.{
  ℕ, zero, suc, ◌+◌, ◌≡◌, refl, sym, ap, ◌∙◌, true, false, [], ◌∷◌, ◌++◌, Option, none, some, Text,
  length, arith,
}
use snx_edge.Json.{
  Json, Items, Fields, null, bool, number, string, array, object, nil, cons, end, field,
}

-- The first characters of a text, and the others.
abbrev push_on : ℕ → Option (Text × Text) → Option (Text × Text)
push_on c none = none
push_on c (some (s, rest)) = some (c ∷ s, rest)

abbrev split_at : ℕ → Text → Option (Text × Text)
split_at zero t = some ([], t)
split_at (suc n) [] = none
split_at (suc n) (c ∷ t) = push_on c (split_at n t)

split_at-append : (s rest : Text) → split_at (length s) (s ++ rest) ≡ some (s, rest)
split_at-append [] rest = refl
split_at-append (c ∷ s) rest = ap (push_on c) (split_at-append s rest)

abbrev read_text : Text → Option (Text × Text)
read_text [] = none
read_text (n ∷ t) = split_at n t

abbrev write_text : Text → Text → Text
write_text s rest = length s ∷ s ++ rest

-- An addition that computes on its first number.
abbrev add : ℕ → ℕ → ℕ
add zero b = b
add (suc a) b = suc (add a b)

add_lem : (a b : ℕ) → add a b ≡ a + b
add_lem zero b = omega arith
add_lem (suc a) b = omega (arith, add_lem a b)

add-shift : (a b k : ℕ) → add (add a b) k ≡ add a (add b k)
add-shift a b k = rw (add_lem a b, add_lem (a + b) k, add_lem b k, add_lem a (b + k)) (omega arith)

add-swap : (a b k : ℕ) → add (add a b) k ≡ add b (add a k)
add-swap a b k = rw (add_lem a b, add_lem (a + b) k, add_lem a k, add_lem b (a + k)) (omega arith)

abbrev mutual
  size : Json → ℕ
  size null = 1
  size (bool b) = 1
  size (number n) = 1
  size (string s) = 1
  size (array xs) = suc (size_items xs)
  size (object o) = suc (size_fields o)

  size_items : Items → ℕ
  size_items nil = 1
  size_items (cons v xs) = suc (add (size v) (size_items xs))

  size_fields : Fields → ℕ
  size_fields end = 1
  size_fields (field k v o) = suc (add (size v) (size_fields o))

abbrev mutual
  write : Json → Text → Text
  write null rest = 0 ∷ rest
  write (bool true) rest = 1 ∷ rest
  write (bool false) rest = 2 ∷ rest
  write (number n) rest = 3 ∷ write_text n rest
  write (string s) rest = 4 ∷ write_text s rest
  write (array xs) rest = 5 ∷ write_items xs rest
  write (object o) rest = 6 ∷ write_fields o rest

  write_items : Items → Text → Text
  write_items nil rest = 0 ∷ rest
  write_items (cons v xs) rest = 1 ∷ write v (write_items xs rest)

  write_fields : Fields → Text → Text
  write_fields end rest = 0 ∷ rest
  write_fields (field k v o) rest = 1 ∷ write_text k (write v (write_fields o rest))

abbrev Reader : Type 0 → Type 0
Reader A = Option (A × Text)

abbrev also : {A B : Type 0} → Reader A → (A → Text → Reader B) → Reader B
also none f = none
also (some (a, rest)) f = f a rest

abbrev mutual
  read : ℕ → Text → Reader Json
  read (suc f) (zero ∷ t) = some (null, t)
  read (suc f) (suc zero ∷ t) = some (bool true, t)
  read (suc f) (suc (suc zero) ∷ t) = some (bool false, t)
  read (suc f) (suc (suc (suc zero)) ∷ t) = also (read_text t) (λ n rest. some (number n, rest))
  read (suc f) (suc (suc (suc (suc zero))) ∷ t) =
      also (read_text t) (λ s rest. some (string s, rest))
  read (suc f) (suc (suc (suc (suc (suc zero)))) ∷ t) =
      also (read_items f t) (λ xs rest. some (array xs, rest))
  read (suc f) (suc (suc (suc (suc (suc (suc zero))))) ∷ t) =
      also (read_fields f t) (λ o rest. some (object o, rest))
  read _ _ = none

  read_items : ℕ → Text → Reader Items
  read_items (suc f) (zero ∷ t) = some (nil, t)
  read_items (suc f) (suc zero ∷ t) =
      let rest = read_items f in
      also (read f t) (λ v t'. also (rest t') (λ xs t''. some (cons v xs, t'')))
  read_items _ _ = none

  read_fields : ℕ → Text → Reader Fields
  read_fields (suc f) (zero ∷ t) = some (end, t)
  read_fields (suc f) (suc zero ∷ t) =
      let value = read f in
      let rest = read_fields f in
      also (read_text t)
        (λ k t'. also (value t') (λ v t''. also (rest t'') (λ o t3. some (field k v o, t3))))
  read_fields _ _ = none

mutual
  read-write :
      (v : Json) (k : ℕ) (rest : Text) → read (add (size v) k) (write v rest) ≡ some (v, rest)
  read-write null k rest = refl
  read-write (bool true) k rest = refl
  read-write (bool false) k rest = refl
  read-write (number n) k rest = rw (split_at-append n rest) refl
  read-write (string s) k rest = rw (split_at-append s rest) refl
  read-write (array xs) k rest = rw (read_items-write xs k rest) refl
  read-write (object o) k rest = rw (read_fields-write o k rest) refl

  read_items-write :
      (xs : Items) (k : ℕ) (rest : Text)
      → read_items (add (size_items xs) k) (write_items xs rest) ≡ some (xs, rest)
  read_items-write nil k rest = refl
  read_items-write (cons v xs) k rest =
      let first : read (add (add (size v) (size_items xs)) k) (write v (write_items xs rest))
          ≡ some (v, write_items xs rest) =
        rw (add-shift (size v) (size_items xs) k)
          (read-write v (add (size_items xs) k) (write_items xs rest)) in
      let others : read_items (add (add (size v) (size_items xs)) k) (write_items xs rest)
          ≡ some (xs, rest) =
        rw (add-swap (size v) (size_items xs) k) (read_items-write xs (add (size v) k) rest) in
      rw (first, others) refl

  read_fields-write :
      (o : Fields) (k : ℕ) (rest : Text)
      → read_fields (add (size_fields o) k) (write_fields o rest) ≡ some (o, rest)
  read_fields-write end k rest = refl
  read_fields-write (field j v o) k rest =
      let first : read (add (add (size v) (size_fields o)) k) (write v (write_fields o rest))
          ≡ some (v, write_fields o rest) =
        rw (add-shift (size v) (size_fields o) k)
          (read-write v (add (size_fields o) k) (write_fields o rest)) in
      let others : read_fields (add (add (size v) (size_fields o)) k) (write_fields o rest)
          ≡ some (o, rest) =
        rw (add-swap (size v) (size_fields o) k) (read_fields-write o (add (size v) k) rest) in
      rw (split_at-append j (write v (write_fields o rest)), first, others) refl

-- The text starts with the size of the value.
abbrev whole : Reader Json → Option Json
whole none = none
whole (some (v, [])) = some v
whole (some (v, c ∷ rest)) = none

abbrev pub parse : Text → Option Json
parse [] = none
parse (n ∷ t) = whole (read n t)

abbrev pub print : Json → Option Text
print v = some (size v ∷ write v [])

pub parse-print : (v : Json) (s : Text) → print v ≡ some s → parse s ≡ some v
parse-print v s h =
    let is : size v ∷ write v [] ≡ s = cc in
    let reads : read (size v) (write v []) ≡ some (v, []) =
      sym (ap (λ n. read n (write v [])) (fuel (size v))) ∙ read-write v zero [] in
    rw (← is, reads) refl
  where
    fuel : (n : ℕ) → add n zero ≡ n
    fuel n = rw (add_lem n zero) (omega arith)
