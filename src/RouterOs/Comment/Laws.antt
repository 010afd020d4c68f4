-- ===== src/RouterOs/Comment/Laws.antt =====
-- What the comment matchers decide of the comments that the server writes.
use mathlib.Core.List.{
  reverse, reverse-cons, reverse-reverse, append_assoc, append-nil, reverse_aux,
}
use snx_edge.Common.{
  ℕ, ◌≡◌, refl, ap, ◌∙◌, Bool, true, false, not, ◌&&◌, ◌||◌, List, [], ◌∷◌, ◌++◌, Text, codes,
  text_eq, text_eq→≡, strip_prefix-append, starts_with, split, split_from, trim, trim_start,
  is_whitespace, any, all, arith, ◌==◌, Bool-cases, inl, inr,
}
use snx_edge.RouterOs.Comment.{
  semicolon, comment_matches_tag, comment_matches_kind, comment_for_kind,
}

-- Splitting at a separator splits the pieces on both sides apart.
split_from-append :
    (sep : ℕ) (cur a b : Text)
    → split_from sep cur (a ++ sep ∷ b) ≡ split_from sep cur a ++ split_from sep [] b
unfolding split_from
split_from-append sep cur [] b = ground arith
split_from-append sep cur (c ∷ a) b =
    ground (arith, split_from-append sep [] a b, split_from-append sep (c ∷ cur) a b)

pub split-append : (sep : ℕ) (a b : Text) → split sep (a ++ sep ∷ b) ≡ split sep a ++ split sep b
unfolding split
split-append sep a b = split_from-append sep [] a b

pub any-append {ℓ} :
    {A : Type ℓ} (p : A → Bool) (xs ys : List A) → any p (xs ++ ys) ≡ (any p xs || any p ys)
any-append p [] ys = refl
any-append p (x ∷ xs) ys = ground (arith, any-append p xs ys)

-- No character of a label separates fields or is trimmed away.
abbrev pub is_label : Text → Bool
is_label = all (λ c. not (c == semicolon) && not (is_whitespace c))

abbrev pub no_semicolon : Text → Bool
no_semicolon = all (λ c. not (c == semicolon))

split_from-whole :
    (cur a : Text) → no_semicolon a ≡ true → split_from semicolon cur a ≡ (reverse cur ++ a) ∷ []
unfolding split_from
split_from-whole cur [] h = rw (append-nil (reverse cur))
split_from-whole cur (c ∷ a) h = elim (Bool-cases (c == semicolon)) [
  | inl e ↦ absurd (ground arith)
  | inr e ↦
      rw e (rw (split_from-whole (c ∷ cur) a (ground arith)) (rw (reverse-cons, append_assoc)))
]

trim_start-label : (s : Text) → is_label s ≡ true → trim_start s ≡ s
unfolding trim_start
trim_start-label [] h = refl
trim_start-label (c ∷ s) h = ground (arith)

all-reverse_aux {ℓ} :
    {A : Type ℓ} (p : A → Bool) (xs ys : List A)
    → all p xs ≡ true
    → all p ys ≡ true
    → all p (reverse_aux xs ys) ≡ true
all-reverse_aux p [] ys h k = k
all-reverse_aux p (x ∷ xs) ys h k = all-reverse_aux p xs (x ∷ ys) (ground arith) (ground arith)

pub trim-label : (s : Text) → is_label s ≡ true → trim s ≡ s
unfolding trim
trim-label s h =
    rw (trim_start-label s h)
      (rw (trim_start-label (reverse s) (all-reverse_aux _ s [] h refl)) (reverse-reverse s))

pub starts_with-append : (p s : Text) → starts_with p (p ++ s) ≡ true
unfolding starts_with
starts_with-append p s = rw (strip_prefix-append p s, starts_with)

-- A tag followed by further fields is the server's.
pub matches_tag-append :
    (tag rest : Text) → comment_matches_tag (tag ++ semicolon ∷ rest) tag ≡ true
unfolding comment_matches_tag
matches_tag-append tag rest = rw (strip_prefix-append tag (semicolon ∷ rest))

-- The field that names the kind, and whether it names another one.
abbrev pub kind_field : Text → Text
kind_field kind = codes "kind=" ++ kind

pub is_label-kind_field : (kind : Text) → is_label kind ≡ true → is_label (kind_field kind) ≡ true
unfolding is_whitespace
is_label-kind_field kind h = h

pub no_semicolon-label : (s : Text) → is_label s ≡ true → no_semicolon s ≡ true
no_semicolon-label [] h = refl
no_semicolon-label (c ∷ s) h = ground (arith, no_semicolon-label s)

kind_field-eq : (a b : Text) → text_eq (kind_field a) (kind_field b) ≡ text_eq a b
unfolding text_eq
kind_field-eq a b = refl

pub names_kind : Text → Text → Bool
names_kind kind kv = text_eq (trim kv) (kind_field kind)

-- A piece that does not begin with `kind=` names no kind.
pub names_kind-other :
    (kind kv : Text) → starts_with (codes "kind=") (trim kv) ≡ false → names_kind kind kv ≡ false
unfolding names_kind
names_kind-other kind kv h = elim (Bool-cases (text_eq (trim kv) (kind_field kind))) [
  | inl e ↦
      (let s : trim kv ≡ kind_field kind = text_eq→≡ _ _ e in
        let t : starts_with (codes "kind=") (trim kv) ≡ true =
          rw s (starts_with-append (codes "kind=") kind) in
        cc)
  | inr e ↦ e
]

pub names_kind-kind_field :
    (k kind : Text) → is_label k ≡ true → names_kind kind (kind_field k) ≡ text_eq k kind
unfolding names_kind
names_kind-kind_field k kind h =
    rw (trim-label (kind_field k) (is_label-kind_field k h)) (kind_field-eq k kind)

pub split-whole : (a : Text) → no_semicolon a ≡ true → split semicolon a ≡ a ∷ []
unfolding split
split-whole a h = split_from-whole [] a h

pub split-for_kind :
    (tag kind : Text)
    → is_label kind ≡ true
    → split semicolon (comment_for_kind tag kind) ≡ split semicolon tag ++ kind_field kind ∷ []
unfolding comment_for_kind
split-for_kind tag kind h =
    split-append semicolon tag (kind_field kind)
    ∙ ap (λ z. split semicolon tag ++ z)
        (split-whole (kind_field kind)
          (no_semicolon-label (kind_field kind) (is_label-kind_field kind h)))

-- A tag that the server may be given: one field, which is no `kind=` field.
pub record IsTag (tag : Text) : Type 0 where
  pub one_field : no_semicolon tag ≡ true
  pub no_kind : starts_with (codes "kind=") (trim tag) ≡ false

pub or_false : (b : Bool) → (b || false) ≡ b
or_false true = refl
or_false false = refl

pub for_kind-matches_tag :
    (tag kind : Text) → comment_matches_tag (comment_for_kind tag kind) tag ≡ true
unfolding comment_for_kind
for_kind-matches_tag tag kind = matches_tag-append tag (kind_field kind)

pub names_kind-tag :
    (tag kind : Text) → IsTag tag → any (names_kind kind) (split semicolon tag) ≡ false
names_kind-tag tag kind t =
    rw (split-whole tag t.one_field) (rw (names_kind-other kind tag t.no_kind))

-- Matching a kind looks for a field that names it, behind the tag.
pub matches_kind_lem :
    (comment tag kind : Text)
    → comment_matches_tag comment tag ≡ true
    → comment_matches_kind comment tag kind ≡ any (names_kind kind) (split semicolon comment)
unfolding comment_matches_kind names_kind
matches_kind_lem comment tag kind h = rw h

-- The comment that `comment_for_kind` makes for a kind of one label matches that kind and no
-- other, if the tag is of one field that names no kind.
pub for_kind-matches :
    (tag kind other : Text)
    → IsTag tag
    → is_label kind ≡ true
    → comment_matches_kind (comment_for_kind tag kind) tag other ≡ text_eq kind other
for_kind-matches tag kind other t h =
    matches_kind_lem _ tag other (for_kind-matches_tag tag kind)
    ∙ rw (split-for_kind tag kind h) (
        rw (any-append (names_kind other) (split semicolon tag) (kind_field kind ∷ [])) (
          rw (names_kind-tag tag other t)
            (rw (names_kind-kind_field kind other h) (or_false (text_eq kind other)))))
