-- ===== src/RouterOs/Comment/Entries.antt =====
-- The comments of operator entries (`add_address` of routeros/client.rs).
use mathlib.Core.List.{append_assoc, reverse, reverse-cons, reverse-append}
use snx_edge.Common.{
  ℕ, ◌≡◌, refl, ap, ◌∙◌, Bool, true, false, ◌||◌, List, [], ◌∷◌, ◌++◌, Option, none, some, Text,
  codes, text_eq, text_eq_refl, starts_with, split, trim, any, arith, Bool-cases, inl, inr,
  is_whitespace, not, trim_start, strip_prefix,
}
use snx_edge.RouterOs.Comment.{
  semicolon, comment_matches_tag, comment_is_legacy, comment_matches_kind, comment_for_kind,
  entry_comment,
}
use snx_edge.RouterOs.Comment.Laws.{
  split-append, any-append, is_label, no_semicolon, kind_field, names_kind, names_kind-other,
  names_kind-kind_field, names_kind-tag, split-whole, split-for_kind, for_kind-matches_tag,
  matches_tag-append, matches_kind_lem, IsTag, or_false, no_semicolon-label, is_label-kind_field,
  starts_with-append, trim-label,
}

-- What stands behind the kind field.
abbrev pub note_pieces : Option Text → List Text
note_pieces none = []
note_pieces (some note) = split semicolon (codes "note=" ++ note)

split-entry :
    (tag kind : Text) (note : Option Text)
    → is_label kind ≡ true
    → split semicolon (entry_comment tag kind note)
      ≡ split semicolon tag ++ kind_field kind ∷ note_pieces note
unfolding entry_comment
split-entry tag kind none h = split-for_kind tag kind h
split-entry tag kind (some note) h =
    split-append semicolon (comment_for_kind tag kind) (codes "note=" ++ note)
    ∙ rw (split-for_kind tag kind h)
        (append_assoc (split semicolon tag) (kind_field kind ∷ []) (note_pieces (some note)))

entry-matches_tag :
    (tag kind : Text) (note : Option Text)
    → comment_matches_tag (entry_comment tag kind note) tag ≡ true
unfolding entry_comment
entry-matches_tag tag kind none = for_kind-matches_tag tag kind
entry-matches_tag tag kind (some note) =
    rw (append_assoc tag (codes ";kind=" ++ kind) (codes ";note=" ++ note))
      (matches_tag-append tag (kind_field kind ++ (codes ";note=" ++ note)))

pub entry-matches_kind :
    (tag kind other : Text) (note : Option Text)
    → IsTag tag
    → is_label kind ≡ true
    → comment_matches_kind (entry_comment tag kind note) tag other
      ≡ (text_eq kind other || any (names_kind other) (note_pieces note))
entry-matches_kind tag kind other note t h =
    matches_kind_lem _ tag other (entry-matches_tag tag kind note)
    ∙ rw (split-entry tag kind note h) (
        rw
          (any-append (names_kind other) (split semicolon tag) (kind_field kind ∷ note_pieces note))
          (rw (names_kind-tag tag other t) (rw (names_kind-kind_field kind other h))))

or_true : (b : Bool) → (b || true) ≡ true
or_true true = refl
or_true false = refl

any-middle {ℓ} :
    {A : Type ℓ} (p : A → Bool) (xs : List A) (y : A) (ys : List A)
    → p y ≡ true
    → any p (xs ++ y ∷ ys) ≡ true
any-middle p [] y ys h = ground arith
any-middle p (x ∷ xs) y ys h = ground (arith, any-middle p xs y ys h)

-- Trimming keeps a first character that is no space.
trim_start-last :
    (a : Text) (c : ℕ)
    → is_whitespace c ≡ false
    → (x : Text) × (trim_start (a ++ c ∷ []) ≡ x ++ c ∷ [])
unfolding trim_start
trim_start-last [] c h = ([], rw h)
trim_start-last (b ∷ a) c h = elim (Bool-cases (is_whitespace b)) [
  | inl e ↦ rw e (trim_start-last a c h)
  | inr e ↦ (b ∷ a, rw e)
]

trim-first : (c : ℕ) (s : Text) → is_whitespace c ≡ false → (x : Text) × (trim (c ∷ s) ≡ c ∷ x)
unfolding trim trim_start
trim-first c s h =
    let (x, e) = trim_start-last (reverse s) c h in
    (reverse x, rw h (rw (reverse-cons c s) (rw e (reverse-append x (c ∷ [])))))

note-names_no_kind :
    (kind note : Text)
    → no_semicolon note ≡ true
    → any (names_kind kind) (note_pieces (some note)) ≡ false
note-names_no_kind kind note h = rw (split-whole (codes "note=" ++ note) h) (
    rw (
      names_kind-other kind (codes "note=" ++ note) (
        let (x, e) = trim-first b'n' (codes "ote=" ++ note) (unfold is_whitespace in refl) in
        rw e (unfold starts_with strip_prefix in refl))))

-- An entry that an operator adds, with whatever note, is never taken for a legacy object.
pub entry-not_legacy :
    (tag kind : Text) (note : Option Text)
    → is_label kind ≡ true
    → comment_is_legacy (entry_comment tag kind note) tag ≡ false
unfolding comment_is_legacy
entry-not_legacy tag kind note h = rw (entry-matches_tag tag kind note) (
    rw (split-entry tag kind note h) (
      ap not (
        any-middle (λ kv. starts_with (codes "kind=") (trim kv)) (split semicolon tag)
          (kind_field kind) (note_pieces note)
          (rw (trim-label (kind_field kind) (is_label-kind_field kind h))
            (starts_with-append (codes "kind=") kind)))))

-- The comment that `add_address` writes for a kind of one label matches that kind and no other, if
-- the note has no semicolon and the tag is of one field that names no kind.
pub entry-own_kind :
    (tag kind other note : Text)
    → IsTag tag
    → is_label kind ≡ true
    → no_semicolon note ≡ true
    → comment_matches_kind (entry_comment tag kind (some note)) tag other ≡ text_eq kind other
entry-own_kind tag kind other note t h n =
    entry-matches_kind tag kind other (some note) t h
    ∙ rw (note-names_no_kind other note n) (or_false (text_eq kind other))

-- A note is not escaped: the comment that `add_address` writes for a note that ends in `;kind=`
-- and another kind of one label matches that other kind as well.
pub entry-note_names_kind :
    (tag kind other before : Text)
    → IsTag tag
    → is_label kind ≡ true
    → is_label other ≡ true
    → comment_matches_kind
        (entry_comment tag kind (some (before ++ semicolon ∷ kind_field other)))
        tag
        other
      ≡ true
entry-note_names_kind tag kind other before t h k =
    entry-matches_kind tag kind other (some (before ++ semicolon ∷ kind_field other)) t h
    ∙ rw (split-append semicolon (codes "note=" ++ before) (kind_field other)) (
        rw
          (split-whole (kind_field other)
            (no_semicolon-label (kind_field other) (is_label-kind_field other k)))
          (rw
            (any-middle (names_kind other) (split semicolon (codes "note=" ++ before))
              (kind_field other) [] (names_kind-kind_field other other k ∙ text_eq_refl other))
            (or_true (text_eq kind other))))
