-- ===== src/Servers/Selection.antt =====
-- Which server is active after any use of the list (apps/snx-edge-ctl/src/servers.rs).
use mathlib.Core.Path.{subst}
use snx_edge.Common.{
  ℕ, zero, suc, ◌-◌, ◌≤◌, ◌<◌, ◌≡◌, refl, sym, ap, ◌∙◌, ◌⊎◌, inl, inr, Bool, true, false, List, [],
  ◌∷◌, ◌++◌, map, Option, none, some, Text, text_eq_sym, length, get_elem?, any, ltb, ◌==◌, ==_iff,
  ltb→lt, Bool-cases, arith, if◌then◌else◌,
}
use snx_edge.Servers.{
  ServerEntry, ClientSettings, initial, is_named, eq_ignore_ascii_case, shifted, position,
  remove_at, selected, active, add, first_of, adjusted, taken, ascii_lower, is_single,
  trim_end_slashes, removed_at, remove, with_default, set_default,
}

-- Either there is no server and none is active, or the active one is there.
abbrev pub Chosen : Option ℕ → List ServerEntry → Type 0
Chosen a es = ((es ≡ []) × (a ≡ none)) ⊎ ((e : ServerEntry) × (selected a es ≡ some e))

-- No name is used twice, up to the case of its letters.
abbrev pub Distinct : List ServerEntry → Type 0
Distinct [] = Unit
Distinct (e ∷ es) = (any (is_named e.name) es ≡ false) × Distinct es

abbrev pub IsValid : ClientSettings → Type 0
IsValid s = Chosen s.active_server s.servers × Distinct s.servers

-- One command that succeeds.
pub data Step : ClientSettings → ClientSettings → Type 0 where
  adds : {s t : ClientSettings} (name url : Text) (i : ℕ) → add name url s ≡ some (i, t) → Step s t
  removes :
      {s t : ClientSettings} (name : Text) (e : ServerEntry)
      → remove name s ≡ some (e, t)
      → Step s t
  defaults : {s t : ClientSettings} (name : Text) → set_default name s ≡ some t → Step s t

pub data Reach : ClientSettings → Type 0 where
  start : Reach initial
  later : {s t : ClientSettings} → Reach s → Step s t → Reach t

get_elem?-snoc :
    (es : List ServerEntry) (x e : ServerEntry) (i : ℕ)
    → get_elem? es i ≡ some e
    → get_elem? (es ++ x ∷ []) i ≡ some e
get_elem?-snoc [] x e i h = cc
get_elem?-snoc (y ∷ es) x e zero h = h
get_elem?-snoc (y ∷ es) x e (suc i) h = get_elem?-snoc es x e i h

position-found :
    (p : ServerEntry → Bool) (es : List ServerEntry) (i : ℕ)
    → position p es ≡ some i
    → (e : ServerEntry) × (get_elem? es i ≡ some e)
unfolding position
position-found p [] i h = cc
position-found p (e ∷ es) i h = elim (Bool-cases (p e)) [
  | inl t ↦
      (let is : 0 ≡ i = (let at : some 0 ≡ some i = rw t at h in cc at) in (e, rw (← is) refl))
  | inr f ↦ below (position p es) (λ j at. position-found p es j at) (rw f at h)
]
  where
    below :
        (o : Option ℕ)
        → ((j : ℕ) → o ≡ some j → (x : ServerEntry) × (get_elem? es j ≡ some x))
        → shifted o ≡ some i
        → (x : ServerEntry) × (get_elem? (e ∷ es) i ≡ some x)
    below none found h = cc
    below (some j) found h =
        let is : suc j ≡ i = cc in let (x, at) = found j refl in (x, rw (← is) at)

remove_at-below :
    (i j : ℕ) (es : List ServerEntry) → j < i → get_elem? (remove_at i es) j ≡ get_elem? es j
unfolding remove_at
remove_at-below i j [] h = refl
remove_at-below zero j (e ∷ es) h = absurd (omega (arith, h))
remove_at-below (suc i) zero (e ∷ es) h = refl
remove_at-below (suc i) (suc j) (e ∷ es) h = remove_at-below i j es (omega (arith, h))

remove_at-above :
    (i j : ℕ) (es : List ServerEntry) → i ≤ j → get_elem? (remove_at i es) j ≡ get_elem? es (suc j)
unfolding remove_at
remove_at-above i j [] h = refl
remove_at-above zero j (e ∷ es) h = refl
remove_at-above (suc i) zero (e ∷ es) h = absurd (omega (arith, h))
remove_at-above (suc i) (suc j) (e ∷ es) h = remove_at-above i j es (omega (arith, h))

-- The active server after a removal.
adjusted-selected :
    (i a : ℕ) (es : List ServerEntry) (e : ServerEntry)
    → get_elem? es a ≡ some e
    → (a ≡ i) ⊎ (selected (adjusted i (remove_at i es) (some a)) (remove_at i es) ≡ some e)
adjusted-selected i a es e h = elim (Bool-cases (a == i)) [
  | inl same ↦ inl ((==_iff a i).0 same)
  | inr other ↦ (elim (Bool-cases (ltb i a)) [
    | inl above ↦ inr (rw (other, above) (after a (ltb→lt i a above) h))
    | inr below ↦ inr (rw (other, below) (remove_at-below i a es (under other below) ∙ h))
  ])
]
  where
    under : (a == i) ≡ false → ltb i a ≡ false → a < i
    under other below = ground (arith, other, below)

    after : (b : ℕ) → i < b → get_elem? es b ≡ some e → get_elem? (remove_at i es) (b - 1) ≡ some e
    after zero lt h = absurd (omega (arith, lt))
    after (suc b) lt h = rw (less b) (remove_at-above i b es (omega (arith, lt)) ∙ h)
      where
        less : (b : ℕ) → suc b - 1 ≡ b
        less b = omega arith

first_of-Chosen : (es : List ServerEntry) → Chosen (first_of es) es
first_of-Chosen [] = inl (refl, refl)
first_of-Chosen (e ∷ es) = inr (e, refl)

remove_at-Chosen :
    (i : ℕ) (a : Option ℕ) (es : List ServerEntry)
    → Chosen a es
    → Chosen (adjusted i (remove_at i es) a) (remove_at i es)
unfolding remove_at
remove_at-Chosen i a es (inl (empty, unset)) = rw (empty, unset) (inl (refl, refl))
remove_at-Chosen i none es (inr (e, h)) = cc
remove_at-Chosen i (some a) es (inr (e, h)) = elim (adjusted-selected i a es e h) [
  | inr kept ↦ inr (e, kept)
  | inl same ↦ rw ((==_iff a i).1 same) (first_of-Chosen (remove_at i es))
]

eq_sym : (s t : Text) → eq_ignore_ascii_case s t ≡ eq_ignore_ascii_case t s
unfolding eq_ignore_ascii_case
eq_sym s t = text_eq_sym (map ascii_lower s) (map ascii_lower t)

any-snoc :
    (name : Text) (es : List ServerEntry) (x : ServerEntry)
    → any (is_named name) es ≡ false
    → is_named name x ≡ false
    → any (is_named name) (es ++ x ∷ []) ≡ false
any-snoc name [] x h e = rw e refl
any-snoc name (y ∷ es) x h e = ground (arith, any-snoc name es x)

Distinct-snoc :
    (es : List ServerEntry) (x : ServerEntry)
    → Distinct es
    → any (is_named x.name) es ≡ false
    → Distinct (es ++ x ∷ [])
Distinct-snoc [] x d h = (refl, tt)
Distinct-snoc (e ∷ es) x (first, rest) h = elim (Bool-cases (is_named x.name e)) [
  | inl t ↦ (let never : true ≡ false = rw t at h in cc never)
  | inr f ↦
      (any-snoc e.name es x first (eq_sym x.name e.name ∙ f), Distinct-snoc es x rest (rw f at h))
]

any-remove_at :
    (name : Text) (i : ℕ) (es : List ServerEntry)
    → any (is_named name) es ≡ false
    → any (is_named name) (remove_at i es) ≡ false
unfolding remove_at
any-remove_at name i [] h = refl
any-remove_at name zero (e ∷ es) h = ground (arith, h)
any-remove_at name (suc i) (e ∷ es) h = ground (arith, any-remove_at name i es)

Distinct-remove_at : (i : ℕ) (es : List ServerEntry) → Distinct es → Distinct (remove_at i es)
unfolding remove_at
Distinct-remove_at i [] d = tt
Distinct-remove_at zero (e ∷ es) (first, rest) = rest
Distinct-remove_at (suc i) (e ∷ es) (first, rest) =
    (any-remove_at e.name i es first, Distinct-remove_at i es rest)

add-IsValid :
    (s t : ClientSettings) (name url : Text) (i : ℕ)
    → IsValid s
    → add name url s ≡ some (i, t)
    → IsValid t
unfolding add
add-IsValid s t name url i (chosen, distinct) h =
    elim (Bool-cases (any (is_named name) s.servers)) [
      | inl taken_name ↦ (let never : none ≡ some (i, t) = rw taken_name at h in cc never)
      | inr free ↦
          (let is = rw free at h in
            subst IsValid (made (length s.servers, after) is) (
              chosen_after s.active_server s.servers chosen,
              Distinct-snoc s.servers entry distinct free,
            ))
    ]
  where
    entry : ServerEntry
    entry = record {
      name = name;
      url = trim_end_slashes url;
      auto_connect = false;
      last_profile_id = none;
    }

    after : ClientSettings
    after = record s {
      servers = s.servers ++ entry ∷ [];
      active_server = if is_single s.servers then some 0 else s.active_server;
    }

    made : (p : ℕ × ClientSettings) → some p ≡ some (i, t) → p.1 ≡ t
    made p h = let is : p ≡ (i, t) = cc in ap (λ (q : ℕ × ClientSettings). q.1) is

    chosen_after :
        (a : Option ℕ) (es : List ServerEntry)
        → Chosen a es
        → Chosen (if is_single es then some 0 else a) (es ++ entry ∷ [])
    chosen_after a [] c = inr (entry, refl)
    chosen_after a (x ∷ es) (inl (empty, unset)) = cc
    chosen_after none (x ∷ es) (inr (e, h)) = cc
    chosen_after (some j) (x ∷ es) (inr (e, h)) = inr (e, get_elem?-snoc (x ∷ es) entry e j h)

remove-IsValid :
    (s t : ClientSettings) (name : Text) (e : ServerEntry)
    → IsValid s
    → remove name s ≡ some (e, t)
    → IsValid t
unfolding remove
remove-IsValid s t name e (chosen, distinct) h = at (position (is_named name) s.servers) h
  where
    at : (o : Option ℕ) → removed_at s o ≡ some (e, t) → IsValid t
    at none h = cc
    at (some idx) h = from idx (get_elem? s.servers idx) h
      where
        from : (idx : ℕ) (o : Option ServerEntry) → taken s idx o ≡ some (e, t) → IsValid t
        from idx none h = cc
        from idx (some x) h =
            let is : (
              x,
              record s {
                servers = remove_at idx s.servers;
                active_server = adjusted idx (remove_at idx s.servers) s.active_server;
              },
            )
                ≡ (e, t) =
              cc in
            subst IsValid (ap (λ (q : ServerEntry × ClientSettings). q.1) is) (
              remove_at-Chosen idx s.active_server s.servers chosen,
              Distinct-remove_at idx s.servers distinct,
            )

set_default-IsValid :
    (s t : ClientSettings) (name : Text) → IsValid s → set_default name s ≡ some t → IsValid t
unfolding set_default
set_default-IsValid s t name (chosen, distinct) h =
    at (position (is_named name) s.servers)
      (λ i found. position-found (is_named name) s.servers i found) h
  where
    at :
        (o : Option ℕ)
        → ((i : ℕ) → o ≡ some i → (e : ServerEntry) × (get_elem? s.servers i ≡ some e))
        → with_default s o ≡ some t
        → IsValid t
    at none found h = cc
    at (some i) found h =
        let is : record s { active_server = some i } ≡ t = cc in
        subst IsValid is (inr (found i refl), distinct)

Step-IsValid : (s t : ClientSettings) → Step s t → IsValid s → IsValid t
Step-IsValid s t (adds name url i h) v = add-IsValid s t name url i v h
Step-IsValid s t (removes name e h) v = remove-IsValid s t name e v h
Step-IsValid s t (defaults name h) v = set_default-IsValid s t name v h

-- Whatever servers are added, removed and chosen, starting from no settings, no two servers have
-- the same name up to the case of its letters, and either there is no server and none is active,
-- or the active one is in the list.
pub Reach-IsValid : (s : ClientSettings) → Reach s → IsValid s
unfolding initial
Reach-IsValid _ start = (inl (refl, refl), tt)
Reach-IsValid t (later {s = s} reach step) = Step-IsValid s t step (Reach-IsValid s reach)

-- After a server is removed, the one that was active is still the active one, unless it is the one
-- that was removed.
pub remove-active :
    (s t : ClientSettings) (name : Text) (removed e : ServerEntry)
    → active s ≡ some e
    → remove name s ≡ some (removed, t)
    → (active t ≡ some e) ⊎ (removed ≡ e)
unfolding active remove
remove-active s t name removed e is_active h = at (position (is_named name) s.servers) h
  where
    at : (o : Option ℕ) → removed_at s o ≡ some (removed, t) → (active t ≡ some e) ⊎ (removed ≡ e)
    at none h = cc
    at (some idx) h = from idx (get_elem? s.servers idx) refl h
      where
        kept :
            (idx : ℕ) (a : Option ℕ)
            → selected a s.servers ≡ some e
            → (selected (adjusted idx (remove_at idx s.servers) a) (remove_at idx s.servers)
                ≡ some e)
              ⊎ (a ≡ some idx)
        kept idx none h = cc
        kept idx (some j) h = elim (adjusted-selected idx j s.servers e h) [
          | inl same ↦ inr (ap (λ i. some i) same)
          | inr still ↦ inl still
        ]

        from :
            (idx : ℕ) (o : Option ServerEntry)
            → get_elem? s.servers idx ≡ o
            → taken s idx o ≡ some (removed, t)
            → (active t ≡ some e) ⊎ (removed ≡ e)
        from idx none there h = cc
        from idx (some x) there h = elim (kept idx s.active_server is_active) [
          | inl still ↦ inl (moved still)
          | inr chose ↦ inr (same chose)
        ]
          where
            after : ClientSettings
            after = record s {
              servers = remove_at idx s.servers;
              active_server = adjusted idx (remove_at idx s.servers) s.active_server;
            }

            is : ◌≡◌ {A = ServerEntry × ClientSettings} (x, after) (removed, t)
            is = cc

            moved : selected after.active_server after.servers ≡ some e → active t ≡ some e
            moved still =
                subst (λ (u : ClientSettings). selected u.active_server u.servers ≡ some e)
                  (ap (λ (q : ServerEntry × ClientSettings). q.1) is) still

            same : s.active_server ≡ some idx → removed ≡ e
            same chose =
                let at_idx : get_elem? s.servers idx ≡ some e = rw chose at is_active in
                let found : x ≡ e = cc (there, at_idx) in
                sym (ap (λ (q : ServerEntry × ClientSettings). q.0) is) ∙ found
