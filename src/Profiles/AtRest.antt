-- ===== src/Profiles/AtRest.antt =====
-- What the profiles table holds where the server has a key (db.rs).
use mathlib.Core.Path.{subst}
use snx_edge.Common.{
  ℕ, ◌≡◌, Bool, true, false, inl, inr, List, [], ◌∷◌, ◌++◌, Option, some, Text, any, keep, All,
  Bool-cases,
}
use snx_edge.Errors.{ok, ◌>>◌, bind-after, lift, bad_request}
use snx_edge.Json.{Json, as_object}
use snx_edge.Profiles.Secrets.{Cipher, password, cert_password}
use snx_edge.Profiles.RoundTrip.{and_then-ok}
use snx_edge.Profiles.Cleartext.{is_exposed, text_at, encrypt_profile_secrets-hidden}
use snx_edge.Profiles.Store.{
  ProfileRow, Serde, Reads, Rows, is_row, encrypt_in_place, stored_text, update_rows, insert_row,
  get_profile, create_profile, update_profile, delete_profile,
}
use snx_edge.Profiles.Stored.{ok_or-ok}
use snx_edge.Users.Store.{or_else}

-- Neither secret of a configuration can be read from it.
abbrev pub IsHidden : Json → Type 0
IsHidden v =
    (is_exposed (text_at password (as_object v)) ≡ false)
    × (is_exposed (text_at cert_password (as_object v)) ≡ false)

module _ (a : Cipher) (serde : Serde) (key : a.Key) where
  abbrev pub TextHides : Text → Type 0
  TextHides t = (v : Json) → serde.parse t ≡ some v → IsHidden v

  abbrev pub RowHides : ProfileRow → Type 0
  RowHides r = TextHides r.config

  -- One operation on the table. The server that runs it has the key.
  pub data Step : Rows → Rows → Type 0 where
    creates :
        (rows : Rows) (new_id : Text) (now : ℕ) (nonces : Text → List ℕ) (name : Text)
        (config : Json)
        → Step rows (create_profile a serde (some key) new_id now nonces name config rows).1
    updates :
        (rows : Rows) (i : Text) (name : Option Text) (config : Option Json) (enabled : Option Bool)
        (now : ℕ) (nonces : Text → List ℕ)
        → Step rows (update_profile a serde (some key) i name config enabled now nonces rows).1
    deletes : (rows : Rows) (i : Text) → Step rows (delete_profile a serde (some key) i rows).1

  pub data Reach : Rows → Type 0 where
    start : Reach []
    later : {rows rows' : Rows} → Reach rows → Step rows rows' → Reach rows'

  stored_text-Hides :
      (reads : Reads serde) (nonces : Text → List ℕ) (v : Json) (t : Text)
      → stored_text a serde (some key) nonces v ≡ ok t
      → TextHides t
  unfolding encrypt_in_place
  stored_text-Hides reads nonces v t h w parses =
      let (v', encrypted, printed) =
        and_then-ok (encrypt_in_place a serde (some key) nonces v) _ t h in
      let print : serde.print v' ≡ some t = ok_or-ok bad_request (serde.print v') t printed in
      let is : v' ≡ w = cc (reads v' t print, parses) in
      subst IsHidden is (encrypt_profile_secrets-hidden a key nonces v v' encrypted)

  All-snoc :
      (rows : Rows) (r : ProfileRow)
      → All RowHides rows
      → RowHides r
      → All RowHides (rows ++ r ∷ [])
  All-snoc [] r all one = (one, tt)
  All-snoc (x ∷ xs) r (first, rest) one = (first, All-snoc xs r rest one)

  All-keep : (p : ProfileRow → Bool) (rows : Rows) → All RowHides rows → All RowHides (keep p rows)
  All-keep p [] all = tt
  All-keep p (x ∷ xs) (first, rest) = elim (Bool-cases (p x)) [
    | inl e ↦ rw e (first, All-keep p xs rest)
    | inr e ↦ rw e (All-keep p xs rest)
  ]

  All-update_rows :
      (i : Text) (f : ProfileRow → ProfileRow) (rows : Rows)
      → ((r : ProfileRow) → RowHides (f r))
      → All RowHides rows
      → All RowHides (update_rows a serde (some key) i f rows)
  unfolding update_rows
  All-update_rows i f [] hides all = tt
  All-update_rows i f (x ∷ xs) hides (first, rest) = elim (Bool-cases (is_row i x)) [
    | inl e ↦ rw e (hides x, All-update_rows i f xs hides rest)
    | inr e ↦ rw e (first, All-update_rows i f xs hides rest)
  ]

  create_profile-Hides :
      (reads : Reads serde) (rows : Rows) (new_id : Text) (now : ℕ) (nonces : Text → List ℕ)
      (name : Text) (config : Json)
      → All RowHides rows
      → All RowHides (create_profile a serde (some key) new_id now nonces name config rows).1
  unfolding create_profile get_profile
  create_profile-Hides reads rows new_id now nonces name config all =
      bind-after (All RowHides) (lift (stored_text a serde (some key) nonces config)) _ rows
        (λ t h. inserts t (stored_text-Hides reads nonces config t h)) (λ e h. all)
    where
      row : Text → ProfileRow
      row t = record {
        id = new_id;
        name = name;
        config = t;
        enabled = true;
        created_at = now;
        updated_at = now;
      }

      inserted :
          (t : Text) → TextHides t → All RowHides (insert_row a serde (some key) (row t) rows).1
      inserted t hides = elim (Bool-cases (any (is_row new_id) rows)) [
        | inl e ↦ rw e all
        | inr e ↦ rw e (All-snoc rows (row t) all hides)
      ]

      inserts :
          (t : Text)
          → TextHides t
          → All RowHides
              ((insert_row a serde (some key) (row t) >> get_profile a serde (some key) new_id)
                rows).1
      inserts t hides =
          bind-after (All RowHides) (insert_row a serde (some key) (row t)) _ rows
            (λ _ _. inserted t hides) (λ _ _. inserted t hides)

  update_profile-Hides :
      (reads : Reads serde) (rows : Rows) (i : Text) (name : Option Text) (config : Option Json)
      (enabled : Option Bool) (now : ℕ) (nonces : Text → List ℕ)
      → All RowHides rows
      → All RowHides (update_profile a serde (some key) i name config enabled now nonces rows).1
  unfolding update_profile get_profile
  update_profile-Hides reads rows i name config enabled now nonces all =
      bind-after (All RowHides) (get_profile a serde (some key) i) _ rows
        (λ existing _.
          bind-after (All RowHides)
            (lift (stored_text a serde (some key) nonces (or_else config existing.config))) _ rows
            (λ t h.
              All-update_rows i _ rows
                (λ r. stored_text-Hides reads nonces (or_else config existing.config) t h) all)
            (λ e h. all))
        (λ e h. all)

  delete_profile-Hides :
      (rows : Rows) (i : Text)
      → All RowHides rows
      → All RowHides (delete_profile a serde (some key) i rows).1
  unfolding delete_profile
  delete_profile-Hides rows i all = elim (Bool-cases (any (is_row i) rows)) [
    | inl e ↦ rw e (All-keep _ rows all)
    | inr e ↦ rw e all
  ]

  Step-Hides :
      (reads : Reads serde) (rows rows' : Rows)
      → Step rows rows'
      → All RowHides rows
      → All RowHides rows'
  Step-Hides reads _ _ (creates rows new_id now nonces name config) all =
      create_profile-Hides reads rows new_id now nonces name config all
  Step-Hides reads _ _ (updates rows i name config enabled now nonces) all =
      update_profile-Hides reads rows i name config enabled now nonces all
  Step-Hides reads _ _ (deletes rows i) all = delete_profile-Hides rows i all

  -- Whatever profiles are created, updated and deleted by a server that has a key, starting from
  -- an empty table and whether the operations succeed or not, no stored configuration shows a
  -- password or a certificate's password as a text that is not empty, if what the serializer
  -- prints parses to the value that it printed.
  pub Reach-Hides : (reads : Reads serde) (rows : Rows) → Reach rows → All RowHides rows
  Reach-Hides reads _ start = tt
  Reach-Hides reads _ (later {rows = rows} {rows' = rows'} reach step) =
      Step-Hides reads rows rows' step (Reach-Hides reads rows reach)
