-- ===== src/Profiles/Stored.antt =====
-- A profile that is stored reads back as it was given (db.rs).
use mathlib.Core.Path.{subst}
use snx_edge.Common.{
  ℕ, inl, inr, ◌≡◌, refl, sym, ap, ◌∙◌, Bool, true, false, List, [], ◌∷◌, ◌++◌, Option, none, some,
  Text, text_eq_refl, length, any, find, Bool-cases, arith,
}
use snx_edge.Errors.{
  AppError, ok, err, internal, bind-ok, lift, ok_or, not_found, bad_request, conflict,
}
use snx_edge.Json.{Json, object, null, bool, number, string, array}
use snx_edge.Profiles.Secrets.{
  Cipher, Opens, password, cert_password, nonce_length, and_then, is_encrypted,
  decrypt_profile_secrets, decrypt_object,
}
use snx_edge.Profiles.RoundTrip.{IsPlain, and_then-ok, encrypt-decrypt}
use snx_edge.Profiles.Store.{
  ProfileRow, Profile, Serde, Reads, Rows, is_row, profile_of, decrypt_in_place, encrypt_in_place,
  get_profile_config, sealed_with, decoded, shown, stored_text, insert_row, update_rows,
  get_profile, create_profile, update_profile,
}
use snx_edge.Users.Store.{or_else}

pub ok_or-ok : {A : Type 0} (e : AppError) (o : Option A) (t : A) → ok_or e o ≡ ok t → o ≡ some t
ok_or-ok e none t h = cc
ok_or-ok e (some s) t h = let is : s ≡ t = cc in ap (λ x. some x) is

module _ (a : Cipher) where
  plain-not_encrypted : (v : Json) → IsPlain a v → is_encrypted v ≡ false
  unfolding is_encrypted
  plain-not_encrypted (object o) (clear, _, _) = rw clear refl
  plain-not_encrypted null p = refl
  plain-not_encrypted (bool b) p = refl
  plain-not_encrypted (number n) p = refl
  plain-not_encrypted (string s) p = refl
  plain-not_encrypted (array xs) p = refl

  unmarked-decrypts :
      (key : a.Key) (v : Json) → is_encrypted v ≡ false → decrypt_profile_secrets a key v ≡ ok v
  unfolding is_encrypted decrypt_profile_secrets decrypt_object
  unmarked-decrypts key (object o) h = rw h refl
  unmarked-decrypts key null h = refl
  unmarked-decrypts key (bool b) h = refl
  unmarked-decrypts key (number n) h = refl
  unmarked-decrypts key (string s) h = refl
  unmarked-decrypts key (array xs) h = refl

  module _ (laws : Opens a) (serde : Serde) (reads : Reads serde) (profile_key : Option a.Key)
      (nonces : Text → List ℕ) (size : length (nonces password) ≡ nonce_length)
      (size' : length (nonces cert_password) ≡ nonce_length) where
    by_key :
        (k : Option a.Key) (v v' : Json)
        → IsPlain a v
        → sealed_with a serde k k nonces v ≡ ok v'
        → decrypt_in_place a serde k v' ≡ ok v
    unfolding decrypt_in_place
    by_key none v v' plain h =
        let is : v ≡ v' = cc in rw (← is) (rw (plain-not_encrypted v plain) refl)
    by_key (some key) v v' plain h = elim (Bool-cases (is_encrypted v')) [
      | inl e ↦ rw e (encrypt-decrypt a laws key nonces size size' v v' plain h)
      | inr e ↦ rw e (
          sym (unmarked-decrypts key v' e)
          ∙ encrypt-decrypt a laws key nonces size size' v v' plain h)
    ]

    stored-decoded :
        (v : Json) (t : Text) (r : ProfileRow)
        → IsPlain a v
        → stored_text a serde profile_key nonces v ≡ ok t
        → r.config ≡ t
        → decoded a serde profile_key r ≡ ok v
    unfolding encrypt_in_place
    stored-decoded v t r plain h e =
        let (v', encrypted, printed) =
          and_then-ok (encrypt_in_place a serde profile_key nonces v) _ t h in
        let print : serde.print v' ≡ some t = ok_or-ok bad_request (serde.print v') t printed in
        rw (e, reads v' t print) (by_key profile_key v v' plain encrypted)

    find-end :
        (i : Text) (rows : Rows) (r : ProfileRow)
        → any (is_row i) rows ≡ false
        → is_row i r ≡ true
        → find (is_row i) (rows ++ r ∷ []) ≡ some r
    find-end i [] r none_there e = rw e refl
    find-end i (x ∷ xs) r none_there e = ground (arith, find-end i xs r)

    pub shown-config :
        (r : ProfileRow) (v : Json) (p : Profile)
        → decoded a serde profile_key r ≡ ok v
        → shown a serde profile_key r ≡ ok p
        → p.config ≡ v
    shown-config r v p e h =
        let is : ok (profile_of r v) ≡ ok p =
          (let at_v : shown a serde profile_key r ≡ ok (profile_of r v) = rw e refl in
            sym at_v ∙ h) in
        config_of (profile_of r v) is
      where
        config_of : (q : Profile) → ok q ≡ ok p → p.config ≡ q.config
        config_of q is = let same : q ≡ p = cc in ap (λ (x : Profile). x.config) (sym same)

    pub create_profile-config :
        (new_id : Text) (now : ℕ) (name : Text) (config : Json) (rows : Rows) (p : Profile)
        → IsPlain a config
        → (create_profile a serde profile_key new_id now nonces name config rows).0 ≡ ok p
        → p.config ≡ config
    unfolding create_profile get_profile is_row
    create_profile-config new_id now name config rows p plain h =
        let text = stored_text a serde profile_key nonces config in
        let (t, stored, second, _) = bind-ok (lift text) _ rows p h in
        let r : ProfileRow = (record {
          id = new_id;
          name = name;
          config = t;
          enabled = true;
          created_at = now;
          updated_at = now;
        }) in
        let (_, inserted, third, _) = bind-ok (insert_row a serde profile_key r) _ rows p second in
        elim (Bool-cases (any (is_row new_id) rows)) [
          | inl e ↦ taken r rows e inserted
          | inr e ↦
              (let found = find-end new_id rows r e (text_eq_refl new_id) in
                shown-config r config p (stored-decoded config t r plain stored refl)
                  (rw (e, found) at third))
        ]
      where
        taken :
            (r : ProfileRow) (rows : Rows)
            → any (is_row r.id) rows ≡ true
            → (insert_row a serde profile_key r rows).0 ≡ ok tt
            → p.config ≡ config
        taken r rows e h = let never : err conflict ≡ ok tt = rw e at h in cc never

    find-update :
        (i : Text) (f : ProfileRow → ProfileRow) (rows : Rows) (r : ProfileRow)
        → ((x : ProfileRow) → is_row i (f x) ≡ is_row i x)
        → find (is_row i) rows ≡ some r
        → find (is_row i) (update_rows a serde profile_key i f rows) ≡ some (f r)
    unfolding update_rows
    find-update i f [] r same h = cc
    find-update i f (x ∷ xs) r same h = elim (Bool-cases (is_row i x)) [
      | inl e ↦
          (let is : x ≡ r = (let at_x : some x ≡ some r = rw e at h in cc) in
            rw (e, same x, e, is) refl)
      | inr e ↦
          (let rest : find (is_row i) xs ≡ some r = rw e at h in
            rw (e, e) (find-update i f xs r same rest))
    ]

    -- A profile that is shown has a row.
    pub shown_row :
        (i : Text) (rows : Rows) (q : Profile)
        → (get_profile a serde profile_key i rows).0 ≡ ok q
        → (r : ProfileRow) × (find (is_row i) rows ≡ some r)
    unfolding get_profile
    shown_row i rows q h = go (find (is_row i) rows) refl h
      where
        go :
            (o : Option ProfileRow)
            → find (is_row i) rows ≡ o
            → and_then (ok_or not_found o) (shown a serde profile_key) ≡ ok q
            → (r : ProfileRow) × (find (is_row i) rows ≡ some r)
        go none e h = cc
        go (some r) e h = (r, e)

    -- The text of a profile's configuration parses to the configuration that is shown.
    pub text-parses :
        (i : Text) (rows : Rows) (q : Profile) (t : Text)
        → (get_profile a serde profile_key i rows).0 ≡ ok q
        → (get_profile_config a serde profile_key i rows).0 ≡ ok t
        → serde.parse t ≡ some q.config
    unfolding get_profile get_profile_config
    text-parses i rows q t had h =
        let (r, found) = shown_row i rows q had in
        let at_r : shown a serde profile_key r ≡ ok q = rw found at had in
        let (v, dec, _) = and_then-ok (decoded a serde profile_key r) _ q at_r in
        let is : q.config ≡ v = shown-config r v q dec at_r in
        let (w, dec', text) = and_then-ok (decoded a serde profile_key r) _ t (rw found at h) in
        let same : w ≡ v = cc (dec, dec') in
        rw (is, ← same) (reads w t (ok_or-ok internal (serde.print w) t text))

    pub update_profile-config :
        (i : Text) (name : Option Text) (config : Option Json) (enabled : Option Bool) (now : ℕ)
        (rows : Rows) (q p : Profile)
        → (get_profile a serde profile_key i rows).0 ≡ ok q
        → IsPlain a (or_else config q.config)
        → (update_profile a serde profile_key i name config enabled now nonces rows).0 ≡ ok p
        → (p.config ≡ or_else config q.config)
          × ((get_profile a serde profile_key i
                (update_profile a serde profile_key i name config enabled now nonces rows).1).0
              ≡ ok p)
    unfolding update_profile get_profile is_row
    update_profile-config i name config enabled now rows q p had plain h =
        let (existing, was, second, to2) = bind-ok (get_profile a serde profile_key i) _ rows p h in
        let wanted = or_else config existing.config in
        let (t, stored, third, to3) =
          bind-ok (lift (stored_text a serde profile_key nonces wanted)) _ rows p second in
        let f : ProfileRow → ProfileRow = (λ r. record r {
          name = or_else name existing.name;
          config = t;
          enabled = or_else enabled existing.enabled;
          updated_at = now;
        }) in
        let (r, found) = shown_row i rows q had in
        let now_found = find-update i f rows r (λ x. refl) found in
        let same : existing ≡ q = cc (was, had) in
        let config_same : wanted ≡ or_else config q.config =
          ap (λ (x : Profile). or_else config x.config) same in
        (
          shown-config (f r) wanted p
                (stored-decoded wanted t (f r) (subst (IsPlain a) (sym config_same) plain) stored
                  refl)
                (rw now_found at third)
              ∙ config_same,
          ap (λ z. (get_profile a serde profile_key i z).0) (to2 ∙ to3) ∙ third,
        )
