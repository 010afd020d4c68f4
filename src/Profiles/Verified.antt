-- ===== src/Profiles/Verified.antt =====
-- What the check at start-up promises of the stored profiles (db.rs).
use snx_edge.Common.{
  ◌≡◌, refl, sym, ap, ◌∙◌, true, inl, inr, List, [], ◌∷◌, Option, none, some, In, Bool-cases,
}
use snx_edge.Errors.{Result, ok, err}
use snx_edge.Json.{Json}
use snx_edge.Profiles.Secrets.{Cipher, and_then, is_encrypted, decrypt_profile_secrets}
use snx_edge.Profiles.Store.{
  ProfileRow, Serde, Rows, if_encrypted, encrypted_blobs, as_wrong_key, open_all, checked, with_key,
  decrypt_in_place, verify_profile_encryption,
}

module _ (a : Cipher) (serde : Serde) (profile_key : Option a.Key) where
  -- A row with the marker is among the blobs.
  blob-In :
      (rows : Rows) (r : ProfileRow) (v : Json)
      → In r rows
      → serde.parse r.config ≡ some v
      → is_encrypted v ≡ true
      → In v (encrypted_blobs a serde profile_key rows)
  unfolding encrypted_blobs
  blob-In [] r v there parses marked = elim there [ ]
  blob-In (x ∷ xs) r v (inl is) parses marked =
      let at_x : serde.parse x.config ≡ some v =
        ap (λ (y : ProfileRow). serde.parse y.config) (sym is) ∙ parses in
      rw (at_x, marked) (inl refl)
  blob-In (x ∷ xs) r v (inr there) parses marked =
      passed (serde.parse x.config) (blob-In xs r v there parses marked)
    where
      passed :
          (o : Option Json)
          → In v (encrypted_blobs a serde profile_key xs)
          → In v (if_encrypted a serde profile_key o (encrypted_blobs a serde profile_key xs))
      passed none h = h
      passed (some w) h = elim (Bool-cases (is_encrypted w)) [
        | inl e ↦ rw e (inr h)
        | inr e ↦ rw e h
      ]

  open_all-opens :
      (key : a.Key) (vs : List Json) (v : Json)
      → open_all a serde profile_key key vs ≡ ok tt
      → In v vs
      → (w : Json) × (decrypt_profile_secrets a key v ≡ ok w)
  unfolding open_all
  open_all-opens key [] v h there = elim there [ ]
  open_all-opens key (x ∷ xs) v h there =
      by (decrypt_profile_secrets a key x) refl h (λ rest. open_all-opens key xs v rest) there
    where
      by :
          (r : Result Json)
          → decrypt_profile_secrets a key x ≡ r
          → and_then (as_wrong_key a serde profile_key r) (λ _. open_all a serde profile_key key xs)
            ≡ ok tt
          → (open_all a serde profile_key key xs ≡ ok tt
              → In v xs
              → (w : Json) × (decrypt_profile_secrets a key v ≡ ok w))
          → In v (x ∷ xs)
          → (w : Json) × (decrypt_profile_secrets a key v ≡ ok w)
      by (ok w) e h later (inl is) = (w, ap (decrypt_profile_secrets a key) is ∙ e)
      by (ok w) e h later (inr there) = later h there
      by (err f) e h later there = cc

  -- After a check at start-up that succeeds, each stored configuration that is JSON decrypts under
  -- the server's key, or needs no key.
  pub verify_profile_encryption-readable :
      (rows : Rows) (r : ProfileRow) (v : Json)
      → verify_profile_encryption a serde profile_key rows ≡ ok tt
      → In r rows
      → serde.parse r.config ≡ some v
      → (w : Json) × (decrypt_in_place a serde profile_key v ≡ ok w)
  unfolding verify_profile_encryption decrypt_in_place
  verify_profile_encryption-readable rows r v h there parses = elim (Bool-cases (is_encrypted v)) [
    | inr e ↦ (v, rw e refl)
    | inl e ↦
        (let (w, opens) =
            by_key profile_key (encrypted_blobs a serde profile_key rows) h
              (blob-In rows r v there parses e) in
          (w, rw e opens))
  ]
    where
      by_key :
          (k : Option a.Key) (blobs : List Json)
          → checked a serde profile_key k blobs ≡ ok tt
          → In v blobs
          → (w : Json) × (with_key a serde profile_key k v ≡ ok w)
      by_key k [] h there = elim there [ ]
      by_key none (x ∷ xs) h there = cc
      by_key (some key) (x ∷ xs) h there = open_all-opens key (x ∷ xs) v h there
