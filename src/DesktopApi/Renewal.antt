-- ===== src/DesktopApi/Renewal.antt =====
-- Several requests whose token was refused (apps/snx-edge-client/src/api.rs).
use snx_edge.Common.{
  ℕ, zero, suc, ◌≡◌, refl, ap, ◌∙◌, true, false, List, [], ◌∷◌, Option, none, some, Text,
}
use snx_edge.DesktopApi.{
  TokenResponse, Remote, ApiClient, token_eq, renew_access_token, refresh, rotate,
}

module _ (y : Remote) where
  -- Requests that were refused with the same token, in the order in which they get the lock.
  unfoldable pub renew_all : ℕ → Option Text → ApiClient y → List (Option Text) × ApiClient y
  renew_all zero stale s = ([], s)
  renew_all (suc n) stale s =
      let (token, t) = renew_access_token y stale s in
      let (tokens, u) = renew_all n stale t in (token ∷ tokens, u)

  abbrev pub same_for : ℕ → Option Text → List (Option Text)
  same_for zero token = []
  same_for (suc n) token = token ∷ same_for n token

  later_renewals :
      (n : ℕ) (stale : Option Text) (s : ApiClient y)
      → token_eq s.token stale ≡ false
      → renew_all n stale s ≡ (same_for n s.token, s)
  unfolding renew_all renew_access_token
  later_renewals zero stale s other = refl
  later_renewals (suc n) stale s other = rw other (
      ap (λ (q : List (Option Text) × ApiClient y). (s.token ∷ q.0, q.1))
        (later_renewals n stale s other))

  first_renewal :
      (stale : Option Text) (s : ApiClient y) (r : Text) (resp : TokenResponse)
      → token_eq s.token stale ≡ true
      → s.refresh_token ≡ some r
      → (refresh y r s).0 ≡ some resp
      → renew_access_token y stale s
        ≡ (some resp.access_token, rotate y resp.refresh_token (refresh y r s).1)
  unfolding renew_access_token refresh
  first_renewal stale s r resp refused has answer = rw (refused, has, answer) refl

  rotate-token : (o : Option Text) (s : ApiClient y) → (rotate y o s).token ≡ s.token
  rotate-token none s = refl
  rotate-token (some rotated) s = refl

  refresh-token :
      (r : Text) (s : ApiClient y) (resp : TokenResponse)
      → (refresh y r s).0 ≡ some resp
      → (refresh y r s).1.token ≡ some resp.access_token
  unfolding refresh
  refresh-token r s resp answer = rw answer refl

  -- Where one or more requests of the desktop client were refused with the token that it still
  -- has, their renewals, in whatever order they get the lock, exchange the refresh token once and
  -- all get the new access token, if that exchange succeeds with another token.
  pub renew_all-once :
      (n : ℕ) (stale : Option Text) (s : ApiClient y) (r : Text) (resp : TokenResponse)
      → token_eq s.token stale ≡ true
      → s.refresh_token ≡ some r
      → (refresh y r s).0 ≡ some resp
      → token_eq (some resp.access_token) stale ≡ false
      → renew_all (suc n) stale s
        ≡ (same_for (suc n) (some resp.access_token), rotate y resp.refresh_token (refresh y r s).1)
  unfolding renew_all
  renew_all-once n stale s r resp refused has answer new =
      ap
        (λ (q : Option Text × ApiClient y).
          (q.0 ∷ (renew_all n stale q.1).0, (renew_all n stale q.1).1))
        (first_renewal stale s r resp refused has answer)
      ∙ ap (λ (q : List (Option Text) × ApiClient y). (some resp.access_token ∷ q.0, q.1))
          (later_renewals n stale after (ap (λ t. token_eq t stale) token ∙ new)
            ∙ ap (λ t. (same_for n t, after)) token)
    where
      after : ApiClient y
      after = rotate y resp.refresh_token (refresh y r s).1

      token : after.token ≡ some resp.access_token
      token = rotate-token resp.refresh_token (refresh y r s).1 ∙ refresh-token r s resp answer
