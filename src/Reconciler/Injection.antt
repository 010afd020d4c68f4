-- ===== src/Reconciler/Injection.antt =====
-- The DNS servers that a gateway names cannot inject directives (render_corp_dnsmasq of reconciler.rs).
use mathlib.Core.List.{reverse, reverse-cons, append_assoc, append-nil}
use snx_edge.Common.{
  ◌≡◌, refl, ◌⊎◌, inl, inr, Bool, true, false, not, List, [], ◌∷◌, ◌++◌, Text, codes, split,
  split_from, is_whitespace, any, all, In, ◌==◌, arith, Bool-cases,
}
use snx_edge.RouterOs.Comment.Laws.{split-append}
use snx_edge.Reconciler.{
  bare, breaks_out, is_valid_dns_name, newline, server_line, render_servers, render_corp_dnsmasq,
}

abbrev pub one_line : Text → Bool
one_line = all (λ c. not (c == newline))

split_from-one_line :
    (cur a : Text) → one_line a ≡ true → split_from newline cur a ≡ (reverse cur ++ a) ∷ []
unfolding split_from
split_from-one_line cur [] h = rw (append-nil (reverse cur))
split_from-one_line cur (c ∷ a) h = elim (Bool-cases (c == newline)) [
  | inl e ↦ absurd (ground arith)
  | inr e ↦
      rw e (rw (split_from-one_line (c ∷ cur) a (ground arith)) (rw (reverse-cons, append_assoc)))
]

split-one_line : (a : Text) → one_line a ≡ true → split newline a ≡ a ∷ []
unfolding split
split-one_line a h = split_from-one_line [] a h

one_line-append : (a b : Text) → one_line a ≡ true → one_line b ≡ true → one_line (a ++ b) ≡ true
one_line-append [] b h k = k
one_line-append (c ∷ a) b h k = ground (arith, one_line-append a b)

unbroken-one_line : (s : Text) → any breaks_out s ≡ false → one_line s ≡ true
unfolding breaks_out is_whitespace
unbroken-one_line [] h = refl
unbroken-one_line (c ∷ s) h = ground (arith, unbroken-one_line s)

valid-one_line : (d : Text) → is_valid_dns_name d ≡ true → one_line d ≡ true
unfolding is_valid_dns_name
valid-one_line d h = unbroken-one_line d (ground arith)

-- A line of the file: a forwarding rule for a domain and a server that were asked for and are valid, or
-- nothing.
pub record Rule (is_ip : Text → Bool) (dns_servers search_domains : List Text) (line : Text)
    : Type 0 where
  pub domain : Text
  pub server : Text
  pub asked_domain : In domain search_domains
  pub asked_server : In server dns_servers
  pub valid_domain : is_valid_dns_name (bare domain) ≡ true
  pub valid_server : is_ip server ≡ true
  pub written : line ≡ server_line (bare domain) server

abbrev pub Lines : (is_ip : Text → Bool) → List Text → List Text → Text → Type 0
Lines is_ip servers domains text =
    (line : Text) → In line (split newline text) → Rule is_ip servers domains line ⊎ (line ≡ [])

In-append : {A : Type 0} (a : A) (xs ys : List A) → In a (xs ++ ys) → In a xs ⊎ In a ys
In-append a [] ys h = inr h
In-append a (x ∷ xs) ys (inl e) = inl (inl e)
In-append a (x ∷ xs) ys (inr h) = elim (In-append a xs ys h) [ inl k ↦ inl (inr k) | inr k ↦ inr k ]

no-Lines : (is_ip : Text → Bool) (servers domains : List Text) → Lines is_ip servers domains []
unfolding split split_from
no-Lines is_ip servers domains line (inl e) = inr e
no-Lines is_ip servers domains line (inr h) = absurd h

-- One more line at the head of a text.
more-Lines :
    (is_ip : Text → Bool) (servers domains : List Text) (first rest : Text)
    → one_line first ≡ true
    → Rule is_ip servers domains first
    → Lines is_ip servers domains rest
    → Lines is_ip servers domains (first ++ newline ∷ rest)
more-Lines is_ip servers domains first rest whole rule others line i =
    elim (In-append line (first ∷ []) (split newline rest)
      (rw (split-append newline first rest, split-one_line first whole) at i)) [
        | inl (inl e) ↦ inl (rw e rule)
        | inl (inr none) ↦ absurd none
        | inr k ↦ others line k
      ]

module _ (is_ip : Text → Bool) (addresses : (s : Text) → is_ip s ≡ true → one_line s ≡ true)
    (servers domains : List Text) where
  server_line-one_line :
      (d s : Text) → is_valid_dns_name d ≡ true → is_ip s ≡ true → one_line (server_line d s) ≡ true
  unfolding server_line
  server_line-one_line d s valid ip =
      let first = one_line-append (codes "server=/") d refl (valid-one_line d valid) in
      one_line-append (codes "server=/" ++ d ++ codes "/") s
        (one_line-append (codes "server=/" ++ d) (codes "/") first refl) (addresses s ip)

  servers-Lines :
      (domain : Text) (srvs : List Text) (rest : Text)
      → In domain domains
      → is_valid_dns_name (bare domain) ≡ true
      → ((s : Text) → In s srvs → In s servers)
      → Lines is_ip servers domains rest
      → Lines is_ip servers domains (render_servers is_ip (bare domain) srvs ++ rest)
  unfolding render_servers
  servers-Lines domain [] rest asked valid within others = others
  servers-Lines domain (s ∷ srvs) rest asked valid within others =
      let tail = servers-Lines domain srvs rest asked valid (λ x i. within x (inr i)) others in
      elim (Bool-cases (is_ip s)) [
        | inl e ↦ rw e (
            rw
              (append_assoc (server_line (bare domain) s)
                (newline ∷ render_servers is_ip (bare domain) srvs) rest)
              (more-Lines is_ip servers domains (server_line (bare domain) s)
                (render_servers is_ip (bare domain) srvs ++ rest)
                (server_line-one_line (bare domain) s valid e)
                record {
                  domain = domain;
                  server = s;
                  asked_domain = asked;
                  asked_server = within s (inl refl);
                  valid_domain = valid;
                  valid_server = e;
                  written = refl;
                }
                tail))
        | inr e ↦ rw e tail
      ]

  domains-Lines :
      (ds : List Text)
      → ((d : Text) → In d ds → In d domains)
      → Lines is_ip servers domains (render_corp_dnsmasq is_ip servers ds)
  unfolding render_corp_dnsmasq
  domains-Lines [] within = no-Lines is_ip servers domains
  domains-Lines (d ∷ ds) within =
      let tail = domains-Lines ds (λ x i. within x (inr i)) in
      elim (Bool-cases (is_valid_dns_name (bare d))) [
        | inl e ↦ rw e (
            servers-Lines d servers (render_corp_dnsmasq is_ip servers ds) (within d (inl refl)) e
              (λ x i. i) tail)
        | inr e ↦ rw e tail
      ]

  -- Whatever servers and domains the gateway names, each line of the file that
  -- `render_corp_dnsmasq` renders is empty or forwards one of the domains, a valid name once a
  -- leading `~` is off, to one of the servers, a valid address; the address parser takes no text
  -- with a line break.
  pub render_corp_dnsmasq-Lines :
      Lines is_ip servers domains (render_corp_dnsmasq is_ip servers domains)
  render_corp_dnsmasq-Lines = domains-Lines domains (λ d i. i)
