-- ===== src/Routing/Addresses.antt =====
-- What the checks of addresses let through (api/routing.rs).
use snx_edge.Common.{
  ℕ, ◌≤◌, ◌≡◌, refl, Bool, true, false, ◌||◌, Option, none, some, Text, leb→le, split_and,
}
use snx_edge.Common.Decimals.{parse_uint}
use snx_edge.Errors.{ok}
use snx_edge.Profiles.Secrets.{is_some}
use snx_edge.Gateway.Guard.{IpAddr, v4, split_once}
use snx_edge.Routing.{
  max_prefix, fits, cidr_ok, cidr_or_range_ok, checked, corp_ok, validate_address,
  validate_corp_cidr,
}

fits-bound : (max : ℕ) (o : Option ℕ) → fits max o ≡ true → (n : ℕ) × (o ≡ some n) × (n ≤ max)
fits-bound max none h = cc
fits-bound max (some n) h = (n, refl, leb→le n max h)

module _ (parse_ip : Text → Option IpAddr) (is_ipv4 : Text → Bool) where
  passed : (b : Bool) → checked parse_ip is_ipv4 b ≡ ok tt → b ≡ true
  passed true h = refl
  passed false h = cc

  -- The parsers agree: what reads as an address of version 4 reads as an address, of that version.
  abbrev pub Agree : Type 0
  Agree =
      (t : Text)
      → is_ipv4 t ≡ true
      → (a : ℕ) × (b : ℕ) × (c : ℕ) × (d : ℕ) × (parse_ip t ≡ some (v4 a b c d))

  -- The check of a company subnet is stricter than that of an address: what the first lets pass,
  -- the second lets pass, if a text that reads as an address of version 4 also reads as an
  -- address, of that version.
  pub validate_corp_cidr-validate_address :
      (agree : Agree) (address : Text)
      → validate_corp_cidr parse_ip is_ipv4 address ≡ ok tt
      → validate_address parse_ip is_ipv4 address ≡ ok tt
  unfolding validate_corp_cidr validate_address
  validate_corp_cidr-validate_address agree address h =
      by (split_once 47 address) refl
        (passed (corp_ok parse_ip is_ipv4 address (split_once 47 address)) h)
    where
      at_version :
          (ip prefix : Text)
          → is_ipv4 ip ≡ true
          → fits 32 (parse_uint 255 prefix) ≡ true
          → cidr_ok parse_ip is_ipv4 (parse_ip ip) prefix ≡ true
      at_version ip prefix h fit = let (a, b, c, d, is) = agree ip h in rw is fit

      either : (x y : Bool) → y ≡ true → checked parse_ip is_ipv4 (x || y) ≡ ok tt
      either true y e = refl
      either false y e = rw e refl

      by :
          (o : Option (Text × Text))
          → split_once 47 address ≡ o
          → corp_ok parse_ip is_ipv4 address o ≡ true
          → checked parse_ip is_ipv4 (
              is_some (parse_ip address)
              || cidr_or_range_ok parse_ip is_ipv4 address (split_once 47 address))
            ≡ ok tt
      by none e h = let (a, b, c, d, is) = agree address h in rw is refl
      by (some (ip, prefix)) e h =
          let (version, fit) = split_and (is_ipv4 ip) (fits 32 (parse_uint 255 prefix)) h in
          either (is_some (parse_ip address))
            (cidr_or_range_ok parse_ip is_ipv4 address (split_once 47 address))
            (rw e (at_version ip prefix version fit))

  -- Where the check of an address lets pass a text that is no plain address and has a slash, the
  -- part before the first slash reads as an address, and the rest as a number of at most 32 or,
  -- for version 6, at most 128.
  pub validate_address-bound :
      (address ip prefix : Text)
      → validate_address parse_ip is_ipv4 address ≡ ok tt
      → parse_ip address ≡ none
      → split_once 47 address ≡ some (ip, prefix)
      → (a : IpAddr) × (n : ℕ) × (parse_ip ip ≡ some a)
        × (parse_uint 255 prefix ≡ some n)
        × (n ≤ max_prefix a)
  unfolding validate_address
  validate_address-bound address ip prefix h no_plain cut =
      let good : (is_some (parse_ip address)
            || cidr_or_range_ok parse_ip is_ipv4 address (split_once 47 address))
          ≡ true =
        passed _ h in
      at (parse_ip ip) refl (rw (no_plain, cut) at good)
    where
      at :
          (o : Option IpAddr)
          → parse_ip ip ≡ o
          → cidr_ok parse_ip is_ipv4 o prefix ≡ true
          → (a : IpAddr) × (n : ℕ) × (parse_ip ip ≡ some a)
            × (parse_uint 255 prefix ≡ some n)
            × (n ≤ max_prefix a)
      at none e h = cc
      at (some a) e h =
          let (n, parses, le) = fits-bound (max_prefix a) (parse_uint 255 prefix) h in
          (a, n, e, parses, le)
