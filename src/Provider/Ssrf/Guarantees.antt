-- ===== src/Provider/Ssrf/Guarantees.antt =====
-- ssrf.go: what a validated address of a provider is known to satisfy.
use amazon_ai_product_image.Base.{
  Bool, true, false, String, Option, none, some, List, [], ◌∷◌, string_eq, not, ◌||◌, ◌&&◌, ◌≡◌,
  refl, sym, arith, beq→eq,
}
use amazon_ai_product_image.Base.Lists.{All}
use amazon_ai_product_image.Base.Text.{trim_space}
use amazon_ai_product_image.Provider.Ssrf.{
  Ip, blocked_ip, ParsedUrl, validate_parsed, acceptable, resolve_host, any_blocked,
  is_blocked_hostname,
}

module _ (lower : String → String) (parse_ip : String → Option Ip)
    (lookup : String → Option (List Ip)) where
  -- An encrypted connection, to a host whose addresses are known and all allowed.
  pub record IsAllowed (u : ParsedUrl) : Type 0 where
    pub encrypted : u.scheme ≡ "https"
    pub bare : u.has_user ≡ false
    pub no_query : u.raw_query ≡ ""
    pub no_fragment : u.fragment ≡ ""
    pub outside : is_blocked_hostname lower parse_ip lookup (trim_space u.hostname) ≡ false
    pub first : Ip
    pub others : List Ip
    pub resolved_to :
        resolve_host lower parse_ip lookup (trim_space u.hostname) ≡ some (first ∷ others)
    pub allowed : All (λ ip. blocked_ip ip ≡ false) (first ∷ others)

  both : (x y : Bool) → (x && y) ≡ true → (x ≡ true) × (y ≡ true)
  both true y h = (refl, h)
  both false y h = (h, ground arith)

  neither : (x y : Bool) → (x || y) ≡ false → (x ≡ false) × (y ≡ false)
  neither false y h = (refl, h)
  neither true y h = (h, ground arith)

  negated : (x : Bool) → not x ≡ true → x ≡ false
  negated false h = refl
  negated true h = sym h

  twice : (x : Bool) → not x ≡ false → x ≡ true
  twice true h = refl
  twice false h = sym h

  any_blocked-All :
      (ips : List Ip) → any_blocked ips ≡ false → All (λ ip. blocked_ip ip ≡ false) ips
  any_blocked-All [] h = tt
  any_blocked-All (ip ∷ ips) h =
      let k = neither (blocked_ip ip) (any_blocked ips) h in (k.0, any_blocked-All ips k.1)

  resolved-IsAllowed :
      (u : ParsedUrl)
      → u.scheme ≡ "https"
      → u.has_user ≡ false
      → u.raw_query ≡ ""
      → u.fragment ≡ ""
      → is_blocked_hostname lower parse_ip lookup (trim_space u.hostname) ≡ false
      → (found : Option (List Ip))
      → resolve_host lower parse_ip lookup (trim_space u.hostname) ≡ found
      → acceptable lower parse_ip lookup found ≡ true
      → IsAllowed u
  resolved-IsAllowed u a b c d e none is h = ground arith
  resolved-IsAllowed u a b c d e (some []) is h = ground arith
  resolved-IsAllowed u a b c d e (some (ip ∷ ips)) is h = record {
    encrypted = a;
    bare = b;
    no_query = c;
    no_fragment = d;
    outside = e;
    first = ip;
    others = ips;
    resolved_to = is;
    allowed =
        any_blocked-All (ip ∷ ips)
          (negated (any_blocked (ip ∷ ips)) (both true (not (any_blocked (ip ∷ ips))) h).1);
  }

  -- The address of a provider that is accepted is an https address without a user, a query and
  -- a fragment. Its host is not a refused name, it has at least one IP address, and none of
  -- them is refused.
  pub validate_parsed-IsAllowed :
      (u : ParsedUrl) → validate_parsed lower parse_ip lookup u ≡ true → IsAllowed u
  unfolding validate_parsed
  validate_parsed-IsAllowed u h =
      let acc = both _ _ h in
      let hid = both _ _ acc.0 in
      let plain = both _ _ hid.0 in
      let hosted = both _ _ plain.0 in
      let nothing = neither _ _ (negated _ plain.1) in
      let user = neither _ _ nothing.0 in
      resolved-IsAllowed u (beq→eq _ _ hosted.0) user.0 (beq→eq _ _ (twice _ user.1))
        (beq→eq _ _ (twice _ nothing.1)) (negated _ hid.1)
        (resolve_host lower parse_ip lookup (trim_space u.hostname)) refl acc.1
