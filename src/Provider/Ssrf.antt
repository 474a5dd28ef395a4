-- ===== src/Provider/Ssrf.antt =====
-- ssrf.go: which addresses of a provider the server may call.
-- net/url.Parse, net.ParseIP, the resolver and strings.ToLower are arguments. An address is a number
-- of 32 or of 128 bits. The methods of net.IP are stated as its documentation defines them.
pub mod Guarantees
pub mod Ranges
pub mod Tests
use Prim.Native.Char.{code}
use Prim.Native.String
use amazon_ai_product_image.Base.{
  ℕ, zero, suc, ◌+◌, ◌*◌, ◌-◌, ◌/◌, ◌%◌, ◌^◌, Bool, true, false, String, Option, none, some, List,
  [], ◌∷◌, ◌==◌, string_eq, nat_eq, not, ltb, if◌then◌else◌, ◌||◌, ◌&&◌,
}
use amazon_ai_product_image.Base.Text.{trim_space}

-- The bits of an address, first bit first, as a number.
pub data Ip : Type 0 where
  v4 : ℕ → Ip
  v6 : ℕ → Ip

-- The parts of url.URL that the validator reads. `hostname` is the host without its port.
pub record ParsedUrl : Type 0 where
  pub scheme : String
  pub host : String
  pub hostname : String
  pub has_user : Bool
  pub raw_query : String
  pub fragment : String

-- IP.To4: an IPv4 address that is written as an IPv6 address, ::ffff:a.b.c.d, is one.
unfoldable pub to4 : Ip → Ip
to4 (v4 a) = v4 a
to4 (v6 a) = if a / 2 ^ 32 == 0xffff then v4 (a % 2 ^ 32) else v6 a

abbrev pub is_unspecified : Ip → Bool
is_unspecified (v4 a) = a == 0
is_unspecified (v6 a) = a == 0

-- 127.0.0.0/8, and ::1.
abbrev pub is_loopback : Ip → Bool
is_loopback (v4 a) = a / 2 ^ 24 == 127
is_loopback (v6 a) = a == 1

-- 10.0.0.0/8, 172.16.0.0/12 and 192.168.0.0/16, and fc00::/7.
abbrev pub is_private : Ip → Bool
is_private (v4 a) =
    a / 2 ^ 24 == 10 || a / 2 ^ 20 == 172 * 2 ^ 4 + 1 || a / 2 ^ 16 == 192 * 2 ^ 8 + 168
is_private (v6 a) = a / 2 ^ 121 == 0x7e

-- 169.254.0.0/16, and fe80::/10.
abbrev pub is_link_local_unicast : Ip → Bool
is_link_local_unicast (v4 a) = a / 2 ^ 16 == 169 * 2 ^ 8 + 254
is_link_local_unicast (v6 a) = a / 2 ^ 118 == 0x3fa

-- 224.0.0.0/24, and ff?2::/16.
abbrev pub is_link_local_multicast : Ip → Bool
is_link_local_multicast (v4 a) = a / 2 ^ 8 == 224 * 2 ^ 16
is_link_local_multicast (v6 a) = a / 2 ^ 120 == 0xff && (a / 2 ^ 112) % 16 == 2

-- 224.0.0.0/4, and ff00::/8.
abbrev pub is_multicast : Ip → Bool
is_multicast (v4 a) = a / 2 ^ 28 == 14
is_multicast (v6 a) = a / 2 ^ 120 == 0xff

-- IPNet.Contains for a block of IPv4: the first `bits` bits are those of the block's address.
abbrev pub contains_ip : ℕ × ℕ → Ip → Bool
contains_ip (base, bits) (v4 a) = a / 2 ^ (32 - bits) == base / 2 ^ (32 - bits)
contains_ip (base, bits) (v6 a) = false

abbrev pub address : ℕ → ℕ → ℕ → ℕ → ℕ
address a b c d = a * 2 ^ 24 + b * 2 ^ 16 + c * 2 ^ 8 + d

abbrev pub blocked_cidrs : List (ℕ × ℕ)
blocked_cidrs =
    (address 100 64 0 0, 10)
    ∷ (address 192 0 0 0, 24)
    ∷ (address 192 0 2 0, 24)
    ∷ (address 198 18 0 0, 15)
    ∷ (address 198 51 100 0, 24)
    ∷ (address 203 0 113 0, 24)
    ∷ []

abbrev pub in_some : List (ℕ × ℕ) → Ip → Bool
in_some [] ip = false
in_some (c ∷ cs) ip = contains_ip c ip || in_some cs ip

abbrev pub blocked_kind : Ip → Bool
blocked_kind ip =
    is_unspecified ip
    || is_loopback ip
    || is_private ip
    || is_link_local_unicast ip
    || is_link_local_multicast ip
    || is_multicast ip

unfoldable pub blocked_ip : Ip → Bool
blocked_ip raw = let ip = to4 raw in blocked_kind ip || in_some blocked_cidrs ip

-- strings.TrimSuffix(host, ".").
unfoldable pub without_last_dot : String → String
without_last_dot String.[] = ""
without_last_dot (String.◌∷◌ c String.[]) = if code c == 46 then "" else String.◌∷◌ c ""
without_last_dot (String.◌∷◌ c (String.◌∷◌ d s)) = String.◌∷◌ c (without_last_dot (String.◌∷◌ d s))

unfoldable pub has_suffix : String → String → Bool
has_suffix suffix String.[] = "" == suffix
has_suffix suffix (String.◌∷◌ c s) = String.◌∷◌ c s == suffix || has_suffix suffix s

unfoldable pub has_dot : String → Bool
has_dot String.[] = false
has_dot (String.◌∷◌ c s) = code c == 46 || has_dot s

abbrev pub blocked_hostnames : List String
blocked_hostnames =
    "backend-api" ∷ "backend-worker" ∷ "frontend" ∷ "mysql" ∷ "redis" ∷ "minio"
    ∷ "host.docker.internal" ∷ "gateway.docker.internal" ∷ "docker.for.mac.localhost"
    ∷ "docker.for.win.localhost" ∷ []

abbrev pub is_listed : String → List String → Bool
is_listed host [] = false
is_listed host (h ∷ hs) = h == host || is_listed host hs

abbrev pub is_none : Option Ip → Bool
is_none none = true
is_none (some _) = false

abbrev pub any_blocked : List Ip → Bool
any_blocked [] = false
any_blocked (ip ∷ ips) = blocked_ip ip || any_blocked ips

abbrev pub no_ips : List Ip → Bool
no_ips [] = true
no_ips (_ ∷ _) = false

-- `lookup` answers none for an error, and its addresses are those that are not nil.
module _ (lower : String → String) (parse_ip : String → Option Ip)
    (lookup : String → Option (List Ip)) where
  unfoldable pub is_blocked_hostname : String → Bool
  is_blocked_hostname raw =
      let host = lower (without_last_dot (trim_space raw)) in
      host == ""
      || host == "localhost"
      || has_suffix ".localhost" host
      || not (has_dot host) && is_none (parse_ip host)
      || is_listed host blocked_hostnames

  abbrev pub resolved : String → Option Ip → Option (List Ip)
  resolved host (some ip) = some (ip ∷ [])
  resolved host none = lookup host

  unfoldable pub resolve_host : String → Option (List Ip)
  resolve_host host = resolved host (parse_ip host)

  abbrev pub acceptable : Option (List Ip) → Bool
  acceptable none = false
  acceptable (some ips) = not (no_ips ips) && not (any_blocked ips)

  -- ValidateParsed without an error.
  unfoldable pub validate_parsed : ParsedUrl → Bool
  validate_parsed u =
      let host = trim_space u.hostname in
      u.scheme == "https"
      && not (u.host == "" || u.hostname == "")
      && not (u.has_user || not (u.raw_query == "") || not (u.fragment == ""))
      && not (is_blocked_hostname host)
      && acceptable (resolve_host host)
