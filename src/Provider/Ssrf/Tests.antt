-- ===== src/Provider/Ssrf/Tests.antt =====
-- Addresses of providers, with a resolver that knows one name.
use amazon_ai_product_image.Base.{
  true, false, String, Option, none, some, List, [], ◌∷◌, ◌==◌, string_eq, ◌+◌, ◌*◌, ◌^◌, ◌≡◌, refl,
  arith, if◌then◌else◌,
}
use amazon_ai_product_image.Base.Text.{trim_space}
use amazon_ai_product_image.Provider.Ssrf.{
  Ip, v4, v6, address, blocked_ip, ParsedUrl, validate_parsed, to4, is_blocked_hostname,
  resolve_host, without_last_dot, has_suffix, has_dot,
}
use amazon_ai_product_image.Provider.Ssrf.Ranges.{refused, blocked_ip-v4, blocked_ip-mapped}
use amazon_ai_product_image.Provider.Ssrf.Guarantees.{IsAllowed, validate_parsed-IsAllowed}

abbrev same : String → String
same s = s

abbrev no_address : String → Option Ip
no_address s = none

abbrev known : String → Option (List Ip)
known s = if s == "api.example.com" then some (v4 (address 93 184 216 34) ∷ []) else none

abbrev api_url : ParsedUrl
api_url = record {
  scheme = "https";
  host = "api.example.com:443";
  hostname = "api.example.com";
  has_user = false;
  raw_query = "";
  fragment = "";
}

-- The metadata service of a cloud is refused, and so is the same address as an IPv6 address.
metadata_lem : blocked_ip (v4 (address 169 254 169 254)) ≡ true
unfolding blocked_ip to4
metadata_lem = refl

blocked_ip-v4_example : blocked_ip (v4 (address 172 20 0 1)) ≡ refused (address 172 20 0 1)
blocked_ip-v4_example = blocked_ip-v4 (address 172 20 0 1)

blocked_ip-mapped_example :
    blocked_ip (v6 (0xffff * 2 ^ 32 + address 10 0 0 1)) ≡ blocked_ip (v4 (address 10 0 0 1))
blocked_ip-mapped_example = blocked_ip-mapped (address 10 0 0 1) (omega arith)

validate_parsed-IsAllowed_example : IsAllowed same no_address known api_url
unfolding validate_parsed is_blocked_hostname resolve_host blocked_ip to4 without_last_dot
    has_suffix has_dot trim_space
validate_parsed-IsAllowed_example = validate_parsed-IsAllowed same no_address known api_url refl
