-- ===== src/Dns/Answers.antt =====
-- internal/dnscheck/checker.go: the results, the answers of a resolver, Cloudflare's networks and the
-- check of one host name with one resolver. What a resolver answers is a field of it; net.ParseIP
-- with To4, strings.EqualFold and strings.TrimSuffix of a final dot are fields of `Net`.
use vtafarm_api.Base.{
  ℕ, ◌+◌, ◌-◌, ◌*◌, String, Bool, true, false, not, ◌&&◌, List, [], ◌∷◌, Option, none, some, str_eq,
  ◌==◌, any, select, length, if◌then◌else◌,
}
use Prim.Native.Nat.{◌/◌, ◌^◌}
use Prim.Native.String.{◌++◌ as text_append}

-- A parsed address: the number of an IPv4 address (also of one mapped into IPv6), or any other.
pub data Ip : Type 0 where
  v4 : ℕ → Ip
  v6 : Ip

pub record Net : Type 0 where
  pub parse_ip : String → Option Ip
  pub equal_fold : String → String → Bool
  pub trim_dot : String → String

-- LookupHost: the addresses, a DNSError with IsNotFound, or another error with its text.
pub data HostAnswer : Type 0 where
  addresses : List String → HostAnswer
  not_found : HostAnswer
  lookup_failed : String → HostAnswer

-- net.Resolver; `none` is an error.
pub record Resolver : Type 0 where
  pub lookup_cname : String → Option String
  pub lookup_host : String → HostAnswer
  pub lookup_txt : String → Option (List String)

-- Result
pub record HostResult : Type 0 where
  pub fqdn : String
  pub cname : String
  pub ips : List String
  pub is_ok : Bool
  pub detail : String

pub record Cidr : Type 0 where
  pub base : ℕ
  pub size : ℕ

abbrev pub cidr : ℕ → ℕ → ℕ → ℕ → ℕ → Cidr
cidr a b c d bits = record { base = ((a * 256 + b) * 256 + c) * 256 + d; size = 2 ^ (32 - bits) }

-- cloudflareNets
unfoldable pub cloudflare_nets : List Cidr
cloudflare_nets =
    cidr 173 245 48 0 20
    ∷ cidr 103 21 244 0 22
    ∷ cidr 103 22 200 0 22
    ∷ cidr 103 31 4 0 22
    ∷ cidr 141 101 64 0 18
    ∷ cidr 108 162 192 0 18
    ∷ cidr 190 93 240 0 20
    ∷ cidr 188 114 96 0 20
    ∷ cidr 197 234 240 0 22
    ∷ cidr 198 41 128 0 17
    ∷ cidr 162 158 0 0 15
    ∷ cidr 104 16 0 0 13
    ∷ cidr 104 24 0 0 14
    ∷ cidr 172 64 0 0 13
    ∷ cidr 131 0 72 0 22
    ∷ []

-- IPNet.Contains: the address lies in the network that the base's leading bits name.
unfoldable pub contains_ip : Ip → Cidr → Bool
contains_ip (v4 value) n = value / n.size == n.base / n.size
contains_ip v6 n = false

abbrev pub is_empty : {A : Type 0} → List A → Bool
is_empty [] = true
is_empty (x ∷ xs) = false

-- strings.Join
unfoldable pub join : String → List String → String
join sep [] = ""
join sep (x ∷ xs) = if is_empty xs then x else text_append x (text_append sep (join sep xs))

module _ (net : Net) where
  unfoldable pub in_cloudflare : Option Ip → Bool
  unfolding cloudflare_nets contains_ip
  in_cloudflare none = false
  in_cloudflare (some ip) = any (contains_ip ip) cloudflare_nets

  unfoldable pub all_in : List String → Bool
  unfolding in_cloudflare
  all_in [] = true
  all_in (s ∷ ips) = in_cloudflare (net.parse_ip s) && all_in ips

  -- allCloudflare
  unfoldable pub all_cloudflare : List String → Bool
  unfolding all_in
  all_cloudflare ips = not (is_empty ips) && all_in ips

  abbrev pub is_v4 : String → Bool
  is_v4 a = elim (net.parse_ip a) [ none ↦ false | some ip ↦ elim ip [ v4 n ↦ true | v6 ↦ false ] ]

  -- The alias target, where it is not the name itself.
  unfoldable pub alias_target : String → Option String → String
  alias_target fqdn none = ""
  alias_target fqdn (some target) =
      let cname = net.trim_dot target in if not (net.equal_fold cname fqdn) then cname else ""

  abbrev pub no_ipv4 : String
  no_ipv4 = "no IPv4 address — the record must be an A record (or a CNAME leading to one)"

  abbrev pub proxied : String
  proxied = "points at Cloudflare's proxy — switch the record to DNS only (grey cloud)"

  -- The decision of resolveHost on the IPv4 addresses found and the ones among them that are wrong.
  unfoldable pub judge : String → List String → List String → HostResult → HostResult
  unfolding all_cloudflare join
  judge want_ip v4s wrong res =
      if is_empty v4s
      then record res { detail = no_ipv4 }
      else if is_empty wrong
      then record res { is_ok = true }
      else if all_cloudflare wrong
      then record res { detail = proxied }
      else if length wrong == length v4s
      then record res {
        detail =
            text_append "resolves to "
              (text_append (join ", " wrong) (text_append " — expected " want_ip));
      }
      else record res {
        detail =
            text_append "also resolves to " (
              text_append (join ", " wrong)
                (text_append " — remove every address except " want_ip));
      }

  unfoldable pub on_answer : String → HostAnswer → HostResult → HostResult
  unfolding judge
  on_answer want_ip not_found res = record res { detail = "no record found" }
  on_answer want_ip (lookup_failed e) res = record res { detail = text_append "lookup failed: " e }
  on_answer want_ip (addresses addrs) res =
      let v4s = select is_v4 addrs in
      let wrong = select (λ ip. not (str_eq ip want_ip)) v4s in
      judge want_ip v4s wrong (record res { ips = addrs })

  -- resolveHost
  unfoldable pub resolve_host : Resolver → String → String → HostResult
  unfolding alias_target on_answer
  resolve_host r fqdn want_ip = on_answer want_ip (r.lookup_host fqdn) (record {
    fqdn = fqdn;
    cname = alias_target fqdn (r.lookup_cname fqdn);
    ips = [];
    is_ok = false;
    detail = "";
  })
