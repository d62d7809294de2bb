-- ===== src/Dns/Examples.antt =====
-- internal/dnscheck/checker.go: checks of a domain with two resolvers, and the theorems at them.
use vtafarm_api.Base.{
  ℕ, ◌<◌, String, true, false, List, [], ◌∷◌, Option, none, some, map, any, str_eq, ◌==◌, ◌≡◌, ◌||◌,
  refl, arith, if◌then◌else◌, select, inl,
}
use vtafarm_api.Dns.Answers.{Net, Ip, v4, v6, addresses, not_found, Resolver}
use vtafarm_api.Dns.Hosts.{check_host, check_hosts}
use vtafarm_api.Dns.Addresses.{lookup_ip_addr}
use vtafarm_api.Dns.Verdict.{is_pointed, shown, results_of, check_host-is_pointed}
use vtafarm_api.Dns.Parallel.{check_hosts_in_order}
use vtafarm_api.Dns.Txt.{has, check_txt, is_published_at, HasNoRepeat, check_txt-is_published_at}

-- 20.0.0.1, 104.16.0.1 of Cloudflare, and an IPv6 address.
abbrev parse : String → Option Ip
parse s =
    if str_eq s "20.0.0.1"
    then some (v4 335_544_321)
    else if str_eq s "104.16.0.1"
    then some (v4 1_745_879_041)
    else some v6

abbrev net : Net
net = record { parse_ip = parse; equal_fold = str_eq; trim_dot = λ s. s }

-- The first resolver does not know the name yet, the second has the right address and an IPv6 one.
abbrev stale : Resolver
stale = record { lookup_cname = λ _. none; lookup_host = λ _. not_found; lookup_txt = λ _. none }

abbrev updated : Resolver
updated = record {
  lookup_cname = λ _. some "lb.example";
  lookup_host = λ _. addresses ("2001:db8::1" ∷ "20.0.0.1" ∷ []);
  lookup_txt = λ name. if str_eq name "a.example" then some ("v=spf1" ∷ "token" ∷ []) else none;
}

abbrev proxied : Resolver
proxied = record updated { lookup_host = λ _. addresses ("104.16.0.1" ∷ []) }

second_passes : (check_host net "20.0.0.1" (stale ∷ updated ∷ []) "did.a.example").is_ok ≡ true
unfolding check_host select any
second_passes = refl

cloudflare_fails : check_host net "20.0.0.1" (proxied ∷ []) "did.a.example" ≡ record {
  fqdn = "did.a.example";
  cname = "lb.example";
  ips = "104.16.0.1" ∷ [];
  is_ok = false;
  detail = "points at Cloudflare's proxy — switch the record to DNS only (grey cloud)";
}
unfolding check_host select any
cloudflare_fails = refl

second_has_addresses :
    lookup_ip_addr ((λ _. inl []) ∷ (λ _. inl ("20.0.0.1" ∷ [])) ∷ []) "a.example"
    ≡ inl ("20.0.0.1" ∷ [])
unfolding lookup_ip_addr
second_has_addresses = refl

check_host-is_pointed_example :
    ((check_host net "20.0.0.1" (stale ∷ updated ∷ []) "did.a.example").is_ok
      ≡ any
          (λ (r : Resolver). is_pointed net "20.0.0.1" (r.lookup_host "did.a.example"))
          (stale ∷ updated ∷ []))
    × (check_host net "20.0.0.1" (stale ∷ updated ∷ []) "did.a.example"
        ≡ shown net "20.0.0.1" "did.a.example"
            (results_of net "20.0.0.1" (stale ∷ updated ∷ []) "did.a.example"))
check_host-is_pointed_example =
    check_host-is_pointed net "20.0.0.1" (stale ∷ updated ∷ []) "did.a.example"

abbrev names : List String
names = "did.a.example" ∷ "vta.a.example" ∷ []

all_end : (i : ℕ) → i < 2 → any (λ k. k == i) (1 ∷ 0 ∷ []) ≡ true
unfolding any
all_end i h = ground (arith, h)

check_hosts_in_order_example :
    check_hosts net (stale ∷ updated ∷ []) "20.0.0.1" (1 ∷ 0 ∷ []) names
    ≡ map (λ f. shown net "20.0.0.1" f (results_of net "20.0.0.1" (stale ∷ updated ∷ []) f)) names
check_hosts_in_order_example =
    check_hosts_in_order net (stale ∷ updated ∷ []) "20.0.0.1" names (1 ∷ 0 ∷ []) all_end

check_txt-is_published_at_example :
    ((check_txt (stale ∷ updated ∷ []) "_vta.a.example" "a.example" "token").is_ok ≡ (
      is_published_at (stale ∷ updated ∷ []) "_vta.a.example" "token"
      || is_published_at (stale ∷ updated ∷ []) "a.example" "token"))
    × ((v : String)
        → has (check_txt (stale ∷ updated ∷ []) "_vta.a.example" "a.example" "token").found v ≡ (
            is_published_at (stale ∷ updated ∷ []) "_vta.a.example" v
            || is_published_at (stale ∷ updated ∷ []) "a.example" v))
    × HasNoRepeat (check_txt (stale ∷ updated ∷ []) "_vta.a.example" "a.example" "token").found
check_txt-is_published_at_example =
    check_txt-is_published_at (stale ∷ updated ∷ []) "_vta.a.example" "a.example" "token"

token_found : (check_txt (stale ∷ updated ∷ []) "_vta.a.example" "a.example" "token").is_ok ≡ true
unfolding check_txt any
token_found = refl
