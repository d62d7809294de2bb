-- ===== src/Dns/Hosts.antt =====
-- internal/dnscheck/checker.go: the check of one host name with every resolver, and of all names in
-- parallel, where the goroutines end in any order.
use vtafarm_api.Base.{
  ℕ, String, false, not, ◌&&◌, List, [], ◌∷◌, Option, none, some, map, get_elem?, set,
  if◌then◌else◌,
}
use vtafarm_api.Dns.Answers.{Net, Resolver, HostResult, is_empty, resolve_host}

-- The fallback is replaced by the first failure, and by the first failure with addresses.
unfoldable pub keep_fallback : Option HostResult → HostResult → Option HostResult
keep_fallback none res = some res
keep_fallback (some old) res =
    if not (is_empty res.ips) && is_empty old.ips then some res else some old

unfoldable pub fallback_or : String → Option HostResult → HostResult
fallback_or fqdn none = record {
  fqdn = fqdn;
  cname = "";
  ips = [];
  is_ok = false;
  detail = "no resolver could be reached";
}
fallback_or fqdn (some res) = res

abbrev pub empty_result : HostResult
empty_result = record { fqdn = ""; cname = ""; ips = []; is_ok = false; detail = "" }

module _ (net : Net) (want_ip : String) where
  -- The loop of checkHost over the resolvers.
  unfoldable pub try_resolvers : String → List Resolver → Option HostResult → HostResult
  unfolding keep_fallback fallback_or resolve_host
  try_resolvers fqdn [] fallback = fallback_or fqdn fallback
  try_resolvers fqdn (r ∷ rs) fallback =
      let res = resolve_host net r fqdn want_ip in
      let rest = try_resolvers fqdn rs (keep_fallback fallback res) in
      if res.is_ok then res else rest

  -- checkHost
  unfoldable pub check_host : List Resolver → String → HostResult
  unfolding try_resolvers
  check_host resolvers fqdn = try_resolvers fqdn resolvers none

module _ (net : Net) (resolvers : List Resolver) (want_ip : String) where
  -- The goroutine of the name at an index writes its own cell of the results.
  unfoldable pub finish : List String → ℕ → List HostResult → List HostResult
  unfolding check_host
  finish fqdns i results = elim (get_elem? fqdns i) [
    | none ↦ results
    | some fqdn ↦ set results i (check_host net want_ip resolvers fqdn)
  ]

  unfoldable pub finish_all : List String → List ℕ → List HostResult → List HostResult
  unfolding finish
  finish_all fqdns [] results = results
  finish_all fqdns (i ∷ order) results = finish_all fqdns order (finish fqdns i results)

  -- CheckHosts, with the order in which its goroutines end.
  unfoldable pub check_hosts : List ℕ → List String → List HostResult
  unfolding finish_all
  check_hosts order fqdns = finish_all fqdns order (map (λ _. empty_result) fqdns)
