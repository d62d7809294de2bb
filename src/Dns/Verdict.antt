-- ===== src/Dns/Verdict.antt =====
-- internal/dnscheck/checker.go: which answers make a host name pass, and which result is shown.
use vtafarm_api.Base.{
  String, Bool, false, not, ◌&&◌, List, [], ◌∷◌, Option, none, some, map, str_eq, find, any, select,
  if◌then◌else◌, ◌≡◌, refl, arith, Bool-cases, inl, inr,
}
use vtafarm_api.Dns.Answers.{
  Net, HostAnswer, addresses, not_found, lookup_failed, Resolver, HostResult, is_empty, is_v4,
  judge, on_answer, resolve_host,
}
use vtafarm_api.Dns.Hosts.{keep_fallback, fallback_or, try_resolvers, check_host}

is_empty-select :
    {A : Type 0} (p : A → Bool) (xs : List A) → is_empty (select p xs) ≡ not (any p xs)
unfolding select any
is_empty-select p [] = refl
is_empty-select p (x ∷ xs) = ground (arith, is_empty-select p xs)

any-select :
    {A : Type 0} (p q : A → Bool) (xs : List A) → any q (select p xs) ≡ any (λ x. p x && q x) xs
unfolding select any
any-select p q [] = refl
any-select p q (x ∷ xs) = ground (arith, any-select p q xs)

module _ (net : Net) (want_ip : String) where
  -- The description: there is an IPv4 address, and none that differs from the wanted one.
  unfoldable pub is_pointed : HostAnswer → Bool
  is_pointed (addresses addrs) =
      any (is_v4 net) addrs && not (any (λ a. is_v4 net a && not (str_eq a want_ip)) addrs)
  is_pointed not_found = false
  is_pointed (lookup_failed e) = false

  judge-is_ok :
      (v4s wrong : List String) (res : HostResult)
      → res.is_ok ≡ false
      → (judge net want_ip v4s wrong res).is_ok ≡ (not (is_empty v4s) && is_empty wrong)
  unfolding judge
  judge-is_ok v4s wrong res h = ground (arith, h)

  on_answer-is_ok :
      (answer : HostAnswer) (res : HostResult)
      → res.is_ok ≡ false
      → (on_answer net want_ip answer res).is_ok ≡ is_pointed answer
  unfolding on_answer is_pointed
  on_answer-is_ok not_found res h = h
  on_answer-is_ok (lookup_failed e) res h = h
  on_answer-is_ok (addresses addrs) res h = ground (
    arith,
    judge-is_ok (select (is_v4 net) addrs)
        (select (λ ip. not (str_eq ip want_ip)) (select (is_v4 net) addrs))
        (record res { ips = addrs }) h,
    is_empty-select (is_v4 net) addrs,
    is_empty-select (λ ip. not (str_eq ip want_ip)) (select (is_v4 net) addrs),
    any-select (is_v4 net) (λ ip. not (str_eq ip want_ip)) addrs,
  )

  pub resolve_host-is_ok :
      (r : Resolver) (fqdn : String)
      → (resolve_host net r fqdn want_ip).is_ok ≡ is_pointed (r.lookup_host fqdn)
  unfolding resolve_host
  resolve_host-is_ok r fqdn = on_answer-is_ok (r.lookup_host fqdn) _ refl

  abbrev pub has_ips : HostResult → Bool
  has_ips res = not (is_empty res.ips)

  abbrev pub or_else : Option HostResult → HostResult → HostResult
  or_else none d = d
  or_else (some res) d = res

  abbrev pub first_or : String → List HostResult → HostResult
  first_or fqdn [] = fallback_or fqdn none
  first_or fqdn (res ∷ rest) = res

  -- The description: the first result that passes, else the first with addresses, else the first.
  unfoldable pub shown : String → List HostResult → HostResult
  shown fqdn results =
      or_else (find (λ (res : HostResult). res.is_ok) results)
        (or_else (find has_ips results) (first_or fqdn results))

  unfoldable pub results_of : List Resolver → String → List HostResult
  results_of resolvers fqdn = map (λ r. resolve_host net r fqdn want_ip) resolvers

  -- What the loop shows when it has an earlier result that failed.
  abbrev shown_after : HostResult → List HostResult → HostResult
  shown_after old results =
      or_else (find (λ (res : HostResult). res.is_ok) results)
        (if is_empty old.ips then or_else (find has_ips results) old else old)

  try_resolvers-shown_after :
      (fqdn : String) (rs : List Resolver) (old : HostResult)
      → try_resolvers net want_ip fqdn rs (some old) ≡ shown_after old (results_of rs fqdn)
  unfolding try_resolvers keep_fallback fallback_or results_of find
  try_resolvers-shown_after fqdn [] old = ground arith
  try_resolvers-shown_after fqdn (r ∷ rs) old = ground (
    arith,
    try_resolvers-shown_after fqdn rs old,
    try_resolvers-shown_after fqdn rs (resolve_host net r fqdn want_ip),
  )

  pub check_host-shown :
      (resolvers : List Resolver) (fqdn : String)
      → check_host net want_ip resolvers fqdn ≡ shown fqdn (results_of resolvers fqdn)
  unfolding check_host try_resolvers keep_fallback results_of shown find
  check_host-shown [] fqdn = refl
  check_host-shown (r ∷ rs) fqdn =
      ground (arith, try_resolvers-shown_after fqdn rs (resolve_host net r fqdn want_ip))

  unreached : (fqdn : String) → (fallback_or fqdn none).is_ok ≡ false
  unfolding fallback_or
  unreached fqdn = refl

  keep_fallback-fails :
      (fqdn : String) (fallback : Option HostResult) (res : HostResult)
      → (fallback_or fqdn fallback).is_ok ≡ false
      → res.is_ok ≡ false
      → (fallback_or fqdn (keep_fallback fallback res)).is_ok ≡ false
  unfolding fallback_or keep_fallback
  keep_fallback-fails fqdn none res h e = e
  keep_fallback-fails fqdn (some old) res h e = ground (arith, h, e)

  try_resolvers-is_ok :
      (fqdn : String) (rs : List Resolver) (fallback : Option HostResult)
      → (fallback_or fqdn fallback).is_ok ≡ false
      → (try_resolvers net want_ip fqdn rs fallback).is_ok
        ≡ any (λ (r : Resolver). is_pointed (r.lookup_host fqdn)) rs
  unfolding try_resolvers any
  try_resolvers-is_ok fqdn [] fallback h = h
  try_resolvers-is_ok fqdn (r ∷ rs) fallback h =
      elim (Bool-cases (resolve_host net r fqdn want_ip).is_ok) [
        | inl e ↦ ground (arith, e, resolve_host-is_ok r fqdn)
        | inr e ↦ ground (
          arith,
          e,
          resolve_host-is_ok r fqdn,
          try_resolvers-is_ok fqdn rs (keep_fallback fallback (resolve_host net r fqdn want_ip))
              (keep_fallback-fails fqdn fallback (resolve_host net r fqdn want_ip) h e),
        )
      ]

  -- Modelling internal/dnscheck/checker.go: checkHost passes a name exactly if, for some resolver,
  -- the name has an IPv4 address and no IPv4 address other than the wanted one (IPv6 addresses and
  -- Cloudflare's networks play no part); and it returns the first result that passes, or, where none
  -- does, the first with addresses, or, where none has any, the first, or a failure if there is no
  -- resolver.
  pub check_host-is_pointed :
      (resolvers : List Resolver) (fqdn : String)
      → ((check_host net want_ip resolvers fqdn).is_ok
          ≡ any (λ (r : Resolver). is_pointed (r.lookup_host fqdn)) resolvers)
        × (check_host net want_ip resolvers fqdn ≡ shown fqdn (results_of resolvers fqdn))
  unfolding check_host
  check_host-is_pointed resolvers fqdn =
      (try_resolvers-is_ok fqdn resolvers none (unreached fqdn), check_host-shown resolvers fqdn)
