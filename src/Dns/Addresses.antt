-- ===== src/Dns/Addresses.antt =====
-- internal/dnscheck/checker.go: the lookup of a host's addresses, which takes the first resolver with
-- an address.
use vtafarm_api.Base.{
  ℕ, suc, ◌+◌, String, Bool, true, false, not, List, [], ◌∷◌, ◌++◌, ◌⊎◌, inl, inr, any, length,
  length-append, if◌then◌else◌, ◌≡◌, refl, arith, Bool-cases,
}
use mathlib.Core.Path.{subst}
use vtafarm_api.Dns.Answers.{is_empty}

-- LookupIPAddr of one resolver: the addresses, or an error.
abbrev pub IpLookup : Type 0
IpLookup = String → List String ⊎ String

abbrev pub is_found : List String ⊎ String → Bool
is_found (inl addresses) = not (is_empty addresses)
is_found (inr e) = false

abbrev pub addresses_of : List String ⊎ String → List String
addresses_of (inl addresses) = addresses
addresses_of (inr e) = []

-- The error of a resolver without an address.
abbrev pub error_of : List String ⊎ String → String
error_of (inl addresses) = "DNS returned no addresses"
error_of (inr e) = e

-- The loop of LookupIPAddr: the first answer with an address, or all errors joined.
unfoldable pub try_lookups : String → List IpLookup → List String → List String ⊎ List String
try_lookups host [] errors = inr errors
try_lookups host (lookup ∷ rest) errors =
    let later = try_lookups host rest (errors ++ error_of (lookup host) ∷ []) in
    if is_found (lookup host) then inl (addresses_of (lookup host)) else later

-- LookupIPAddr
unfoldable pub lookup_ip_addr : List IpLookup → String → List String ⊎ List String
unfolding try_lookups
lookup_ip_addr resolvers host =
    if is_empty resolvers
    then inr ("no public DNS resolvers are configured" ∷ [])
    else try_lookups host resolvers []

-- An address is returned if a resolver has one; otherwise there is an error for each resolver.
abbrev pub Reports : ℕ → Bool → List String ⊎ List String → Type 0
Reports n found (inl addresses) = (found ≡ true) × (is_empty addresses ≡ false)
Reports n found (inr errors) = (found ≡ false) × (length errors ≡ n)

found_addresses :
    (answer : List String ⊎ String)
    → is_found answer ≡ true
    → is_empty (addresses_of answer) ≡ false
found_addresses (inl addresses) h = ground (arith, h)
found_addresses (inr e) h = cc

pub try_lookups-Reports :
    (host : String) (ls : List IpLookup) (errors : List String)
    → Reports
        (length errors + length ls)
        (any (λ l. is_found (l host)) ls)
        (try_lookups host ls errors)
unfolding try_lookups any
try_lookups-Reports host [] errors = (refl, omega arith)
try_lookups-Reports host (l ∷ ls) errors = elim (Bool-cases (is_found (l host))) [
  | inl e ↦ rw e (refl, found_addresses (l host) e)
  | inr e ↦
      let later = try_lookups-Reports host ls (errors ++ error_of (l host) ∷ []) in
      let same : length (errors ++ error_of (l host) ∷ []) + length ls
          ≡ length errors + suc (length ls) =
        omega (arith, length-append errors (error_of (l host) ∷ [])) in
      rw e (
        subst
          (λ n.
            Reports n (any (λ l. is_found (l host)) ls)
              (try_lookups host ls (errors ++ error_of (l host) ∷ [])))
          same later)
]
