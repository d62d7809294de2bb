-- ===== src/Dns/Parallel.antt =====
-- internal/dnscheck/checker.go: CheckHosts gives the same results in whatever order its goroutines
-- end.
use vtafarm_api.Base.{
  ℕ, ◌<◌, String, true, List, [], ◌∷◌, map, any, get_elem?, length-set, get_elem?-set, list_ext,
  get_elem?-beyond, length-map, get_elem?-map-some, get_elem?-none, get_elem?-some, length, ◌==◌,
  if◌then◌else◌, ◌≡◌, refl, sym, ap, ◌∙◌, arith, Bool-cases, Option-cases, inl, inr,
}
use native.Mathlib.Decide.{dec_lt}
use mathlib.Core.Path.{fun_ext}
use vtafarm_api.Dns.Answers.{Net, Resolver, HostResult}
use vtafarm_api.Dns.Hosts.{empty_result, check_host, finish, finish_all, check_hosts}
use vtafarm_api.Dns.Verdict.{shown, results_of, check_host-shown}

module _ (net : Net) (resolvers : List Resolver) (want_ip : String) (fqdns : List String) where
  abbrev checked : List HostResult
  checked = map (check_host net want_ip resolvers) fqdns

  length-finish :
      (i : ℕ) (results : List HostResult)
      → length (finish net resolvers want_ip fqdns i results) ≡ length results
  unfolding finish
  length-finish i results = elim (Option-cases (get_elem? fqdns i)) [
    | inl e ↦ ground (arith, e)
    | inr (x, e) ↦ ground (arith, e, length-set results i (check_host net want_ip resolvers x))
  ]

  -- A goroutine writes its cell, and only that.
  get_elem?-finish :
      (i j : ℕ) (results : List HostResult)
      → length fqdns ≡ length results
      → get_elem? (finish net resolvers want_ip fqdns i results) j
        ≡ (if i == j then get_elem? checked j else get_elem? results j)
  unfolding finish
  get_elem?-finish i j results same = elim (Bool-cases (i == j)) [
    | inl t ↦
        let here : i ≡ j = ground (arith, t) in
        elim (Option-cases (get_elem? fqdns j)) [
          | inl e ↦ ground (
            arith,
            here,
            e,
            get_elem?-none fqdns results j same e,
            get_elem?-none fqdns checked j
                (omega (arith, length-map (check_host net want_ip resolvers) fqdns)) e,
          )
          | inr (x, e) ↦
              let (old, there) = get_elem?-some fqdns results j x same e in
              ground (
                arith,
                here,
                e,
                there,
                get_elem?-set results i j (check_host net want_ip resolvers x),
                get_elem?-map-some (check_host net want_ip resolvers) fqdns j x e,
              )
        ]
    | inr t ↦ elim (Option-cases (get_elem? fqdns i)) [
      | inl e ↦ ground (arith, t, e)
      | inr (x, e) ↦
          ground (arith, t, e, get_elem?-set results i j (check_host net want_ip resolvers x))
    ]
  ]

  get_elem?-finish_all :
      (order : List ℕ) (j : ℕ) (results : List HostResult)
      → length fqdns ≡ length results
      → get_elem? (finish_all net resolvers want_ip fqdns order results) j
        ≡ (if any (λ i. i == j) order then get_elem? checked j else get_elem? results j)
  unfolding finish_all any
  get_elem?-finish_all [] j results same = refl
  get_elem?-finish_all (i ∷ order) j results same = ground (
    arith,
    get_elem?-finish i j results same,
    get_elem?-finish_all order j (finish net resolvers want_ip fqdns i results)
        (same ∙ sym (length-finish i results)),
  )

  length-finish_all :
      (order : List ℕ) (results : List HostResult)
      → length (finish_all net resolvers want_ip fqdns order results) ≡ length results
  unfolding finish_all
  length-finish_all [] results = refl
  length-finish_all (i ∷ order) results =
      length-finish_all order (finish net resolvers want_ip fqdns i results)
      ∙ length-finish i results

  finish_all-checked :
      (order : List ℕ) (results : List HostResult)
      → length fqdns ≡ length results
      → ((i : ℕ) → i < length fqdns → any (λ k. k == i) order ≡ true)
      → finish_all net resolvers want_ip fqdns order results ≡ checked
  finish_all-checked order results same covers = list_ext _ _ (λ i. elim (dec_lt i (length fqdns)) [
    | yes p ↦ ground (arith, get_elem?-finish_all order i results same, covers i p)
    | no p ↦
        let out = get_elem?-beyond fqdns i p in
        ground (
          arith,
          get_elem?-none fqdns checked i (sym (length-map (check_host net want_ip resolvers) fqdns))
              out,
          get_elem?-none fqdns (finish_all net resolvers want_ip fqdns order results) i
              (same ∙ sym (length-finish_all order results)) out,
        )
  ])

  -- Modelling internal/dnscheck/checker.go: in whatever order the goroutines of CheckHosts end, where
  -- each name's goroutine ends, the results are those of the names in their order, each the one that
  -- the description shows for its name: the first resolver's that passes, else the first with
  -- addresses, else the first.
  pub check_hosts_in_order :
      (order : List ℕ)
      → ((i : ℕ) → i < length fqdns → any (λ k. k == i) order ≡ true)
      → check_hosts net resolvers want_ip order fqdns
        ≡ map (λ f. shown net want_ip f (results_of net want_ip resolvers f)) fqdns
  unfolding check_hosts
  check_hosts_in_order order covers =
      finish_all-checked order (map (λ _. empty_result) fqdns)
        (sym (length-map (λ _. empty_result) fqdns)) covers
      ∙ ap (λ f. map f fqdns) (fun_ext (check_host-shown net want_ip resolvers))
