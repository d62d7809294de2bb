-- ===== src/Dns/Txt.antt =====
-- internal/dnscheck/checker.go: the check of the challenge record, and the lookup of addresses that
-- takes the first resolver with an answer.
use vtafarm_api.Base.{
  String, Bool, false, ◌||◌, List, [], ◌∷◌, ◌++◌, Option, none, some, str_eq, eq_iff, any,
  if◌then◌else◌, ◌≡◌, refl, arith, Bool-cases, inl, inr,
}
use Prim.Native.String.{◌++◌ as text_append}
use vtafarm_api.Dns.Answers.{Resolver, is_empty}

-- TxtResult
pub record TxtResult : Type 0 where
  pub name : String
  pub expected : String
  pub found : List String
  pub is_ok : Bool
  pub detail : String

-- slices.Contains, and the test of the set of values seen, which holds what `found` holds.
unfoldable pub has : List String → String → Bool
has values v = any (λ w. str_eq w v) values

-- The loop over the values of one answer.
unfoldable pub add_values : List String → List String → List String
unfolding has
add_values [] found = found
add_values (v ∷ values) found = add_values values (if has found v then found else found ++ v ∷ [])

unfoldable pub add_answer : Option (List String) → List String → List String
unfolding add_values
add_answer none found = found
add_answer (some values) found = add_values values found

-- The loops over the resolvers and the names.
unfoldable pub add_name : List Resolver → String → List String → List String
unfolding add_answer
add_name [] name found = found
add_name (r ∷ rs) name found = add_name rs name (add_answer (r.lookup_txt name) found)

-- CheckTXT
unfoldable pub check_txt : List Resolver → String → String → String → TxtResult
unfolding add_name has
check_txt resolvers challenge_name apex expected =
    let found = add_name resolvers apex (add_name resolvers challenge_name []) in
    record {
      name = challenge_name;
      expected = expected;
      found = found;
      is_ok = has found expected;
      detail =
          if has found expected
          then ""
          else if is_empty found
          then text_append "no TXT record found at "
              (text_append challenge_name (text_append " or " apex))
          else "no TXT value matches — an older token may still be present";
    }

-- The description: a resolver answers with the value at the name.
unfoldable pub is_published_at : List Resolver → String → String → Bool
unfolding has
is_published_at [] name v = false
is_published_at (r ∷ rs) name v =
    (elim (r.lookup_txt name) [ none ↦ false | some values ↦ has values v ])
    || is_published_at rs name v

-- No value stands twice.
abbrev pub HasNoRepeat : List String → Type 0
HasNoRepeat [] = Unit
HasNoRepeat (v ∷ values) = (has values v ≡ false) × HasNoRepeat values

has-snoc :
    (found : List String) (v w : String) → has (found ++ v ∷ []) w ≡ (has found w || str_eq v w)
unfolding has any
has-snoc [] v w = ground arith
has-snoc (x ∷ found) v w = ground (arith, has-snoc found v w)

has-add_values :
    (values found : List String) (v : String)
    → has (add_values values found) v ≡ (has found v || has values v)
unfolding add_values has any
has-add_values [] found v = ground arith
has-add_values (w ∷ values) found v = ground (
  arith,
  has-add_values values (if has found w then found else found ++ w ∷ []) v,
  has-snoc found w v,
  eq_iff w v,
)

has-add_answer :
    (answer : Option (List String)) (found : List String) (v : String)
    → has (add_answer answer found) v
      ≡ (has found v || (elim answer [ none ↦ false | some values ↦ has values v ]))
unfolding add_answer
has-add_answer none found v = ground arith
has-add_answer (some values) found v = has-add_values values found v

has-add_name :
    (rs : List Resolver) (name : String) (found : List String) (v : String)
    → has (add_name rs name found) v ≡ (has found v || is_published_at rs name v)
unfolding add_name is_published_at
has-add_name [] name found v = ground arith
has-add_name (r ∷ rs) name found v = ground (
  arith,
  has-add_name rs name (add_answer (r.lookup_txt name) found) v,
  has-add_answer (r.lookup_txt name) found v,
)

snoc-HasNoRepeat :
    (found : List String) (v : String)
    → has found v ≡ false
    → HasNoRepeat found
    → HasNoRepeat (found ++ v ∷ [])
unfolding has any
snoc-HasNoRepeat [] v new h = (refl, tt)
snoc-HasNoRepeat (x ∷ found) v new h = (
  ground (arith, new, h.0, has-snoc found v x, eq_iff x v, eq_iff v x),
  snoc-HasNoRepeat found v (ground (arith, new)) h.1,
)

add_values-HasNoRepeat :
    (values found : List String) → HasNoRepeat found → HasNoRepeat (add_values values found)
unfolding add_values
add_values-HasNoRepeat [] found h = h
add_values-HasNoRepeat (v ∷ values) found h = elim (Bool-cases (has found v)) [
  | inl e ↦ rw e (add_values-HasNoRepeat values found h)
  | inr e ↦ rw e (add_values-HasNoRepeat values (found ++ v ∷ []) (snoc-HasNoRepeat found v e h))
]

add_answer-HasNoRepeat :
    (answer : Option (List String)) (found : List String)
    → HasNoRepeat found
    → HasNoRepeat (add_answer answer found)
unfolding add_answer
add_answer-HasNoRepeat none found h = h
add_answer-HasNoRepeat (some values) found h = add_values-HasNoRepeat values found h

add_name-HasNoRepeat :
    (rs : List Resolver) (name : String) (found : List String)
    → HasNoRepeat found
    → HasNoRepeat (add_name rs name found)
unfolding add_name
add_name-HasNoRepeat [] name found h = h
add_name-HasNoRepeat (r ∷ rs) name found h =
    add_name-HasNoRepeat rs name (add_answer (r.lookup_txt name) found)
      (add_answer-HasNoRepeat (r.lookup_txt name) found h)

has_nil : (v : String) → has [] v ≡ false
unfolding has any
has_nil v = refl

has-both :
    (resolvers : List Resolver) (challenge_name apex v : String)
    → has (add_name resolvers apex (add_name resolvers challenge_name [])) v
      ≡ (is_published_at resolvers challenge_name v || is_published_at resolvers apex v)
has-both resolvers challenge_name apex v = ground (
  arith,
  has_nil v,
  has-add_name resolvers apex (add_name resolvers challenge_name []) v,
  has-add_name resolvers challenge_name [] v,
)

-- Modelling internal/dnscheck/checker.go: CheckTXT passes exactly if some resolver answers with the
-- expected value at the challenge name or at the apex; Found has exactly the values that a resolver
-- answers with at either name, and none of them twice.
pub check_txt-is_published_at :
    (resolvers : List Resolver) (challenge_name apex expected : String)
    → ((check_txt resolvers challenge_name apex expected).is_ok ≡ (
        is_published_at resolvers challenge_name expected
        || is_published_at resolvers apex expected))
      × ((v : String)
          → has (check_txt resolvers challenge_name apex expected).found v
            ≡ (is_published_at resolvers challenge_name v || is_published_at resolvers apex v))
      × HasNoRepeat (check_txt resolvers challenge_name apex expected).found
unfolding check_txt
check_txt-is_published_at resolvers challenge_name apex expected = (
  has-both resolvers challenge_name apex expected,
  has-both resolvers challenge_name apex,
  add_name-HasNoRepeat resolvers apex (add_name resolvers challenge_name [])
      (add_name-HasNoRepeat resolvers challenge_name [] tt),
)
