-- ===== src/Tags/Semver.antt =====
-- internal/ghcr/client.go: parseSemver and sortSemverDesc. Texts are lists of bytes. The tags of a
-- package are all different, so that the order by which they are sorted is strict and total.
use vtafarm_api.Base.{
  ℕ, zero, suc, ◌+◌, ◌-◌, ◌*◌, Bool, true, false, ◌||◌, List, [], ◌∷◌, Option, none, some, ltb,
  ◌==◌, if◌then◌else◌,
}
use vtafarm_api.Keys.DidKey.{cut_prefix}
use vtafarm_api.Tags.Sorting.{sort_stable}

abbrev pub Text : Type 0
Text = List ℕ

abbrev pub max_int : ℕ
max_int = 9_223_372_036_854_775_807

-- The digits of strconv.Atoi, its error dropped: 0 where a byte is no digit, the greatest value after
-- an overflow.
unfoldable pub atoi_digits : ℕ → Text → ℕ
atoi_digits n [] = if ltb max_int n then max_int else n
atoi_digits n (c ∷ s) = elim (ltb c b'0' || ltb b'9' c) [
  | true ↦ 0
  | false ↦ elim (ltb 18_446_744_073_709_551_615 (n * 10 + (c - b'0'))) [
    | true ↦ max_int
    | false ↦ atoi_digits (n * 10 + (c - b'0')) s
  ]
]

-- strconv.Atoi of a text without `-`.
unfoldable pub atoi : Text → ℕ
unfolding atoi_digits
atoi [] = 0
atoi (c ∷ []) = atoi_digits 0 (c ∷ [])
atoi (c ∷ d ∷ s) = if c == b'+' then atoi_digits 0 (d ∷ s) else atoi_digits 0 (c ∷ d ∷ s)

-- The text before a byte, or all of it: the first part of strings.Cut.
unfoldable pub before : ℕ → Text → Text
before sep [] = []
before sep (c ∷ s) = let rest = before sep s in if c == sep then [] else c ∷ rest

-- The text behind a byte, where it is there.
unfoldable pub behind : ℕ → Text → Option Text
behind sep [] = none
behind sep (c ∷ s) = let rest = behind sep s in if c == sep then some s else rest

-- The numbers of strings.SplitN with three parts: a part that is not there is 0, and the last one
-- has what is left.
unfoldable pub numbers : ℕ → Option Text → List ℕ
unfolding atoi before behind
numbers zero rest = []
numbers (suc n) none = 0 ∷ numbers n none
numbers (suc zero) (some s) = atoi s ∷ []
numbers (suc (suc n)) (some s) = atoi (before b'.' s) ∷ numbers (suc n) (behind b'.' s)

abbrev trim_v : Text → Text
trim_v s = elim (cut_prefix (b'v' ∷ []) s) [ none ↦ s | some t ↦ t ]

-- parseSemver
unfoldable pub parse_semver : Text → List ℕ
unfolding numbers before cut_prefix
parse_semver s = numbers 3 (some (before b'-' (trim_v s)))

-- The order of texts.
unfoldable pub text_less : Text → Text → Bool
text_less s [] = false
text_less [] (d ∷ t) = true
text_less (c ∷ s) (d ∷ t) = let rest = text_less s t in if c == d then rest else ltb c d

-- The first number that differs decides, and the texts where none does.
unfoldable pub is_newer : List ℕ → List ℕ → Bool → Bool
is_newer [] bs tie = tie
is_newer (a ∷ as_) [] tie = tie
is_newer (a ∷ as_) (b ∷ bs) tie = let rest = is_newer as_ bs tie in if a == b then rest else ltb b a

abbrev pub semver_before : Text → Text → Bool
semver_before s t = is_newer (parse_semver s) (parse_semver t) (text_less t s)

-- sortSemverDesc
unfoldable pub sort_semver_desc : List Text → List Text
unfolding parse_semver text_less is_newer sort_stable
sort_semver_desc = sort_stable semver_before
