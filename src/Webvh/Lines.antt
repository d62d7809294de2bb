-- ===== src/Webvh/Lines.antt =====
-- internal/webvh/log.go: validateLog from the content of the log: its lines, of which blank ones are
-- skipped, each parsed as an entry. What makes JSON of a line, or finds that it is not I-JSON, is code
-- of libraries and an argument.
use vtafarm_api.Base.{
  ℕ, suc, Bool, true, false, not, ◌&&◌, ◌||◌, List, [], ◌∷◌, Option, none, some, leb, ◌==◌,
  if◌then◌else◌,
}
use vtafarm_api.Webvh.Result.{Result, ◌>>=◌, ◌>>◌, return, guard, or_refuse, wrap, at_line}
use vtafarm_api.Webvh.Json.{Text, Json}
use vtafarm_api.Webvh.Params.{Crypto, is_empty}
use vtafarm_api.Webvh.Entry.{LogEntry, parse_log_entry}
use vtafarm_api.Webvh.Log.{scid_from_did, validate_entries}

-- What is still to come of a white space of several bytes: nothing, or its start so far.
pub data Blank : Type 0 where
  between : Blank
  after_c2 after_e1 after_e1_9a after_e2 after_e2_80 after_e2_81 after_e3 after_e3_80 : Blank

abbrev blank_byte : Blank → ℕ → Option Blank
blank_byte between c =
    if leb 9 c && leb c 13 || c == 32
    then some between
    else if c == 0xc2
    then some after_c2
    else if c == 0xe1
    then some after_e1
    else if c == 0xe2
    then some after_e2
    else if c == 0xe3
    then some after_e3
    else none
blank_byte after_c2 c = if c == 0x85 || c == 0xa0 then some between else none
blank_byte after_e1 c = if c == 0x9a then some after_e1_9a else none
blank_byte after_e1_9a c = if c == 0x80 then some between else none
blank_byte after_e2 c =
    if c == 0x80 then some after_e2_80 else if c == 0x81 then some after_e2_81 else none
blank_byte after_e2_80 c =
    if leb 0x80 c && leb c 0x8a || c == 0xa8 || c == 0xa9 || c == 0xaf then some between else none
blank_byte after_e2_81 c = if c == 0x9f then some between else none
blank_byte after_e3 c = if c == 0x80 then some after_e3_80 else none
blank_byte after_e3_80 c = if c == 0x80 then some between else none

abbrev is_between : Blank → Bool
is_between between = true
is_between after_c2 = false
is_between after_e1 = false
is_between after_e1_9a = false
is_between after_e2 = false
is_between after_e2_80 = false
is_between after_e2_81 = false
is_between after_e3 = false
is_between after_e3_80 = false

unfoldable pub is_blank_after : Blank → Text → Bool
is_blank_after b [] = is_between b
is_blank_after b (c ∷ s) = elim (blank_byte b c) [
  | none ↦ false
  | some next ↦ is_blank_after next s
]

-- strings.TrimSpace leaves nothing of the line.
unfoldable pub is_blank : Text → Bool
unfolding is_blank_after
is_blank line = is_blank_after between line

abbrev cons_first : ℕ → List Text → List Text
cons_first c [] = (c ∷ []) ∷ []
cons_first c (line ∷ lines) = (c ∷ line) ∷ lines

-- strings.Split at a line feed.
unfoldable pub split_lines : Text → List Text
split_lines [] = [] ∷ []
split_lines (c ∷ s) = let rest = split_lines s in if c == 10 then [] ∷ rest else cons_first c rest

module _ (crypto : Crypto) (parse_json : Text → Option Json) (now clock_skew : ℕ) where
  -- The loop over the lines, from a line number.
  unfoldable pub parse_lines : ℕ → List Text → Result (List LogEntry)
  unfolding is_blank parse_log_entry
  parse_lines n [] = return []
  parse_lines n (line ∷ lines) = elim (is_blank line) [
    | true ↦ parse_lines (suc n) lines
    | false ↦
        wrap (at_line (suc n)) (parse_log_entry crypto now clock_skew (parse_json line))
        >>= λ entry. parse_lines (suc n) lines >>= λ entries. return (entry ∷ entries)
  ]

  -- validateLog
  unfoldable pub validate_log : Text → Text → Result Json
  validate_log content requested_did = do
    guard (not (is_empty content)) "empty DID log"
    scid ← or_refuse (scid_from_did requested_did) "not a did:webvh DID with a SCID"
    entries ← parse_lines 0 (split_lines content)
    validate_entries crypto requested_did entries
