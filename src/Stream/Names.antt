-- ===== src/Stream/Names.antt =====
-- `ValidateStreamName` and `StreamGatewayName` of internal/services/stream_service.go. A Go string is
-- the list of its bytes. `matches` is the package regexp on `streamNameRE`; `lower_runes` is the
-- runes of `strings.ToLower`, in order, which the loop over them reads.
use backend_v.Base.{
  ◌>>◌, leb, ltb, ◌==◌, if◌then◌else◌, is_nil, length, Result, reject_if, ℕ, zero, suc, ◌-◌, Bool,
  false, not, ◌&&◌, ◌||◌, List, [], ◌∷◌, ◌++◌, map,
}

pub data NameError : Type 0 where
  name_required name_too_long name_malformed : NameError

-- An ASCII digit or lower-case letter, and the dash.
abbrev pub alnum : ℕ → Bool
alnum r = (leb 97 r && leb r 122) || (leb 48 r && leb r 57)

abbrev pub dash : ℕ
dash = 45

abbrev pub max_stream_name_len : ℕ
max_stream_name_len = 63 - 4

abbrev pub stream_gateway_prefix : List ℕ
stream_gateway_prefix = 115 ∷ 116 ∷ 114 ∷ 45 ∷ []

-- `if !…` of the source: the byte that the loop writes for a rune.
abbrev pub label : ℕ → ℕ
label r = if alnum r then r else dash

-- `strings.Contains(s, "--")`
unfoldable pub has_double : List ℕ → Bool
has_double [] = false
has_double (c ∷ []) = false
has_double (c ∷ d ∷ s) = (c == dash && d == dash) || has_double (d ∷ s)

-- `strings.ReplaceAll(s, "--", "-")`, from the left and without overlaps.
unfoldable pub replace_double : List ℕ → List ℕ
replace_double [] = []
replace_double (c ∷ []) = c ∷ []
replace_double (c ∷ d ∷ s) =
    let rest = replace_double s in
    let rest' = replace_double (d ∷ s) in if c == dash && d == dash then dash ∷ rest else c ∷ rest'

-- The loop that collapses runs of dashes.
unfoldable pub collapse : ℕ → List ℕ → List ℕ
collapse zero s = s
collapse (suc fuel) s =
    let rest = collapse fuel (replace_double s) in if has_double s then rest else s

-- `strings.TrimLeft(s, "-")`, `strings.TrimRight(s, "-")` and `strings.Trim(s, "-")`.
unfoldable pub trim_left : List ℕ → List ℕ
trim_left [] = []
trim_left (c ∷ s) = let rest = trim_left s in if c == dash then rest else c ∷ s

unfoldable pub trim_right : List ℕ → List ℕ
trim_right [] = []
trim_right (c ∷ s) = let rest = trim_right s in if c == dash && is_nil rest then [] else c ∷ rest

abbrev pub trim : List ℕ → List ℕ
trim s = trim_right (trim_left s)

-- `s[:n]`
unfoldable pub take : ℕ → List ℕ → List ℕ
take zero s = []
take (suc n) [] = []
take (suc n) (c ∷ s) = c ∷ take n s

unfoldable pub truncate : List ℕ → List ℕ
truncate s =
    if ltb max_stream_name_len (length s) then trim_right (take max_stream_name_len s) else s

module _ (matches : List ℕ → Bool) (lower_runes : List ℕ → List ℕ) where
  unfoldable pub validate_stream_name : List ℕ → Result NameError (Unit {0})
  validate_stream_name name = do
    reject_if (is_nil name) name_required
    reject_if (ltb max_stream_name_len (length name)) name_too_long
    reject_if (not (matches name)) name_malformed

  unfoldable pub stream_gateway_name : List ℕ → List ℕ
  stream_gateway_name name =
      let labels = map label (lower_runes name) in
      stream_gateway_prefix ++ truncate (trim (collapse (length labels) labels))
