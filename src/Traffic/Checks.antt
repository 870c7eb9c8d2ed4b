-- ===== src/Traffic/Checks.antt =====
-- What the validators share. An error is the fixed part of its message. `Std` is what they call of
-- Go's time, net and regexp packages, and the float32 comparisons; a duration is in nanoseconds.
use backend_v.Base.{
  any, Result, err, reject_if, String, Bool, true, false, Option, none, some, List, str_eq,
}
use backend_v.Base.Int.{ltb_ℤ, ℤ, pos}

pub record Std : Type 1 where
  pub parse_duration : String → Option ℤ
  pub parse_cidr : String → Bool
  pub parse_ip : String → Bool
  pub size_pattern : String → Bool
  pub Float32 : Type 0
  pub below_zero : Float32 → Bool
  pub above_hundred : Float32 → Bool

abbrev pub Check : Type 0
Check = Result String (Unit {0})

-- A map from strings to `true`, looked up.
abbrev pub one_of : String → List String → Bool
one_of s names = any (str_eq s) names

abbrev pub is_some : {A : Type 0} → Option A → Bool
is_some none = false
is_some (some a) = true

abbrev pub negative : ℤ → Bool
negative n = ltb_ℤ n (pos 0)

-- A text must parse as a duration that passes the test.
abbrev pub duration_where : Option ℤ → (ℤ → Bool) → String → String → Check
duration_where none bad unparsed refused = err unparsed
duration_where (some d) bad unparsed refused = reject_if (bad d) refused

abbrev pub any_duration : Std → String → Check
any_duration std s = duration_where (std.parse_duration s) (λ d. false) "invalid duration" ""
