-- ===== src/Deploy/Names.antt =====
-- The names of per-client resources (internal/kubernetes/naming.go). A name is the list of its bytes.
use backend_v.Base.{
  if◌then◌else◌, ◌==◌, ℕ, zero, suc, Bool, true, false, not, ◌||◌, Option, none, some, List, [],
  ◌∷◌, ◌++◌,
}

abbrev pub Name : Type 0
Name = List ℕ

abbrev pub dash : ℕ
dash = 45

-- "-ak-", "-security", "-btp" and "-eep".
abbrev pub per_client_suffix : Name
per_client_suffix = dash ∷ 97 ∷ 107 ∷ dash ∷ []

abbrev pub security_policy_suffix : Name
security_policy_suffix = dash ∷ 115 ∷ 101 ∷ 99 ∷ 117 ∷ 114 ∷ 105 ∷ 116 ∷ 121 ∷ []

abbrev pub backend_traffic_policy_suffix : Name
backend_traffic_policy_suffix = dash ∷ 98 ∷ 116 ∷ 112 ∷ []

abbrev pub envoy_extension_policy_suffix : Name
envoy_extension_policy_suffix = dash ∷ 101 ∷ 101 ∷ 112 ∷ []

-- `s[:n]`, and the whole of a shorter string.
unfoldable pub first_bytes : ℕ → Name → Name
first_bytes zero s = []
first_bytes (suc n) [] = []
first_bytes (suc n) (c ∷ s) = c ∷ first_bytes n s

abbrev pub client_prefix_name : Name → Name
client_prefix_name client = first_bytes 8 client

abbrev pub per_client_http_route_name : Name → Name → Name
per_client_http_route_name base client = base ++ (per_client_suffix ++ client_prefix_name client)

abbrev pub security_policy_name : Name → Name
security_policy_name route = route ++ security_policy_suffix

abbrev pub backend_traffic_policy_name : Name → Name
backend_traffic_policy_name route = route ++ backend_traffic_policy_suffix

abbrev pub envoy_extension_policy_name : Name → Name
envoy_extension_policy_name route = route ++ envoy_extension_policy_suffix

-- `strings.HasPrefix` and `strings.TrimPrefix`: what follows the prefix, `none` if it is not there.
unfoldable pub strip : Name → Name → Option Name
strip [] s = some s
strip (c ∷ p) [] = none
strip (c ∷ p) (d ∷ s) = if c == d then strip p s else none

abbrev pub is_prefix : Option Name → Bool
is_prefix none = false
is_prefix (some s) = true

-- `strings.Contains(s, sub)`, by the places of `s`.
unfoldable pub contains : Name → Name → Bool
contains sub [] = is_prefix (strip sub [])
contains sub (c ∷ s) = is_prefix (strip sub (c ∷ s)) || contains sub s

-- `s[:strings.Index(s, "-")]`, and the whole of a string without a dash.
unfoldable pub until_dash : Name → Name
until_dash [] = []
until_dash (c ∷ s) = let rest = until_dash s in if c == dash then [] else c ∷ rest

unfoldable pub is_per_client_resource : Name → Bool
is_per_client_resource name = contains per_client_suffix name

abbrev pub of_remainder : Option Name → Name
of_remainder none = []
of_remainder (some s) = until_dash s

unfoldable pub extract_client_prefix : Name → Name → Name
extract_client_prefix name base =
    if not (is_per_client_resource name)
    then []
    else of_remainder (strip (base ++ per_client_suffix) name)
