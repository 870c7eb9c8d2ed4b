-- ===== src/Config/Warnings.antt =====
-- What a write warns of (internal/services/route_validation.go). A warning is the start of its text.
use backend_v.Base.{
  String, Bool, false, ◌&&◌, if◌then◌else◌, any, ◌==◌, Option, none, some, List, [], ◌∷◌, str_eq,
}
use backend_v.Config.Model.{RouteConfig, RouteBackend, DirectResponseBody, DirectResponseConfig}

abbrev pub skips_verification : RouteBackend → Bool
skips_verification b = elim b.tls [ none ↦ false | some t ↦ t.insecure_skip_verify ]

-- `BackendTLSWarnings`: one warning is enough.
unfoldable pub backend_tls_warnings : RouteConfig → List String
backend_tls_warnings c =
    if any skips_verification c.backends
    then "insecureSkipVerify skips backend certificate verification" ∷ []
    else []

abbrev pub has_percent : DirectResponseBody → Bool
has_percent b = str_eq b.type "Inline" && any (λ c. c == 37) b.inline

abbrev pub percent_in : Option DirectResponseConfig → Bool
percent_in none = false
percent_in (some d) = elim d.body [ none ↦ false | some b ↦ has_percent b ]

-- `DirectResponsePercentWarnings`, by the byte of '%'.
unfoldable pub direct_response_percent_warnings : Option RouteConfig → List String
direct_response_percent_warnings none = []
direct_response_percent_warnings (some c) =
    if percent_in c.direct_response then "DirectResponse inline body contains '%'" ∷ [] else []
