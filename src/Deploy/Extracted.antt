-- ===== src/Deploy/Extracted.antt =====
-- That a per-client resource's client is read back from its name.
use backend_v.Base.{
  ◌==◌, ==_refl, if◌then◌else◌, all, ℕ, Bool, true, false, not, ◌||◌, ◌&&◌, some, [], ◌∷◌, ◌++◌,
  append_assoc, ◌≡◌, refl, ap, ◌∙◌, subst,
}
use backend_v.Deploy.Names.{
  Name, dash, per_client_suffix, strip, is_prefix, contains, until_dash, is_per_client_resource,
  extract_client_prefix, client_prefix_name, per_client_http_route_name, security_policy_name,
  backend_traffic_policy_name, of_remainder,
}

strip-append : (p s : Name) → strip p (p ++ s) ≡ some s
unfolding strip
strip-append [] s = refl
strip-append (c ∷ p) s = rw (==_refl c) (strip-append p s)

contains-here : (sub s : Name) → is_prefix (strip sub s) ≡ true → contains sub s ≡ true
unfolding contains
contains-here sub [] h = h
contains-here sub (c ∷ s) h = rw h refl

contains-append : (sub a b : Name) → contains sub (a ++ (sub ++ b)) ≡ true
unfolding contains
contains-append sub [] b = contains-here sub (sub ++ b) (rw (strip-append sub b) refl)
contains-append sub (c ∷ a) b =
    later (is_prefix (strip sub (c ∷ (a ++ (sub ++ b))))) (contains sub (a ++ (sub ++ b)))
      (contains-append sub a b)
  where
    later : (b c : Bool) → c ≡ true → (b || c) ≡ true
    later true c h = refl
    later false c h = h

-- Without a dash.
abbrev pub IsPlain : Name → Type 0
IsPlain p = all (λ c. not (c == dash)) p ≡ true

plain_step :
    (c : ℕ) (p rest : Name)
    → IsPlain (c ∷ p)
    → (IsPlain p → rest ≡ p)
    → (if c == dash then [] else c ∷ rest) ≡ c ∷ p
plain_step c p rest h later = split (c == dash) h
  where
    split :
        (b : Bool)
        → (not b && all (λ c. not (c == dash)) p) ≡ true
        → (if b then [] else c ∷ rest) ≡ c ∷ p
    split true h = absurd (cc h)
    split false h = ap (λ s. c ∷ s) (later h)

until_dash-plain : (p : Name) → IsPlain p → until_dash p ≡ p
unfolding until_dash
until_dash-plain [] h = refl
until_dash-plain (c ∷ p) h = plain_step c p (until_dash p) h (until_dash-plain p)

until_dash-append : (p t : Name) → IsPlain p → until_dash (p ++ (dash ∷ t)) ≡ p
unfolding until_dash
until_dash-append [] t h = refl
until_dash-append (c ∷ p) t h =
    plain_step c p (until_dash (p ++ (dash ∷ t))) h (until_dash-append p t)

-- What is read from a name with the route's prefix and the suffix of the client routes.
extract-remainder :
    (base rest : Name)
    → extract_client_prefix (base ++ (per_client_suffix ++ rest)) base ≡ until_dash rest
unfolding extract_client_prefix is_per_client_resource
extract-remainder base rest = rw (contains-append per_client_suffix base rest) (
    ap of_remainder (
      subst (λ name. strip (base ++ per_client_suffix) name ≡ some rest)
        (append_assoc base per_client_suffix rest) (strip-append (base ++ per_client_suffix) rest)))

extract-suffixed :
    (base p t : Name)
    → IsPlain p
    → extract_client_prefix ((base ++ (per_client_suffix ++ p)) ++ (dash ∷ t)) base ≡ p
extract-suffixed base p t h =
    ap (λ name. extract_client_prefix name base)
      (append_assoc base (per_client_suffix ++ p) (dash ∷ t)
        ∙ ap (λ s. base ++ s) (append_assoc per_client_suffix p (dash ∷ t)))
    ∙ extract-remainder base (p ++ (dash ∷ t))
    ∙ until_dash-append p t h

-- From the names of a client's route, of its security policy and of its traffic policy the prefix of
-- the client is read back, if the prefix has no dash.
pub extract-per_client_name :
    (base client : Name)
    → IsPlain (client_prefix_name client)
    → let route = per_client_http_route_name base client in
      (extract_client_prefix route base ≡ client_prefix_name client)
      × ((extract_client_prefix (security_policy_name route) base ≡ client_prefix_name client)
          × (extract_client_prefix (backend_traffic_policy_name route) base
              ≡ client_prefix_name client))
extract-per_client_name base client h = (
  extract-remainder base (client_prefix_name client)
      ∙ until_dash-plain (client_prefix_name client) h,
  (
    extract-suffixed base (client_prefix_name client) _ h,
    extract-suffixed base (client_prefix_name client) _ h,
  ),
)
