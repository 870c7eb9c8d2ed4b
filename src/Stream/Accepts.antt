-- ===== src/Stream/Accepts.antt =====
-- What an acceptable set of claims is, stated apart from the code, and the checks against it.
use backend_v.Base.{
  some_inj, if◌then◌else◌, guard_as, if_set_iff, guard_iff, if_eq_iff, Passes, chain_iff,
  neither_iff, any, All, Result, ok, ok_inj, ◌≡◌, refl, sym, ap, subst, ◌≢◌, ◌↔◌, Bool, true, false,
  not, ◌||◌, Option, none, some, List, [], ◌∷◌, arith, eq_iff,
}
use backend_v.Base.Int.{outside, eq_ℤ_iff, ℤ, ◌≤ℤ◌, eq_ℤ, pos}
use backend_v.Stream.Claims.{
  in_range, loaded, port_out_of_range, merged_reserved, PortCheck, validate_listener_port,
  check_shape, PortError, invalid_stream_port, ReservedPorts, check_port_in_range, check_shared,
}
use backend_v.Stream.Model.{DomainTemplate, StreamPort, has, stream_range, same_port}
use backend_v.Stream.Order.{IsShape}

or_false :
    {Q R : Type 0} (b c : Bool)
    → (b ≡ true) ↔ Q
    → (c ≡ false) ↔ R
    → ((b || c) ≡ false) ↔ ((Q → ⊥) × R)
or_false true c q r = (λ h. absurd (cc h), λ h. absurd (h.0 (q.0 refl)))
or_false false c q r = (λ h. (λ a. absurd (cc (q.1 a)), r.0 h), λ h. r.1 h.1)

any_none_iff :
    {A : Type 0} (P : A → Type 0) (p : A → Bool) (xs : List A)
    → ((a : A) → (p a ≡ true) ↔ P a)
    → (any p xs ≡ false) ↔ All (λ a. P a → ⊥) xs
any_none_iff P p [] i = (λ h. tt, λ h. refl)
any_none_iff P p (x ∷ xs) i = or_false (p x) (any p xs) (i x) (any_none_iff P p xs i)

same_port_iff : (c d : StreamPort) → (same_port c d ≡ true) ↔ (c ≡ d)
same_port_iff c d = (
  λ h.
      both ((eq_iff c.transport d.transport).0 (ground (arith, h)))
        ((eq_ℤ_iff c.port d.port).0 (ground (arith, h))),
  λ h. ground (
    arith,
    (eq_iff c.transport d.transport).1 (ap (λ x. x.transport) h),
    (eq_ℤ_iff c.port d.port).1 (ap (λ x. x.port) h),
  ),
)
  where
    both : c.transport ≡ d.transport → c.port ≡ d.port → c ≡ d
    both e f = λ i. record { transport = e i; port = f i }

-- Nobody in the list holds the port.
abbrev pub IsFree : List StreamPort → StreamPort → Type 0
IsFree held c = All (λ d. d ≢ c) held

pub has-false : (held : List StreamPort) (c : StreamPort) → (has held c ≡ false) ↔ IsFree held c
unfolding has
has-false [] c = (λ h. tt, λ h. refl)
has-false (d ∷ ds) c = or_false (same_port d c) (has ds c) (same_port_iff d c) (has-false ds c)

outside_iff : (lo hi n : ℤ) → (outside lo hi n ≡ false) ↔ ((lo ≤ℤ n) × (n ≤ℤ hi))
outside_iff lo hi n = (λ h. ground (arith, h), λ h. ground (arith, h))

abbrev pub IsListenerPort : ReservedPorts → ℤ → Type 0
IsListenerPort reserved n =
    ((pos 1 ≤ℤ n) × (n ≤ℤ pos 65535))
    × (All (λ p. n ≢ p) reserved.envoy_internal × All (λ p. n ≢ p) reserved.domain_defaults)

pub validate_listener_port_iff :
    (n : ℤ) (reserved : ReservedPorts)
    → Passes (validate_listener_port n reserved) ↔ IsListenerPort reserved n
unfolding validate_listener_port
validate_listener_port_iff n reserved =
    chain_iff _ _ (guard_as _ _ (outside_iff (pos 1) (pos 65535) n)) (
      chain_iff _ _ (guard_as _ _ (any_none_iff _ (eq_ℤ n) reserved.envoy_internal (eq_ℤ_iff n)))
        (guard_as _ _ (any_none_iff _ (eq_ℤ n) reserved.domain_defaults (eq_ℤ_iff n))))

abbrev pub IsInRange : DomainTemplate → ℤ → Type 0
IsInRange tmpl n = (r : ℤ × ℤ) × (stream_range tmpl.listeners ≡ some r) × ((r.0 ≤ℤ n) × (n ≤ℤ r.1))

pub check_port_in_range_iff :
    (n : ℤ) (tmpl : DomainTemplate) → Passes (check_port_in_range n tmpl) ↔ IsInRange tmpl n
unfolding check_port_in_range
check_port_in_range_iff n tmpl = split (stream_range tmpl.listeners)
  where
    split :
        (o : Option (ℤ × ℤ))
        → Passes (in_range o n) ↔ ((r : ℤ × ℤ) × (o ≡ some r) × ((r.0 ≤ℤ n) × (n ≤ℤ r.1)))
    split none = (λ h. absurd (cc h), λ (r, e, p). absurd (cc e))
    split (some q) =
        let g = guard_as (outside q.0 q.1 n) port_out_of_range (outside_iff q.0 q.1 n) in
        (
          λ h. (q, refl, g.0 h),
          λ (r, e, p). g.1 (subst (λ r. (r.0 ≤ℤ n) × (n ≤ℤ r.1)) (sym (some_inj e)) p),
        )

pub check_shape_iff :
    (prev : Option StreamPort) (cs : List StreamPort)
    → Passes (check_shape prev cs) ↔ IsShape prev cs
unfolding check_shape
check_shape_iff prev [] = (λ h. tt, λ h. refl)
check_shape_iff prev (c ∷ cs) = chain_iff _ _ (guard_as _ _ (neither_iff c.transport "TCP" "UDP")) (
    chain_iff _ _
      (if_set_iff (λ p. same_port p c ≡ false) prev _
        (λ p. guard_iff (same_port p c) invalid_stream_port))
      (check_shape_iff (some c) cs))

-- Nobody on a shared Gateway holds the port, nor is it one of the template's.
abbrev pub IsShared : DomainTemplate → List StreamPort → List StreamPort → StreamPort → Type 0
IsShared tmpl claimed domain_used c =
    IsFree claimed c
    × (IsFree domain_used c × (c.transport ≡ "TCP" → IsListenerPort (merged_reserved tmpl) c.port))

pub check_shared_iff :
    (tmpl : DomainTemplate) (claimed domain_used : List StreamPort) (c : StreamPort)
    → Passes (check_shared tmpl claimed domain_used c) ↔ IsShared tmpl claimed domain_used c
unfolding check_shared
check_shared_iff tmpl claimed domain_used c = chain_iff _ _ (guard_as _ _ (has-false claimed c)) (
    chain_iff _ _ (guard_as _ _ (has-false domain_used c))
      (if_eq_iff c.transport "TCP" _ (validate_listener_port_iff c.port (merged_reserved tmpl))))

pub loaded_iff :
    {A : Type 0} (e : PortError) (o : Option A) (a : A) → (loaded e o ≡ ok a) ↔ (o ≡ some a)
loaded_iff e none a = (λ h. absurd (cc h), λ h. absurd (cc h))
loaded_iff e (some b) a = (λ h. ap some (ok_inj h), λ h. ap ok (some_inj h))

pub unless_if_iff :
    {P : Type 0} (b : Bool) (c : PortCheck)
    → Passes c ↔ P
    → Passes (if not b then ok tt else c) ↔ (b ≡ true → P)
unless_if_iff true c p = (λ h e. p.0 h, λ h. p.1 (h refl))
unless_if_iff false c p = (λ h e. absurd (cc e), λ h. refl)

pub value_iff : {A : Type 0} (a b : A) → (◌≡◌ {A = Result PortError A} (ok a) (ok b)) ↔ (a ≡ b)
value_iff a b = (λ h. ok_inj h, λ h. ap ok h)
