-- ===== src/Config/Updated.antt =====
-- What the checks of a configuration mean to the update of a route.
use backend_v.Base.{Passes, err, ok, with_bind, ℕ, ◌≡◌, refl, ◌↔◌, true, some, if◌then◌else◌, false}
use backend_v.Config.Shape.{config_checks, Sources}
use backend_v.Config.Model.{RouteConfig}
use backend_v.Config.Accepted.{l4_shape_iff, IsL4Config, IsListening}
use backend_v.Write.Security.{Text, validate_write_security_mode}
use backend_v.Write.Checks.{
  is_l4, validate_update, refuse, validate_route_traffic_policies, route_project_id,
}
use backend_v.Write.Tables.{Tables, UpdateRouteInput}
use backend_v.Traffic.Checks.{Check, Std}
use backend_v.Route.Status.{Route}
use backend_v.Write.Policies.{validate_l4_policy_inputs}

refuse_iff : (k : Check) → (refuse k ≡ ok tt) ↔ Passes k
refuse_iff (ok tt) = (λ h. refl, λ h. refl)
refuse_iff (err e) = (λ h. absurd (cc h), λ h. absurd (cc h))

-- When the update of a TCP or UDP route is accepted, with the checks of the configuration as they are,
-- the submitted configuration has nothing that is for HTTP only, and the wired checker of the route's
-- stream grants the listener port, the route itself left out.
pub accepted_update :
    (std : Std) {W : Type 0} (sources : Sources std W) (text : Text)
    (tables : Tables RouteConfig std W) (id : ℕ) (r : Route RouteConfig)
    (input : UpdateRouteInput RouteConfig std) (w : W) {project : ℕ}
    → is_l4 r ≡ true
    → validate_update text tables (config_checks std sources) id r input w ≡ ok project
    → IsL4Config input.config
      × IsListening std sources input.config r.protocol r.stream_id (some id) w
unfolding validate_update is_l4
accepted_update std sources text tables id r input w l4 h =
    let checks = config_checks std sources in
    with_bind (route_project_id text tables checks r w) _ h (λ p e h.
      with_bind
        (refuse (validate_route_traffic_policies text tables checks input.config input.traffic p w))
        _ h
        (λ a e h.
          with_bind
            (refuse (validate_write_security_mode text r.security_mode input.security false)) _ h
            (λ b e h.
              with_bind
                (if is_l4 r
                  then refuse (
                      validate_l4_policy_inputs std r.protocol r.security_mode input.security
                        input.extension input.waf input.traffic)
                  else ok tt)
                _ h
                (λ c e h.
                  with_bind
                    (refuse (
                      checks.shape input.config input.traffic r.protocol r.domain_id r.stream_id
                        (some id) w))
                    _ h
                    (λ d e h.
                      let i =
                        (l4_shape_iff std sources input.config input.traffic r.protocol r.domain_id
                            r.stream_id (some id) w l4).0
                          ((refuse_iff _).0 e) in
                      (i.0.0, i.1))))))
