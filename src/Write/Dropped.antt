-- ===== src/Write/Dropped.antt =====
-- What a change of a route comes to when a project's approvals are disabled.
use backend_v.Base.Exec.{continue, continue-same, pure, unless-same, Exec}
use backend_v.Approval.Traversal.{Spec}
use backend_v.Write.Tables.{
  UpdateRouteInput, RouteService, WriteError, wrapped, Snapshot, approval_failure, route_failure,
  wrap, pending_exists,
}
use backend_v.Write.Submit.{
  gate, finish_update, update, submit_approval, submit_update, transition, begin_update, current,
}
use backend_v.Write.Checks.{apply_fields, validate_update}
use backend_v.Route.Status.{RouteStatus, Route, route_update_fast_path}
use backend_v.Base.{ℕ, ◌≡◌, refl, Bool, true, false, err, Result, ok, ap, subst, none}
use backend_v.Approval.Ports.{ApprovalError}
use backend_v.Approval.Model.{Project}
use backend_v.Traffic.Checks.{is_some}

module _ (service : RouteService) where
  open service use {Config, std, text, ports, tables, checks, key_matches, value_matches, marshal}
  open ports use {World, get_project}
  open tables use {get_route, waf, get_pending}

  apply_fields-same :
      (i j : UpdateRouteInput Config std) (r : Route Config)
      → i.description ≡ j.description
      → i.labels ≡ j.labels
      → apply_fields key_matches value_matches i r ≡ apply_fields key_matches value_matches j r
  unfolding apply_fields
  apply_fields-same i j r d l = rw (d, l) refl

  found-same :
      {E A B : Type 0} (wrap : E → WriteError) (m : Result E A) (w : World)
      → (f g : A → Exec WriteError World B) → ((a : A) → m ≡ ok a → f a w ≡ g a w)
      → continue (wrapped wrap (m, w)) f ≡ continue (wrapped wrap (m, w)) g
  found-same wrap (ok a) w f g h = h a refl
  found-same wrap (err e) w f g h = refl

  -- The gate of a project without approvals reads nothing of the request.
  fast_gate :
      (b : Bool)
      → b ≡ false
      → (i j : UpdateRouteInput Config std) (project : ℕ) (r : Route Config) (s t : Spec)
        (w : World)
      → continue
          (gate service b route_update_fast_path RouteStatus.pending_deploy r s w)
          (finish_update service project i)
        ≡ continue
            (gate service b route_update_fast_path RouteStatus.pending_deploy r t w)
            (finish_update service project j)
  fast_gate false e i j project r s t w =
      after (transition service route_update_fast_path r RouteStatus.pending_deploy w)
    where
      after :
          (o : Result WriteError (Route Config) × World)
          → continue (continue o (λ r'. pure (none, r'))) (finish_update service project i)
            ≡ continue (continue o (λ r'. pure (none, r'))) (finish_update service project j)
      after (ok r', w') = refl
      after (err f, w') = refl
  fast_gate true e i j project r s t w = absurd (cc e)

  fast_submit :
      (i j : UpdateRouteInput Config std) (project : ℕ) (r : Route Config) (s t : Spec) (w : World)
      → s.project_id ≡ t.project_id
      → ((p : Project) → get_project s.project_id w ≡ ok p → p.approval_enabled ≡ false)
      → continue
          (submit_approval service route_update_fast_path RouteStatus.pending_deploy r s w)
          (finish_update service project i)
        ≡ continue
            (submit_approval service route_update_fast_path RouteStatus.pending_deploy r t w)
            (finish_update service project j)
  unfolding submit_approval
  fast_submit i j project r s t w e disabled =
      subst
        (λ found.
          continue
            (continue (wrapped approval_failure (get_project s.project_id w, w)) (λ p.
              gate service p.approval_enabled route_update_fast_path RouteStatus.pending_deploy r
                s))
            (finish_update service project i)
          ≡ continue
              (continue (wrapped approval_failure (found, w)) (λ p.
                gate service p.approval_enabled route_update_fast_path RouteStatus.pending_deploy r
                  t))
              (finish_update service project j))
        (ap (λ n. get_project n w) e) (after (get_project s.project_id w) disabled)
    where
      after :
          (found : Result ApprovalError Project)
          → ((p : Project) → found ≡ ok p → p.approval_enabled ≡ false)
          → continue
              (continue (wrapped approval_failure (found, w)) (λ p.
                gate service p.approval_enabled route_update_fast_path RouteStatus.pending_deploy r
                  s))
              (finish_update service project i)
            ≡ continue
                (continue (wrapped approval_failure (found, w)) (λ p.
                  gate service p.approval_enabled route_update_fast_path RouteStatus.pending_deploy
                    r t))
                (finish_update service project j)
      after (ok p) h = fast_gate p.approval_enabled (h p refl) i j project r s t w
      after (err f) h = refl

  fast_rest :
      (i j : UpdateRouteInput Config std) (project user : ℕ) (old : Snapshot Config std)
      → (r : Route Config) (w : World)
      → ((w' : World) (p : Project) → get_project project w' ≡ ok p → p.approval_enabled ≡ false)
      → submit_update service project i user old r w ≡ submit_update service project j user old r w
  unfolding submit_update
  fast_rest i j project user old r w disabled =
      continue-same (begin_update service r w) _ _ (λ r' e.
        fast_submit i j project r' _ _ (begin_update service r w).1 refl
          (disabled (begin_update service r w).1))

  -- A change of a route of a project whose approvals are disabled ignores the submitted
  -- configuration and policies: two accepted requests with the same description and labels return
  -- the same and leave the same database.
  pub fast_update-ignores :
      (id user project : ℕ) (i j : UpdateRouteInput Config std) (w : World)
      → i.description ≡ j.description
      → i.labels ≡ j.labels
      → ((r : Route Config)
          → get_route id w ≡ ok r
          → (validate_update text tables checks id r i w ≡ ok project)
            × (validate_update text tables checks id r j w ≡ ok project))
      → ((w' : World) (p : Project) → get_project project w' ≡ ok p → p.approval_enabled ≡ false)
      → update service id i user w ≡ update service id j user w
  unfolding update
  fast_update-ignores id user project i j w d l accepted disabled =
      found-same route_failure (get_route id w) w _ _ (λ r e.
        rw ((accepted r e).0, (accepted r e).1)
          (unless-same (is_some (get_pending id w)) pending_exists w _ _ (
            rw (apply_fields-same i j r d l) (
              continue-same (apply_fields key_matches value_matches j r, w) _ _
                (λ r' e'. fast_rest i j project user (current service r w) r' w disabled)))))
