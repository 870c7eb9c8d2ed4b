-- ===== src/Approval/Planned.antt =====
-- What a plan of stages guarantees.
use backend_v.Base.{
  All, with_bind, ok_inj, ok, ℕ, zero, suc, String, ◌≡◌, refl, ap, subst, ◌≢◌, Option, none, some,
  List, [], ◌∷◌, map, arith,
}
use backend_v.Base.Int.{◌≤ℤ◌, negsuc, ℤ, pos}
use backend_v.Approval.Ports.{Ports}
use backend_v.Approval.Planning.{
  find_policy, resolve_team_scope, build_stages, plan_stages, policy_templates, or_fallback,
  no_policy_fallback,
}
use backend_v.Approval.Model.{
  ApprovalPolicy, certificate, ApprovalEntityType, ApprovalAction, route, effective_min_approvers,
  PolicyStageTemplate, ApprovalStage, client_attachment, ApprovalStatus,
}

abbrev pub IsPlanned : ApprovalStage → Type 0
IsPlanned s = (s.status ≡ ApprovalStatus.pending) × (pos 1 ≤ℤ s.min_approvers)

effective-positive : (n : ℤ) → pos 1 ≤ℤ effective_min_approvers n
unfolding effective_min_approvers
effective-positive (pos zero) = ground arith
effective-positive (pos (suc n)) = ground arith
effective-positive (negsuc n) = ground arith

-- The part of a stage that its template fixes, read from either.
abbrev pub gate : ApprovalStage → ℤ × String × ℤ
gate s = (s.stage_order, s.required_permission, s.min_approvers)

abbrev pub template_gate : PolicyStageTemplate → ℤ × String × ℤ
template_gate t = (t.order, t.required_permission, effective_min_approvers t.min_approvers)

fallback-IsPlanned :
    (entity : ApprovalEntityType) (p : Option ApprovalPolicy) (stages : List ApprovalStage)
    → no_policy_fallback entity p ≡ ok stages
    → (stages ≢ []) × All IsPlanned stages
unfolding no_policy_fallback
fallback-IsPlanned client_attachment none stages h = absurd (cc h)
fallback-IsPlanned client_attachment (some p) stages h = absurd (cc h)
fallback-IsPlanned certificate p stages h =
    subst (λ ss. (ss ≢ []) × All IsPlanned ss) (ok_inj h)
      ((λ e. absurd (cc e)), ((refl, ground arith), tt))
fallback-IsPlanned route p stages h =
    subst (λ ss. (ss ≢ []) × All IsPlanned ss) (ok_inj h)
      ((λ e. absurd (cc e)), ((refl, ground arith), tt))

module _ (ports : Ports) where
  open ports use {World, unmarshal_stages}

  build_stages-IsPlanned :
      (ts : List PolicyStageTemplate) (project user : ℕ) (w : World) (stages : List ApprovalStage)
      → build_stages ports ts project user w ≡ ok stages
      → All IsPlanned stages × (map gate stages ≡ map template_gate ts)
  unfolding build_stages
  build_stages-IsPlanned [] project user w stages h =
      subst (λ ss. All IsPlanned ss × (map gate ss ≡ [])) (ok_inj h) (tt, refl)
  build_stages-IsPlanned (t ∷ ts) project user w stages h =
      with_bind (resolve_team_scope ports t.team_scope project user w) _ h (λ team e h1.
        with_bind (build_stages ports ts project user w) _ h1 (λ rest f h2.
          let later = build_stages-IsPlanned ts project user w rest f in
          subst (λ ss. All IsPlanned ss × (map gate ss ≡ map template_gate (t ∷ ts))) (ok_inj h2)
            (
              ((refl, effective-positive t.min_approvers), later.0),
              ap (λ gs. template_gate t ∷ gs) later.1,
            )))

  or_fallback-IsPlanned :
      (entity : ApprovalEntityType) (p : Option ApprovalPolicy) (built stages : List ApprovalStage)
      → All IsPlanned built
      → or_fallback ports entity p built ≡ ok stages
      → (stages ≢ []) × All IsPlanned stages
  unfolding or_fallback
  or_fallback-IsPlanned entity p [] stages a h = fallback-IsPlanned entity p stages h
  or_fallback-IsPlanned entity p (s ∷ ss) stages a h =
      subst (λ qs. (qs ≢ []) × All IsPlanned qs) (ok_inj h) ((λ e. absurd (cc e)), a)

  -- A submission that is planned has at least one stage, and every stage is pending and asks for at
  -- least one approver.
  pub plan_stages-IsPlanned :
      (project user : ℕ) (entity : ApprovalEntityType) (action : ApprovalAction) (w : World)
      → (stages : List ApprovalStage) → plan_stages ports project user entity action w ≡ ok stages
      → (stages ≢ []) × All IsPlanned stages
  unfolding plan_stages
  plan_stages-IsPlanned project user entity action w stages h =
      with_bind (find_policy ports project entity action w) _ h (λ p e h1.
        with_bind (policy_templates ports p) _ h1 (λ ts f h2.
          with_bind (build_stages ports ts project user w) _ h2 (λ built g h3.
            or_fallback-IsPlanned entity p built stages
              (build_stages-IsPlanned ts project user w built g).0 h3)))

  or_fallback-gate :
      (entity : ApprovalEntityType) (p : ApprovalPolicy) (t : PolicyStageTemplate)
      (ts : List PolicyStageTemplate) (built stages : List ApprovalStage)
      → map gate built ≡ map template_gate (t ∷ ts)
      → or_fallback ports entity (some p) built ≡ ok stages
      → map gate stages ≡ map template_gate (t ∷ ts)
  unfolding or_fallback
  or_fallback-gate entity p t ts [] stages g h = absurd (cc g)
  or_fallback-gate entity p t ts (s ∷ ss) stages g h =
      subst (λ qs. map gate qs ≡ map template_gate (t ∷ ts)) (ok_inj h) g

  -- Where the lookup finds a policy that has stages, a plan has that policy's stages, in their
  -- order, each with its order, its permission and its number of approvers: never the default gate.
  pub plan_stages-gate :
      (project user : ℕ) (entity : ApprovalEntityType) (action : ApprovalAction) (w : World)
      → (p : ApprovalPolicy) (t : PolicyStageTemplate) (ts : List PolicyStageTemplate)
      → (stages : List ApprovalStage) → find_policy ports project entity action w ≡ ok (some p)
      → unmarshal_stages p.stages ≡ some (t ∷ ts)
      → plan_stages ports project user entity action w ≡ ok stages
      → map gate stages ≡ map template_gate (t ∷ ts)
  unfolding plan_stages policy_templates
  plan_stages-gate project user entity action w p t ts stages found parsed h =
      with_bind (build_stages ports (t ∷ ts) project user w) _ (rw parsed at (rw found at h))
        (λ built g h3.
          or_fallback-gate entity p t ts built stages
            (build_stages-IsPlanned (t ∷ ts) project user w built g).1 h3)
