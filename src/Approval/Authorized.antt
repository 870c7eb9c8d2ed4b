-- ===== src/Approval/Authorized.antt =====
-- Who may review a stage, stated apart from the code, and `authorizeStageReview` against it.
use backend_v.Base.{
  ◌>>◌, All, any, ok, ℕ, String, ◌≡◌, ◌↔◌, ◌⊎◌, true, false, some, List, ◌==◌, err, Result, refl,
  not, ◌&&◌, Option, none, [], ◌∷◌, arith, if◌then◌else◌, Bool-cases, reject_if-eq-ok, >>=-eq-ok,
  subst, inl, inr, >>=-pass, reject_if-pass, ap,
}
use backend_v.Approval.Ports.{Ports, ApprovalError, stage_not_found}
use backend_v.Base.Int.{◌<ℤ◌}
use backend_v.Approval.Model.{ApprovalStatus, ApprovalStage, Project, Approval, User, is_pending}
use backend_v.Approval.Authorize.{
  check_team, authorize_stage_review, blocks, find_stage, check_reviewer, is_privileged,
  self_approval_allowed, allows, or_err,
}

blocks-All :
    (stage : ApprovalStage) (ss : List ApprovalStage)
    → any (blocks stage) ss ≡ false
    → All (λ s. s.stage_order <ℤ stage.stage_order → s.status ≡ ApprovalStatus.approved) ss
blocks-All stage [] h = tt
blocks-All stage (s ∷ ss) h = (ground (arith, h), blocks-All stage ss (ground (arith, h)))

All-blocks :
    (stage : ApprovalStage) (ss : List ApprovalStage)
    → All (λ s. s.stage_order <ℤ stage.stage_order → s.status ≡ ApprovalStatus.approved) ss
    → any (blocks stage) ss ≡ false
All-blocks stage [] h = refl
All-blocks stage (s ∷ ss) h = ground (arith, h.0, All-blocks stage ss h.1)

module _ (ports : Ports) where
  open ports use {World, is_member, has_permission_in_project, get_project, is_admin}

  -- The right of a reviewer with no privilege: the permission, and the team if one is required.
  abbrev pub HasRight : Approval → ApprovalStage → User → World → Type 0
  HasRight a stage user w =
      (has_permission_in_project a.project_id user.id stage.required_permission w ≡ ok true)
      × ((team : ℕ) → stage.required_team_id ≡ some team → is_member team user.id w ≡ ok true)

  pub record MayReview (a : Approval) (stage_id : ℕ) (user : User) (w : World)
      (stage : ApprovalStage) : Type 0 where
    pub found : find_stage stage_id a.stages ≡ some stage
    pub is_open : stage.status ≡ ApprovalStatus.pending
    pub self_allowed :
        a.submitted_by ≡ user.id
        → (p : Project) × (get_project a.project_id w ≡ ok p) × (p.self_approval_allowed ≡ true)
    pub earlier_approved :
        All (λ s. s.stage_order <ℤ stage.stage_order → s.status ≡ ApprovalStatus.approved) a.stages
    pub right :
        (user.is_owner ≡ true)
        ⊎ ((is_admin a.project_id user.id w).0 ≡ true)
        ⊎ HasRight a stage user w

  check_team-ok :
      (o : Option ℕ) (user : ℕ) (w : World)
      → (check_team ports o user w ≡ ok tt)
        ↔ ((team : ℕ) → o ≡ some team → is_member team user w ≡ ok true)
  unfolding check_team
  check_team-ok none user w = (λ h team e. cc, λ h. refl)
  check_team-ok (some t) user w = (λ h team e. ground (arith, h, e), λ h. ground (arith, h t refl))

  check_reviewer-ok :
      (a : Approval) (stage : ApprovalStage) (user : User) (w : World)
      → (check_reviewer ports a stage user w ≡ ok tt) ↔ HasRight a stage user w
  unfolding check_reviewer
  check_reviewer-ok a stage user w = (
    λ h.
        let p : has_permission_in_project a.project_id user.id stage.required_permission w
            ≡ ok true =
          ground (arith, h) in
        (p, (check_team-ok stage.required_team_id user.id w).0 (ground (arith, h, p))),
    λ (p, t). ground (arith, p, (check_team-ok stage.required_team_id user.id w).1 t),
  )

  self_allowed_iff :
      (a : Approval) (user : User) (w : World)
      → ((a.submitted_by == user.id && not (self_approval_allowed ports a.project_id w)) ≡ false)
        ↔ (a.submitted_by ≡ user.id
            → (p : Project) × (get_project a.project_id w ≡ ok p)
              × (p.self_approval_allowed ≡ true))
  unfolding self_approval_allowed
  self_allowed_iff a user w = (
    λ h e. allowed (get_project a.project_id w) refl (ground (arith, h, e)),
    λ h. ground (arith, h),
  )
    where
      allowed :
          (o : Result ApprovalError Project)
          → get_project a.project_id w ≡ o
          → allows ports o ≡ true
          → (p : Project) × (get_project a.project_id w ≡ ok p) × (p.self_approval_allowed ≡ true)
      allowed (ok p) e h = (p, e, h)
      allowed (err x) e h = cc

  privileged_iff :
      (a : Approval) (user : User) (w : World)
      → (is_privileged ports a.project_id user w ≡ true)
        ↔ ((user.is_owner ≡ true) ⊎ ((is_admin a.project_id user.id w).0 ≡ true))
  unfolding is_privileged
  privileged_iff a user w = ground arith

  abbrev Right : Approval → ApprovalStage → User → World → Type 0
  Right a stage user w =
      (user.is_owner ≡ true)
      ⊎ ((is_admin a.project_id user.id w).0 ≡ true)
      ⊎ HasRight a stage user w

  -- The last step of the code: a privileged reviewer, or one that passes the checks.
  last_step-ok :
      (a : Approval) (st : ApprovalStage) (user : User) (w : World) (stage : ApprovalStage)
      → (if is_privileged ports a.project_id user w
          then ok st
          else (check_reviewer ports a st user w >> ok st))
        ≡ ok stage
      → (st ≡ stage) × Right a st user w
  last_step-ok a st user w stage h = elim (Bool-cases (is_privileged ports a.project_id user w)) [
    | inl p ↦ (
      ground (arith, h, p),
      elim ((privileged_iff a user w).0 p) [ inl o ↦ inl o | inr m ↦ inr (inl m) ],
    )
    | inr n ↦
        let (u, c, e) = >>=-eq-ok (check_reviewer ports a st user w) (λ _. ok st) (rw n at h) in
        (ground (arith, e), inr (inr ((check_reviewer-ok a st user w).0 c)))
  ]

  may_review :
      (a : Approval) (stage_id : ℕ) (user : User) (verb : String) (w : World)
      (stage : ApprovalStage)
      → authorize_stage_review ports a stage_id user verb w ≡ ok stage
      → MayReview a stage_id user w stage
  unfolding authorize_stage_review
  may_review a stage_id user verb w stage h =
      let (st, f, h1) = >>=-eq-ok (or_err (find_stage stage_id a.stages) stage_not_found) _ h in
      let (b1, h2) = reject_if-eq-ok (not (is_pending st.status)) _ _ h1 in
      let (b2, h3) = reject_if-eq-ok _ _ _ h2 in
      let (b3, h4) = reject_if-eq-ok (any (blocks st) a.stages) _ _ h3 in
      let (e, r) = last_step-ok a st user w stage h4 in
      subst (λ x. MayReview a stage_id user w x) e
        (record {
          found = ground (arith, f);
          is_open = ground (arith, b1);
          self_allowed = (self_allowed_iff a user w).0 b2;
          earlier_approved = blocks-All st a.stages b3;
          right = r;
        })

  last_step-Right :
      (a : Approval) (st : ApprovalStage) (user : User) (w : World)
      → Right a st user w
      → (if is_privileged ports a.project_id user w
          then ok st
          else (check_reviewer ports a st user w >> ok st))
        ≡ ok st
  last_step-Right a st user w (inl o) = rw ((privileged_iff a user w).1 (inl o))
  last_step-Right a st user w (inr (inl m)) = rw ((privileged_iff a user w).1 (inr m))
  last_step-Right a st user w (inr (inr r)) =
      rw ((check_reviewer-ok a st user w).1 r) (ground arith)

  review_authorized :
      (a : Approval) (stage_id : ℕ) (user : User) (verb : String) (w : World)
      (stage : ApprovalStage)
      → MayReview a stage_id user w stage
      → authorize_stage_review ports a stage_id user verb w ≡ ok stage
  unfolding authorize_stage_review
  review_authorized a stage_id user verb w stage m =
      >>=-pass (or_err (find_stage stage_id a.stages) stage_not_found) _ stage
        (ap (λ o. or_err o stage_not_found) m.found)
        (reject_if-pass (not (is_pending stage.status)) _ _ (ap (λ s. not (is_pending s)) m.is_open)
          (reject_if-pass _ _ _ ((self_allowed_iff a user w).1 m.self_allowed) (
            reject_if-pass (any (blocks stage) a.stages) _ _
              (All-blocks stage a.stages m.earlier_approved)
              (last_step-Right a stage user w m.right))))

  -- A review is authorised exactly when the stage is pending, the reviewer is not the submitter or
  -- the project allows it, every stage of a lower order is approved, and the reviewer is an owner, an
  -- admin of the project, or has the stage's permission and is in its team.
  pub authorize_stage_review-ok_iff :
      (a : Approval) (stage_id : ℕ) (user : User) (verb : String) (w : World)
      (stage : ApprovalStage)
      → (authorize_stage_review ports a stage_id user verb w ≡ ok stage)
        ↔ MayReview a stage_id user w stage
  authorize_stage_review-ok_iff a stage_id user verb w stage =
      (may_review a stage_id user verb w stage, review_authorized a stage_id user verb w stage)
