-- ===== src/Approval/Gate/Opened.antt =====
-- What the guards of a review have established once they pass.
use backend_v.Base.{
  ok, ℕ, String, ◌≡◌, ◌≢◌, false, not, some, List, with_guard, ok_inj, with_bind, subst, arith,
  str_eq, eq_iff, Option, none,
}
use backend_v.Approval.Authorize.{or_err, authorize_stage_review}
use backend_v.Approval.Model.{
  Approval, ApprovalStage, ApprovalStatus, ApprovalStageReview, is_pending, User,
}
use backend_v.Approval.Ports.{
  Ports, Completer, no_completer, comment_required, not_pending, already_reviewed, not_cancellable,
  no_cancel_right, ApprovalError,
}
use backend_v.Approval.Authorized.{MayReview, authorize_stage_review-ok_iff}
use backend_v.Approval.Guards.{
  Opened, open_approve, has_reviewed, open_reject, open_cancel, may_cancel, cancellable,
}

or_err-ok : {A : Type 0} (o : Option A) (e : ApprovalError) {a : A} → or_err o e ≡ ok a → o ≡ some a
or_err-ok none e h = cc
or_err-ok (some b) e h = cc

module _ (ports : Ports) where
  open ports use {World, get_by_id, list_by_stage_id, completers}

  -- What an opened review has established of the database that it read.
  pub record Ready (approval_id stage_id : ℕ) (user : User) (w : World) (a : Approval)
      (c : Completer World) (stage : ApprovalStage) : Type 0 where
    pub got : get_by_id approval_id w ≡ ok a
    pub is_open : a.status ≡ ApprovalStatus.pending
    pub completer : completers a.entity_type ≡ some c
    pub may : MayReview ports a stage_id user w stage

  opened :
      {approval_id stage_id : ℕ} {user : User} {w : World} (a : Approval) (c : Completer World)
      (st : ApprovalStage) (verb : String)
      → get_by_id approval_id w ≡ ok a
      → not (is_pending a.status) ≡ false
      → or_err (completers a.entity_type) no_completer ≡ ok c
      → authorize_stage_review ports a stage_id user verb w ≡ ok st
      → Ready approval_id stage_id user w a c st
  opened {stage_id = sid} {user = u} {w = w} a c st verb e1 p e3 e4 = record {
    got = e1;
    is_open = ground (arith, p);
    completer = ground (arith, e3);
    may = (authorize_stage_review-ok_iff ports a sid u verb w st).0 e4;
  }

  pub open_approve-Ready :
      (approval_id stage_id : ℕ) (user : User) (w : World) (o : Opened ports)
      → open_approve ports approval_id stage_id user w ≡ ok o
      → Ready approval_id stage_id user w o.0 o.1 o.2
        × ((rs : List ApprovalStageReview) × (list_by_stage_id o.2.id w ≡ ok rs)
            × (has_reviewed user.id rs ≡ false))
  unfolding open_approve
  open_approve-Ready approval_id stage_id user w o h =
      with_bind (get_by_id approval_id w) _ h λ a e1 h1. with_guard _ not_pending _ h1 λ p h2.
        with_bind (or_err (completers a.entity_type) no_completer) _ h2 λ c e3 h3.
          with_bind (authorize_stage_review ports a stage_id user "approve" w) _ h3 λ st e4 h4.
            with_bind (list_by_stage_id st.id w) _ h4 λ rs e5 h5.
              with_guard (has_reviewed user.id rs) already_reviewed _ h5
                λ f h6. finish a c st rs e1 p e3 e4 e5 f (ok_inj h6)
    where
      finish :
          (a : Approval) (c : Completer World) (st : ApprovalStage) (rs : List ApprovalStageReview)
          → get_by_id approval_id w ≡ ok a
          → not (is_pending a.status) ≡ false
          → or_err (completers a.entity_type) no_completer ≡ ok c
          → authorize_stage_review ports a stage_id user "approve" w ≡ ok st
          → list_by_stage_id st.id w ≡ ok rs
          → has_reviewed user.id rs ≡ false
          → (a, c, st) ≡ o
          → Ready approval_id stage_id user w o.0 o.1 o.2
            × ((qs : List ApprovalStageReview) × (list_by_stage_id o.2.id w ≡ ok qs)
                × (has_reviewed user.id qs ≡ false))
      finish a c st rs e1 p e3 e4 e5 f q =
          subst
            (λ (x : Opened ports).
              Ready approval_id stage_id user w x.0 x.1 x.2
              × ((qs : List ApprovalStageReview) × (list_by_stage_id x.2.id w ≡ ok qs)
                  × (has_reviewed user.id qs ≡ false)))
            q (opened a c st "approve" e1 p e3 e4, (rs, e5, f))

  pub open_reject-Ready :
      (approval_id stage_id : ℕ) (user : User) (text : String) (w : World) (o : Opened ports)
      → open_reject ports approval_id stage_id user text w ≡ ok o
      → (text ≢ "") × Ready approval_id stage_id user w o.0 o.1 o.2
  unfolding open_reject
  open_reject-Ready approval_id stage_id user text w o h =
      with_guard (str_eq text "") comment_required _ h λ t h0.
        with_bind (get_by_id approval_id w) _ h0 λ a e1 h1. with_guard _ not_pending _ h1 λ p h2.
          with_bind (or_err (completers a.entity_type) no_completer) _ h2 λ c e3 h3.
            with_bind (authorize_stage_review ports a stage_id user "reject" w) _ h3 λ st e4 h4. (
              λ q. ground (arith, t, q, eq_iff text ""),
              subst (λ (x : Opened ports). Ready approval_id stage_id user w x.0 x.1 x.2)
                  (ok_inj h4) (opened a c st "reject" e1 p e3 e4),
            )

  pub open_cancel-completer :
      (approval_id : ℕ) (user : User) (w : World) (o : Approval × Completer World)
      → open_cancel ports approval_id user w ≡ ok o
      → completers (o.0).entity_type ≡ some o.1
  unfolding open_cancel
  open_cancel-completer approval_id user w o h = with_bind (get_by_id approval_id w) _ h λ a e1 h1.
      with_guard (not (cancellable a.status)) not_cancellable _ h1 λ p h2.
        with_bind (or_err (completers a.entity_type) no_completer) _ h2 λ c e3 h3.
          with_guard (not (may_cancel ports a c user w)) no_cancel_right _ h3 λ q h4.
            subst (λ (x : Approval × Completer World). completers (x.0).entity_type ≡ some x.1)
              (ok_inj h4) (or_err-ok _ _ e3)
