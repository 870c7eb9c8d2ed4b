-- ===== src/Approval/Gate/Endings.antt =====
-- Rejecting and cancelling keep the gate, whatever fails on the way.
use backend_v.Base.Exec.{continue-keeps}
use backend_v.Approval.Model.{Approval, ApprovalStage, ApprovalStatus, User, ApprovalStageReview}
use backend_v.Approval.Ports.{Ports, Completer}
use backend_v.Base.{ok, ℕ, String, ◌≡◌, refl, sym, subst, ◌≢◌, inl}
use backend_v.Approval.Traversal.{
  with_stage, record_cancel, cancel, rejected_stage, record_rejection, reject_stage,
}
use backend_v.Approval.Guards.{Opened, open_cancel, open_reject}
use backend_v.Approval.Laws.{StoreLaws}
use backend_v.Approval.Gate.Opened.{open_cancel-completer, open_reject-Ready}
use backend_v.Approval.Gate.Operations.{Quiet, only, Stored, Ready-Stored, Stored-create_review}
use backend_v.Approval.Gate.Writes.{
  same-IsGated, update_approval-IsGated, IsGated, update_stage-IsGated, create_review-IsGated,
}

module _ (ports : Ports) (laws : StoreLaws ports) where
  open ports use {World, create_review, update_stage, update_approval}
  open laws use {stored, reviews}

  -- Writing an approval under a status that is not approved.
  ending-IsGated :
      (a : Approval) (w : World)
      → a.status ≢ ApprovalStatus.approved
      → IsGated ports laws w
      → IsGated ports laws (update_approval a w).1
  ending-IsGated a w n g = update_approval-IsGated ports laws a w (λ b e x. absurd (n x)) g

  record_rejection-IsGated :
      (i : ℕ) (a : Approval) (c : Completer World) (st : ApprovalStage) (user : User) (now : ℕ)
      → (text : String) (w : World) → Quiet ports laws c
      → IsGated ports laws w
      → Stored ports laws i w a st
      → IsGated ports laws (record_rejection ports a c st user now text w).1
  unfolding record_rejection
  record_rejection-IsGated i a c st user now text w k g s =
      continue-keeps (IsGated ports laws) (update_stage st' w1) _ written (λ u e.
        continue-keeps (IsGated ports laws) (update_approval a' (update_stage st' w1).1) _ ended
          (λ v f. same-IsGated ports laws _ _ (k _ _).1 ended))
    where
      rev : ApprovalStageReview
      rev = record { stage_id = st.id; reviewer_id = user.id; decision = "rejected" }

      w1 : World
      w1 = (create_review rev w).1

      st' : ApprovalStage
      st' = rejected_stage st user.id now text

      a' : Approval
      a' = record (with_stage a st') { status = ApprovalStatus.rejected }

      s1 : Stored ports laws i w1 a st
      s1 = Stored-create_review ports laws rev i w a st s

      written : IsGated ports laws (update_stage st' w1).1
      written =
          update_stage-IsGated ports laws st' w1
            (λ b e x. s.unapproved (
              subst (λ (y : Approval). y.status ≡ ApprovalStatus.approved)
                (sym (only ports laws w1 a b st.approval_id i s1.here s.owner e)) x))
            (λ x. cc) (create_review-IsGated ports laws rev w (inl refl) g)

      ended : IsGated ports laws (update_approval a' (update_stage st' w1).1).1
      ended = ending-IsGated a' _ (λ x. cc) written

  -- Rejecting a stage keeps the gate, whichever step fails, the audit record's included: given the
  -- store laws, approved stages still have their minimum of different approvers afterwards, and
  -- approved approvals have approved stages only.
  pub reject_stage-IsGated :
      (i stage_id : ℕ) (user : User) (now : ℕ) (text : String) (w : World)
      → IsGated ports laws w
      → IsGated ports laws (reject_stage ports i stage_id user now text w).1
  unfolding reject_stage
  reject_stage-IsGated i stage_id user now text w g =
      continue-keeps (IsGated ports laws) (open_reject ports i stage_id user text w, w) _ g
        (λ o e.
          continue-keeps (IsGated ports laws) (record_rejection ports o.0 o.1 o.2 user now text w) _
            (recorded o e) (λ u e'. recorded o e))
    where
      recorded :
          (o : Opened ports)
          → open_reject ports i stage_id user text w ≡ ok o
          → IsGated ports laws (record_rejection ports o.0 o.1 o.2 user now text w).1
      recorded o e =
          let (t, r) = open_reject-Ready ports i stage_id user text w o e in
          record_rejection-IsGated i o.0 o.1 o.2 user now text w
            (laws.completers_law _ o.1 r.completer) g
            (Ready-Stored ports laws i stage_id user w o.0 o.1 o.2 g r)

  -- Cancelling an approval keeps the gate, whichever step fails: given the store laws, approved
  -- stages still have their minimum of different approvers afterwards, and approved approvals have
  -- approved stages only.
  pub cancel-IsGated :
      (i : ℕ) (user : User) (w : World)
      → IsGated ports laws w
      → IsGated ports laws (cancel ports i user w).1
  unfolding cancel record_cancel
  cancel-IsGated i user w g =
      continue-keeps (IsGated ports laws) (open_cancel ports i user w, w) _ g
        (λ o e.
          continue-keeps (IsGated ports laws) (record_cancel ports o.0 o.1 w) _ (recorded o e)
            (λ u e'. recorded o e))
    where
      recorded :
          (o : Approval × Completer World)
          → open_cancel ports i user w ≡ ok o
          → IsGated ports laws (record_cancel ports o.0 o.1 w).1
      recorded o e =
          let a' : Approval = record (o.0) { status = ApprovalStatus.cancelled } in
          let ended : IsGated ports laws (update_approval a' w).1 =
            ending-IsGated a' w (λ x. cc) g in
          continue-keeps (IsGated ports laws) (update_approval a' w) _ ended (λ u f.
            same-IsGated ports laws _ _
              (laws.completers_law (o.0).entity_type o.1 (open_cancel-completer ports i user w o e)
                a' _).2
              ended)
