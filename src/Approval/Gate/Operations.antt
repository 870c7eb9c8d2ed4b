-- ===== src/Approval/Gate/Operations.antt =====
-- Approving keeps the gate, whatever fails on the way.
use backend_v.Base.Exec.{continue-keeps}
use backend_v.Approval.Model.{
  Approval, ApprovalStage, ApprovalStatus, User, effective_min_approvers, ApprovalStageReview,
}
use backend_v.Approval.Ports.{Ports, Completer, ApprovalError}
use backend_v.Approval.Gate.Good.{Good, Enough}
use backend_v.Base.{
  ==_refl, Bool-cases, All, ok, ℕ, ◌≡◌, ◌∙◌, ◌≢◌, inl, inr, some, arith, some_inj, Result, sym,
  subst, refl, false,
}
use backend_v.Approval.Traversal.{
  complete, all_stages_approved, close_stage, with_stage, approved_stage, record_approval,
  approve_stage,
}
use backend_v.Approval.Stages.{find_stage-All, stage_ids, Distinct, write_stage-approved}
use backend_v.Approval.Laws.{StoreLaws, SameView}
use backend_v.Approval.Gate.Opened.{Ready, open_approve-Ready}
use backend_v.Approval.Gate.Writes.{
  update_stage-IsGated, IsGated, update_approval-IsGated, same-IsGated, create_review-IsGated,
}
use backend_v.Base.Int.{pos, ltb_ℤ}
use backend_v.Approval.Guards.{open_approve, has_reviewed, Opened}

module _ (ports : Ports) (laws : StoreLaws ports) where
  open ports use {World, create_review, update_stage, update_approval}
  open laws use {stored, reviews}

  -- What an opened review says of the stored approval.
  pub record Stored (i : ℕ) (w : World) (a : Approval) (st : ApprovalStage) : Type 0 where
    pub here : stored w i ≡ some a
    pub owner : st.approval_id ≡ i
    pub key : a.id ≡ i
    pub ids : Distinct (stage_ids a.stages)
    pub unapproved : a.status ≢ ApprovalStatus.approved

  pub Ready-Stored :
      (i stage_id : ℕ) (user : User) (w : World) (a : Approval) (c : Completer World)
      → (st : ApprovalStage) → IsGated ports laws w
      → Ready ports i stage_id user w a c st
      → Stored i w a st
  Ready-Stored i stage_id user w a c st g r =
      let e : stored w i ≡ some a = laws.get_law i w a r.got in
      let h : Good (reviews w) i a = g.good i a e in
      record {
        here = e;
        owner = (find_stage-All (λ s. s.approval_id ≡ i) stage_id a.stages h.owned r.may.found).0;
        key = h.keyed;
        ids = h.distinct;
        unapproved = λ x. ground (arith, x, r.is_open);
      }

  -- A completer that leaves the approval tables alone.
  abbrev pub Quiet : Completer World → Type 0
  Quiet c =
      (a : Approval) (w : World)
      → SameView ports stored reviews w (c.on_approved a w).1
        × SameView ports stored reviews w (c.on_rejected a w).1
        × SameView ports stored reviews w (c.on_cancelled a w).1

  complete-IsGated :
      (a : Approval) (c : Completer World) (w : World)
      → Quiet c
      → IsGated ports laws w
      → ((b : Approval)
          → stored w a.id ≡ some b
          → All (λ s. s.status ≡ ApprovalStatus.approved) b.stages)
      → IsGated ports laws (complete ports a c w).1
  unfolding complete
  complete-IsGated a c w k g n =
      continue-keeps (IsGated ports laws)
        (update_approval (record a { status = ApprovalStatus.approved }) w) _
        (update_approval-IsGated ports laws (record a { status = ApprovalStatus.approved }) w
          (λ b e x. n b e) g)
        (λ u e. same-IsGated ports laws _ _ (k _ _).0 (
          update_approval-IsGated ports laws (record a { status = ApprovalStatus.approved }) w
            (λ b e' x. n b e') g))

  -- One approval is stored under an identifier.
  pub only :
      (w : World) (a b : Approval) (j i : ℕ)
      → stored w i ≡ some a
      → j ≡ i
      → stored w j ≡ some b
      → a ≡ b
  only w a b j i e q f = some_inj (sym e ∙ subst (λ x. stored w x ≡ some b) q f)

  unit_ok : (o : Result ApprovalError (Unit {0})) {u : Unit {0}} → o ≡ ok u → o ≡ ok tt
  unit_ok o {u} e = e

  -- The stage that is written, in the database and in memory.
  stored-update_stage :
      (i : ℕ) (a : Approval) (st : ApprovalStage) (w : World)
      → stored w i ≡ some a
      → st.approval_id ≡ i
      → (update_stage st w).0 ≡ ok tt
      → stored (update_stage st w).1 i ≡ some (with_stage a st)
  stored-update_stage i a st w e o u = laws.stage_ok st w u i ∙ (rw e (rw (o, ==_refl i)))

  close_stage-IsGated :
      (i : ℕ) (a : Approval) (c : Completer World) (st st' : ApprovalStage) (w : World)
      → Quiet c
      → IsGated ports laws w
      → Stored i w a st
      → st'.approval_id ≡ st.approval_id
      → st'.status ≡ ApprovalStatus.approved
      → Enough (reviews w) st'
      → IsGated ports laws (close_stage ports a c st' w).1
  unfolding close_stage
  close_stage-IsGated i a c st st' w k g s o p n =
      continue-keeps (IsGated ports laws) (update_stage st' w) _ written (λ u e.
        elim (Bool-cases (all_stages_approved st'.id (with_stage a st').stages)) [
          | inl q ↦ rw q (
              complete-IsGated (with_stage a st') c _ k written (λ b e'.
                subst (λ (x : Approval). All (λ t. t.status ≡ ApprovalStatus.approved) x.stages)
                  (only _ (with_stage a st') b a.id i
                    (stored-update_stage i a st' w s.here (o ∙ s.owner) (unit_ok _ e)) s.key e')
                  (write_stage-approved st' a.stages s.ids p q)))
          | inr q ↦ rw q written
        ])
    where
      written : IsGated ports laws (update_stage st' w).1
      written =
          update_stage-IsGated ports laws st' w
            (λ b e x. s.unapproved (
              subst (λ (x : Approval). x.status ≡ ApprovalStatus.approved)
                (sym (only w a b (st'.approval_id) i s.here (o ∙ s.owner) e)) x))
            n g

  -- A review leaves the approval that it is about as it was.
  pub Stored-create_review :
      (r : ApprovalStageReview) (i : ℕ) (w : World) (a : Approval) (st : ApprovalStage)
      → Stored i w a st
      → Stored i (create_review r w).1 a st
  Stored-create_review r i w a st s = record {
    here = laws.review_stored r w i ∙ s.here;
    owner = s.owner;
    key = s.key;
    ids = s.ids;
    unapproved = s.unapproved;
  }

  record_approval-IsGated :
      (i : ℕ) (a : Approval) (c : Completer World) (st : ApprovalStage) (user : User) (now : ℕ)
      → (w : World) → Quiet c
      → IsGated ports laws w
      → Stored i w a st
      → has_reviewed user.id (reviews w st.id) ≡ false
      → IsGated ports laws (record_approval ports a c st user now w).1
  unfolding record_approval
  record_approval-IsGated i a c st user now w k g s f =
      continue-keeps (IsGated ports laws) (create_review rev w) _ reviewed (λ u e.
        continue-keeps (IsGated ports laws)
          (
            ports.count_by_stage_and_decision st.id "approved" (create_review rev w).1,
            (create_review rev w).1,
          )
          _ reviewed
          (λ n m. elim (Bool-cases (ltb_ℤ (pos n) (effective_min_approvers st.min_approvers))) [
            | inl q ↦ rw q reviewed
            | inr q ↦ rw q (
                close_stage-IsGated i a c st (approved_stage st user.id now) (create_review rev w).1
                  k reviewed (Stored-create_review rev i w a st s) refl refl
                  (λ x. ground (arith, laws.count_law st.id (create_review rev w).1 n m, q)))
          ]))
    where
      rev : ApprovalStageReview
      rev = record { stage_id = st.id; reviewer_id = user.id; decision = "approved" }

      reviewed : IsGated ports laws (create_review rev w).1
      reviewed = create_review-IsGated ports laws rev w (inr f) g

  -- Approving a stage keeps the gate, whichever step fails: given the store laws, if before the call
  -- every approved stage of a stored approval has at least its minimum of approvers, no reviewer
  -- approves a stage twice, and every approved approval has approved stages only, then so it is after.
  pub approve_stage-IsGated :
      (i stage_id : ℕ) (user : User) (now : ℕ) (w : World)
      → IsGated ports laws w
      → IsGated ports laws (approve_stage ports i stage_id user now w).1
  unfolding approve_stage
  approve_stage-IsGated i stage_id user now w g =
      continue-keeps (IsGated ports laws) (open_approve ports i stage_id user w, w) _ g
        (λ o e.
          continue-keeps (IsGated ports laws) (record_approval ports o.0 o.1 o.2 user now w) _
            (recorded o e) (λ u e'. recorded o e))
    where
      recorded :
          (o : Opened ports)
          → open_approve ports i stage_id user w ≡ ok o
          → IsGated ports laws (record_approval ports o.0 o.1 o.2 user now w).1
      recorded o e =
          let (r, l) = open_approve-Ready ports i stage_id user w o e in
          record_approval-IsGated i o.0 o.1 o.2 user now w (laws.completers_law _ o.1 r.completer) g
            (Ready-Stored i stage_id user w o.0 o.1 o.2 g r)
            (subst (λ x. has_reviewed user.id x ≡ false) (sym (laws.list_law o.2.id w l.0 l.1)) l.2)
