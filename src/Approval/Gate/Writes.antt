-- ===== src/Approval/Gate/Writes.antt =====
-- The gate as an invariant of the database, kept by each single write.
use backend_v.Base.Exec.{step-keeps}
use backend_v.Approval.Model.{Approval, ApprovalStage, ApprovalStatus, ApprovalStageReview}
use backend_v.Approval.Ports.{Ports}
use backend_v.Approval.Gate.Good.{
  Good, once-store_review, Good-store_approval, NotTwice, grown, Enough, Good-mono,
  Good-store_stage,
}
use backend_v.Base.{All, ℕ, ◌≡◌, sym, ◌∙◌, subst, ◌≢◌, some, arith}
use backend_v.Approval.Stages.{Distinct}
use backend_v.Approval.Laws.{SameView, approvers, StoreLaws}

module _ (ports : Ports) (laws : StoreLaws ports) where
  open ports use {World, create_review, update_stage, update_approval}
  open laws use {stored, reviews}

  -- Every stored approval is good, and nobody has approved a stage twice.
  pub record IsGated (w : World) : Type 0 where
    pub good : (i : ℕ) (a : Approval) → stored w i ≡ some a → Good (reviews w) i a
    pub once : (s : ℕ) → Distinct (approvers (reviews w s))

  pub same-IsGated : (w w' : World) → SameView ports stored reviews w w' → IsGated w → IsGated w'
  same-IsGated w w' v g = record {
    good = λ i a e.
        Good-mono (reviews w) (reviews w') i a (λ s. rw (v.same_reviews s) (omega arith))
          (g.good i a (sym (v.same_stored i) ∙ e));
    once = λ s. rw (v.same_reviews s) (g.once s);
  }

  pub create_review-IsGated :
      (r : ApprovalStageReview) (w : World)
      → NotTwice r (reviews w r.stage_id)
      → IsGated w
      → IsGated (create_review r w).1
  create_review-IsGated r w f g =
      step-keeps IsGated (create_review r w)
        (λ u e. record {
          good = λ i a s.
              Good-mono (reviews w) _ i a
                (λ j. rw (laws.review_ok r w e j) (grown r j (reviews w j)))
                (g.good i a (sym (laws.review_stored r w i) ∙ s));
          once = λ j. rw (laws.review_ok r w e j) (
              once-store_review r j (reviews w j) (g.once j)
                (λ q. subst (λ k. NotTwice r (reviews w k)) (sym q) f));
        })
        (λ x e.
          same-IsGated w _
            (record {
              same_stored = laws.review_stored r w;
              same_reviews = laws.review_err r w x e;
            })
            g)

  pub update_stage-IsGated :
      (s : ApprovalStage) (w : World)
      → ((b : Approval) → stored w s.approval_id ≡ some b → b.status ≢ ApprovalStatus.approved)
      → Enough (reviews w) s
      → IsGated w
      → IsGated (update_stage s w).1
  update_stage-IsGated s w n k g =
      step-keeps IsGated (update_stage s w)
        (λ u e. record {
          good = λ i a p.
              Good-mono (reviews w) _ i a (λ j. rw (laws.stage_reviews s w j) (omega arith))
                (Good-store_stage (reviews w) s i (stored w i) a (λ b q. g.good i b q)
                  (λ q b r. n b (subst (λ x. stored w x ≡ some b) q r)) k
                  (sym (laws.stage_ok s w e i) ∙ p));
          once = λ j. rw (laws.stage_reviews s w j) (g.once j);
        })
        (λ x e.
          same-IsGated w _
            (record { same_stored = laws.stage_err s w x e; same_reviews = laws.stage_reviews s w })
            g)

  pub update_approval-IsGated :
      (c : Approval) (w : World)
      → ((b : Approval)
          → stored w c.id ≡ some b
          → c.status ≡ ApprovalStatus.approved
          → All (λ s. s.status ≡ ApprovalStatus.approved) b.stages)
      → IsGated w
      → IsGated (update_approval c w).1
  update_approval-IsGated c w n g =
      step-keeps IsGated (update_approval c w)
        (λ u e. record {
          good = λ i a p.
              Good-mono (reviews w) _ i a (λ j. rw (laws.approval_reviews c w j) (omega arith))
                (Good-store_approval (reviews w) c i (stored w i) a (λ b q. g.good i b q)
                  (λ q b r. n b (subst (λ x. stored w x ≡ some b) q r))
                  (sym (laws.approval_ok c w e i) ∙ p));
          once = λ j. rw (laws.approval_reviews c w j) (g.once j);
        })
        (λ x e.
          same-IsGated w _
            (record {
              same_stored = laws.approval_err c w x e;
              same_reviews = laws.approval_reviews c w;
            })
            g)
