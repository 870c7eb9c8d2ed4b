-- ===== src/Access/Gates.antt =====
-- No gate of a project lets a stranger through.
use backend_v.Base.{
  Bool-cases, if◌then◌else◌, is_nil, All, ok, ℕ, String, ◌≡◌, refl, sym, ap, ◌∙◌, inl, inr, Bool,
  true, false, not, ◌||◌, Option, none, some, List, [], ◌∷◌, arith,
}
use backend_v.Access.Teams.{
  ProjectTeamRole, perm_audit_view, perm_project_teams, perm_domain_delete,
}
use backend_v.Access.Checker.{
  Answer, has_project_access, has_permission, require_team_access, or_holds,
  require_approval_access, affirmed, require_domain_template_read_access, require_audit_access,
  found_any, next_handler, can_manage_domains, can_manage_teams, manages_all, Repos,
  is_project_admin, require_domain_template_access, require_admin_access, can_view_audit,
  require_project_access, forbidden, can_manage_domain_templates, gate,
}
use backend_v.Access.Agree.{in_roles}
use backend_v.Approval.Model.{User}

module _ {E : Type 0} (repos : Repos E) where
  open repos use {has_permission_in_project, get_user_teams_in_project}

  -- The repository returns the user's roles, and its permission query looks through their presets.
  abbrev pub Consistent : Type 0
  Consistent =
      (project : ℕ) (user : User)
      → (roles : List ProjectTeamRole) × (get_user_teams_in_project project user.id ≡ ok roles)
        × ((p : String) → has_permission_in_project project user.id p ≡ ok (in_roles p roles))

  -- Whom a gate may let through: a known user, in a known project, who has access to it.
  abbrev pub Admits : Option User → Option ℕ → Type 0
  Admits (some user) (some project) = has_project_access repos project user ≡ true
  Admits _ _ = ⊥

  roles-access :
      (p : String) (roles : List ProjectTeamRole)
      → in_roles p roles ≡ true
      → not (is_nil roles) ≡ true
  roles-access p [] h = h
  roles-access p (role ∷ rest) h = refl

  manages-access :
      (project : ℕ) (user : User)
      → manages_all repos project user ≡ true
      → has_project_access repos project user ≡ true
  unfolding has_project_access
  manages-access project user h =
      by_rank user.is_owner (is_project_admin repos project user.id)
        (found_any (get_user_teams_in_project project user.id)) h
    where
      by_rank :
          (o a b : Bool) → (o || a) ≡ true → (if o then true else if a then true else b) ≡ true
      by_rank true a b h = refl
      by_rank false a b h = rw h refl

  holds-access :
      Consistent
      → (p : String) (project : ℕ) (user : User) → has_permission repos project user p ≡ true
      → has_project_access repos project user ≡ true
  unfolding has_permission has_project_access
  holds-access consistent p project user h =
      let roles = consistent project user in
      by_rank user.is_owner (is_project_admin repos project user.id)
        (affirmed (has_permission_in_project project user.id p))
        (found_any (get_user_teams_in_project project user.id))
        (λ held.
          ap (λ o. found_any o) roles.1
          ∙ roles-access p roles.0 (ap (λ o. affirmed o) (sym (roles.2 p)) ∙ held))
        h
    where
      by_rank :
          (o a b c : Bool)
          → (b ≡ true → c ≡ true)
          → (if o then true else if a then true else b) ≡ true
          → (if o then true else if a then true else c) ≡ true
      by_rank true a b c k h = refl
      by_rank false true b c k h = refl
      by_rank false false b c k h = k h

  or_holds-access :
      Consistent
      → (p : String) (project : ℕ) (user : User) → or_holds repos p project user ≡ true
      → has_project_access repos project user ≡ true
  or_holds-access consistent p project user h = elim (Bool-cases (manages_all repos project user)) [
    | inl e ↦ manages-access project user e
    | inr e ↦ holds-access consistent p project user (rest e)
  ]
    where
      rest : manages_all repos project user ≡ false → has_permission repos project user p ≡ true
      rest e = ap (λ b. if b then true else has_permission repos project user p) (sym e) ∙ h

  gate-Admits :
      (check : ℕ → User → Bool)
      → ((project : ℕ) (user : User)
          → check project user ≡ true
          → has_project_access repos project user ≡ true)
      → (user : Option User) (project : Option ℕ) → gate repos check user project ≡ next_handler
      → Admits user project
  gate-Admits check lets none project h = absurd (cc h)
  gate-Admits check lets (some user) none h = absurd (cc h)
  gate-Admits check lets (some user) (some project) h = elim (Bool-cases (check project user)) [
    | inl e ↦ lets project user e
    | inr e ↦ absurd (cc (ap (λ b. if b then next_handler else forbidden) (sym e) ∙ h))
  ]

  -- The gates of a project's pages.
  abbrev pub gates : List (Option User → Option ℕ → Answer)
  gates =
      require_project_access repos
      ∷ require_domain_template_read_access repos
      ∷ require_domain_template_access repos
      ∷ require_team_access repos
      ∷ require_approval_access repos
      ∷ require_admin_access repos
      ∷ require_audit_access repos
      ∷ []

  templates-access :
      (project : ℕ) (user : User)
      → can_manage_domain_templates repos project user ≡ true
      → has_project_access repos project user ≡ true
  unfolding can_manage_domain_templates
  templates-access project user h = manages-access project user (ground (arith, h))

  -- If the repository's permission query looks through the presets of the user's roles, every gate lets
  -- a request through only for a known user in a known project to which the user has access, as its
  -- owner, an administrator or a member of one of its teams.
  pub gates_need_access :
      Consistent
      → All
          (λ g.
            (user : Option User) (project : Option ℕ)
            → g user project ≡ next_handler
            → Admits user project)
          gates
  unfolding require_project_access require_domain_template_read_access
      require_domain_template_access require_team_access require_approval_access
      require_admin_access require_audit_access can_manage_teams can_view_audit can_manage_domains
  gates_need_access consistent = (
    gate-Admits (has_project_access repos) (λ p u h. h),
    (
      gate-Admits _ (λ p u h. elim (Bool-cases (can_manage_domain_templates repos p u)) [
        | inl e ↦ templates-access p u e
        | inr e ↦ or_holds-access consistent perm_domain_delete p u (ground (arith, e, h))
      ]),
      (
        gate-Admits (can_manage_domain_templates repos) templates-access,
        (
          gate-Admits (can_manage_teams repos) (or_holds-access consistent perm_project_teams),
          (
            gate-Admits (has_project_access repos) (λ p u h. h),
            (
              gate-Admits (manages_all repos) manages-access,
              (gate-Admits (can_view_audit repos) (or_holds-access consistent perm_audit_view), tt),
            ),
          ),
        ),
      ),
    ),
  )
