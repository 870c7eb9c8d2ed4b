-- ===== src/Access/Tests.antt =====
-- The theorems on permissions at a project with one team of editors and approvers.
use backend_v.Base.{◌==◌, if◌then◌else◌, All, ok, ℕ, String, ◌≡◌, refl, false, Option, [], ◌∷◌}
use backend_v.Access.Teams.{ProjectTeamRole, preset_editor, preset_approver}
use backend_v.Access.Checker.{
  can_manage_domain_templates, can_manage_domains, get_project_permissions, Repos, can_view_audit,
  can_create_routes, can_approve_routes, next_handler, can_manage_teams,
}
use backend_v.Access.Gates.{gates, Admits, gates_need_access}
use backend_v.Access.Agree.{shown-checked, in_roles}
use backend_v.Approval.Model.{User}

abbrev editors : ProjectTeamRole
editors = record { team_id = 4; presets = preset_approver ∷ preset_editor ∷ [] }

abbrev repos : Repos String
repos = record {
  is_admin = λ p u. ok (u == 1);
  is_member = λ t u. ok (u == 2);
  has_permission_in_project = λ p u perm. ok (in_roles perm (if u == 2 then editors ∷ [] else []));
  get_user_teams_in_project = λ p u. ok (if u == 2 then editors ∷ [] else []);
}

abbrev editor : User
editor = record { id = 2; is_owner = false }

shown-checked_example :
    let shown = get_project_permissions repos 3 editor in
    (shown.can_manage_domain_templates ≡ can_manage_domain_templates repos 3 editor)
    × (shown.can_manage_domains ≡ can_manage_domains repos 3 editor)
    × (shown.can_manage_teams ≡ can_manage_teams repos 3 editor)
    × (shown.can_create_routes ≡ can_create_routes repos 3 editor)
    × (shown.can_approve_routes ≡ can_approve_routes repos 3 editor)
    × (shown.can_view_audit ≡ can_view_audit repos 3 editor)
shown-checked_example = shown-checked repos 3 editor (editors ∷ []) refl (λ p. refl)

gates_need_access_example :
    All
      (λ g.
        (user : Option User) (project : Option ℕ)
        → g user project ≡ next_handler
        → Admits repos user project)
      (gates repos)
gates_need_access_example =
    gates_need_access repos (λ p u. (if u.id == 2 then editors ∷ [] else [], refl, λ q. refl))
