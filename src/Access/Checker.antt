-- ===== src/Access/Checker.antt =====
-- internal/middleware/permissions.go: the checks of `PermissionChecker` and its gates.
use backend_v.Base.{
  if◌then◌else◌, is_nil, ok, Result, err, ℕ, String, Bool, true, false, not, ◌||◌, Option, none,
  some, List, [],
}
use backend_v.Access.Teams.{
  perm_certificate_view, ProjectTeamRole, perm_audit_view, perm_route_approve, perm_route_create,
  member, perm_certificate_edit, perm_certificate_delete, merge_roles, all_permissions,
  perm_project_teams, perm_certificate_create, perm_domain_delete,
}
use backend_v.Approval.Model.{User}

-- The queries of the project and team repositories that the checks make.
pub record Repos (E : Type 0) : Type 0 where
  pub is_admin : ℕ → ℕ → Result E Bool
  pub is_member : ℕ → ℕ → Result E Bool
  pub has_permission_in_project : ℕ → ℕ → String → Result E Bool
  pub get_user_teams_in_project : ℕ → ℕ → Result E (List ProjectTeamRole)

pub record ProjectPermissions : Type 0 where
  pub can_manage_domain_templates : Bool
  pub can_manage_domains : Bool
  pub can_manage_teams : Bool
  pub can_create_routes : Bool
  pub can_approve_routes : Bool
  pub can_view_audit : Bool
  pub permissions : List String
  pub owner : Bool
  pub project_admin : Bool

-- What a gate answers: a status, or the next handler.
pub data Answer : Type 0 where
  unauthorized bad_request forbidden next_handler : Answer

-- A failed query denies.
abbrev pub affirmed : {E : Type 0} → Result E Bool → Bool
affirmed (ok b) = b
affirmed (err e) = false

abbrev pub found_any : {E : Type 0} → Result E (List ProjectTeamRole) → Bool
found_any (ok teams) = not (is_nil teams)
found_any (err e) = false

abbrev pub is_owner : User → Bool
is_owner user = user.is_owner

module _ {E : Type 0} (repos : Repos E) where
  open repos use {is_admin, is_member, has_permission_in_project, get_user_teams_in_project}

  unfoldable pub is_project_admin : ℕ → ℕ → Bool
  is_project_admin project user = affirmed (is_admin project user)

  unfoldable pub can_access_team_resource : ℕ → User → Bool
  can_access_team_resource team user = is_owner user || affirmed (is_member team user.id)

  unfoldable pub has_team_permission : ℕ → User → String → Bool
  has_team_permission project user perm =
      is_owner user || affirmed (has_permission_in_project project user.id perm)

  unfoldable pub has_permission : ℕ → User → String → Bool
  has_permission project user perm =
      if is_owner user
      then true
      else if is_project_admin project user.id
      then true
      else affirmed (has_permission_in_project project user.id perm)

  unfoldable pub has_project_access : ℕ → User → Bool
  has_project_access project user =
      if is_owner user
      then true
      else if is_project_admin project user.id
      then true
      else found_any (get_user_teams_in_project project user.id)

  -- The two first lines of most checks.
  abbrev pub manages_all : ℕ → User → Bool
  manages_all project user = is_owner user || is_project_admin project user.id

  unfoldable pub can_manage_domain_templates : ℕ → User → Bool
  can_manage_domain_templates project user =
      if is_owner user then true else is_project_admin project user.id

  -- `if manages all { return true }; return HasPermission(perm)`
  abbrev pub or_holds : String → ℕ → User → Bool
  or_holds perm project user =
      if manages_all project user then true else has_permission project user perm

  unfoldable pub can_manage_domains : ℕ → User → Bool
  can_manage_domains project user = or_holds perm_domain_delete project user

  unfoldable pub can_view_domains : ℕ → User → Bool
  can_view_domains project user = has_project_access project user

  unfoldable pub can_view_routes : ℕ → User → Bool
  can_view_routes project user = has_project_access project user

  unfoldable pub can_manage_teams : ℕ → User → Bool
  can_manage_teams project user = or_holds perm_project_teams project user

  unfoldable pub can_create_routes : ℕ → User → Bool
  can_create_routes project user = has_permission project user perm_route_create

  unfoldable pub can_approve_routes : ℕ → User → Bool
  can_approve_routes project user = has_permission project user perm_route_approve

  unfoldable pub can_view_audit : ℕ → User → Bool
  can_view_audit project user = or_holds perm_audit_view project user

  unfoldable pub can_create_certificates : ℕ → User → Bool
  can_create_certificates project user = or_holds perm_certificate_create project user

  unfoldable pub can_manage_certificates : ℕ → User → Bool
  can_manage_certificates project user = or_holds perm_certificate_delete project user

  unfoldable pub can_edit_certificates : ℕ → User → Bool
  can_edit_certificates project user = or_holds perm_certificate_edit project user

  unfoldable pub can_view_certificates : ℕ → User → Bool
  can_view_certificates project user = or_holds perm_certificate_view project user

  abbrev pub merged : Result E (List ProjectTeamRole) → List String
  merged (ok roles) = merge_roles roles []
  merged (err e) = []

  unfoldable pub get_project_permissions : ℕ → User → ProjectPermissions
  get_project_permissions project user =
      let full = is_owner user || is_project_admin project user.id in
      let perms =
        if full then all_permissions else merged (get_user_teams_in_project project user.id) in
      record {
        can_manage_domain_templates = full;
        can_manage_domains = full || member perm_domain_delete perms;
        can_manage_teams = full || member perm_project_teams perms;
        can_create_routes = full || member perm_route_create perms;
        can_approve_routes = full || member perm_route_approve perms;
        can_view_audit = full || member perm_audit_view perms;
        permissions = perms;
        owner = is_owner user;
        project_admin = is_project_admin project user.id;
      }

  -- The frame of the gates: the current user and the project of the path may be missing.
  abbrev pub gate : (ℕ → User → Bool) → Option User → Option ℕ → Answer
  gate check none project = unauthorized
  gate check (some user) none = bad_request
  gate check (some user) (some project) = if check project user then next_handler else forbidden

  unfoldable pub require_project_access : Option User → Option ℕ → Answer
  require_project_access = gate has_project_access

  unfoldable pub require_domain_template_read_access : Option User → Option ℕ → Answer
  require_domain_template_read_access =
      gate (λ project user.
        can_manage_domain_templates project user || can_manage_domains project user)

  unfoldable pub require_domain_template_access : Option User → Option ℕ → Answer
  require_domain_template_access = gate can_manage_domain_templates

  unfoldable pub require_team_access : Option User → Option ℕ → Answer
  require_team_access = gate can_manage_teams

  unfoldable pub require_approval_access : Option User → Option ℕ → Answer
  require_approval_access = gate has_project_access

  unfoldable pub require_admin_access : Option User → Option ℕ → Answer
  require_admin_access = gate manages_all

  unfoldable pub require_audit_access : Option User → Option ℕ → Answer
  require_audit_access = gate can_view_audit
