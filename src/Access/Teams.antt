-- ===== src/Access/Teams.antt =====
-- internal/models/team.go: permissions, presets, and what a team's role in a project allows.
use backend_v.Base.{if◌then◌else◌, any, before, ℕ, String, Bool, List, [], ◌∷◌, str_eq}

abbrev pub perm_route_create : String
perm_route_create = "route.create"

abbrev pub perm_route_approve : String
perm_route_approve = "route.approve"

abbrev pub perm_domain_delete : String
perm_domain_delete = "domain.delete"

abbrev pub perm_project_teams : String
perm_project_teams = "project.teams"

abbrev pub perm_audit_view : String
perm_audit_view = "audit.view"

abbrev pub perm_certificate_create : String
perm_certificate_create = "certificate.create"

abbrev pub perm_certificate_delete : String
perm_certificate_delete = "certificate.delete"

abbrev pub perm_certificate_edit : String
perm_certificate_edit = "certificate.edit"

abbrev pub perm_certificate_view : String
perm_certificate_view = "certificate.view"

abbrev pub all_permissions : List String
all_permissions =
    "route.view" ∷ "route.create" ∷ "route.edit" ∷ "route.delete" ∷ "route.deploy" ∷ "route.approve"
    ∷ "client.view" ∷ "client.create" ∷ "client.edit" ∷ "client.delete" ∷ "client.manage_ip"
    ∷ "client.manage_apikey" ∷ "client.manage_jwt" ∷ "client.attach" ∷ "client.detach"
    ∷ "client.approve" ∷ "domain.view" ∷ "domain.create" ∷ "domain.edit" ∷ "domain.delete"
    ∷ "project.settings" ∷ "project.teams" ∷ "project.approval_policy" ∷ "audit.view"
    ∷ "certificate.view" ∷ "certificate.create" ∷ "certificate.edit" ∷ "certificate.delete"
    ∷ "certificate.approve" ∷ []

abbrev pub preset_viewer : List String
preset_viewer = "route.view" ∷ "client.view" ∷ "domain.view" ∷ "certificate.view" ∷ []

abbrev pub preset_editor : List String
preset_editor =
    "route.view" ∷ "route.create" ∷ "route.edit" ∷ "route.delete" ∷ "route.deploy" ∷ "client.view"
    ∷ "client.create" ∷ "client.edit" ∷ "client.manage_ip" ∷ "client.manage_apikey"
    ∷ "client.manage_jwt" ∷ "client.attach" ∷ "client.detach" ∷ "domain.view" ∷ "domain.create"
    ∷ "domain.edit" ∷ "certificate.view" ∷ "certificate.create" ∷ "certificate.edit"
    ∷ "certificate.delete" ∷ []

abbrev pub preset_approver : List String
preset_approver =
    "route.view" ∷ "route.approve" ∷ "client.view" ∷ "client.approve" ∷ "domain.view"
    ∷ "certificate.view" ∷ "certificate.approve" ∷ []

-- `ResolvePreset`; nil is the empty list.
unfoldable pub resolve_preset : String → List String
resolve_preset preset =
    if str_eq preset "viewer"
    then preset_viewer
    else if str_eq preset "editor"
    then preset_editor
    else if str_eq preset "approver"
    then preset_approver
    else if str_eq preset "admin"
    then all_permissions
    else []

abbrev pub member : String → List String → Bool
member p ps = any (str_eq p) ps

unfoldable pub is_valid_permission : String → Bool
is_valid_permission perm = member perm all_permissions

-- A team's role in a project: the permissions of each of its presets.
pub record ProjectTeamRole : Type 0 where
  pub team_id : ℕ
  pub presets : List (List String)

-- A set of strings, as a list without repetitions.
unfoldable pub add : String → List String → List String
add p ps = if member p ps then ps else p ∷ ps

unfoldable pub add_all : List String → List String → List String
add_all [] set = set
add_all (p ∷ ps) set = add p (add_all ps set)

unfoldable pub merge_presets : List (List String) → List String → List String
merge_presets [] set = set
merge_presets (ps ∷ rest) set = add_all ps (merge_presets rest set)

unfoldable pub place : String → List String → List String
place p [] = p ∷ []
place p (q ∷ qs) = let rest = place p qs in if before q p then q ∷ rest else p ∷ q ∷ qs

unfoldable pub sorted : List String → List String
sorted [] = []
sorted (p ∷ ps) = place p (sorted ps)

unfoldable pub get_effective_permissions : ProjectTeamRole → List String
get_effective_permissions role = sorted (merge_presets role.presets [])

unfoldable pub role_has_permission : ProjectTeamRole → String → Bool
role_has_permission role perm = member perm (get_effective_permissions role)

-- The merging of `GetUserPermissionsInProject`, over the roles that the query returned.
unfoldable pub merge_roles : List ProjectTeamRole → List String → List String
merge_roles [] set = set
merge_roles (role ∷ rest) set = merge_presets role.presets (merge_roles rest set)
