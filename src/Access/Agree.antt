-- ===== src/Access/Agree.antt =====
-- The permissions that the interface shows are those that the checks grant.
use backend_v.Base.{
  Bool-cases, any, before, ok, ℕ, String, ◌≡◌, refl, ap, ◌∙◌, inl, inr, Bool, true, false, ◌||◌,
  List, [], ◌∷◌, str_eq, eq_iff, if◌then◌else◌, sym,
}
use backend_v.Access.Teams.{
  get_effective_permissions, role_has_permission, member, ProjectTeamRole, sorted, merge_presets,
  add_all, add, place, merge_roles, perm_route_approve, perm_route_create, perm_domain_delete,
  perm_audit_view, all_permissions, perm_project_teams,
}
use backend_v.Access.Checker.{
  can_create_routes, has_permission, can_manage_domain_templates, can_manage_teams,
  can_manage_domains, get_project_permissions, Repos, can_approve_routes, can_view_audit, merged,
  affirmed, is_project_admin,
}
use backend_v.Approval.Model.{User}

or_known : (b c : Bool) → (b ≡ true → c ≡ true) → c ≡ (b || c)
or_known true c h = h refl
or_known false c h = refl

or_assoc : (a b c : Bool) → (a || (b || c)) ≡ ((a || b) || c)
or_assoc true b c = refl
or_assoc false b c = refl

-- Membership in what the presets add up to.
member-add : (p q : String) (ps : List String) → member p (add q ps) ≡ (str_eq p q || member p ps)
unfolding add
member-add p q ps = elim (Bool-cases (member q ps)) [
  | inl e ↦ rw e (
      or_known (str_eq p q) (member p ps) (λ same. ap (λ x. member x ps) ((eq_iff p q).0 same) ∙ e))
  | inr e ↦ rw e refl
]

member-add_all :
    (p : String) (qs ps : List String) → member p (add_all qs ps) ≡ (member p qs || member p ps)
unfolding add_all
member-add_all p [] ps = refl
member-add_all p (q ∷ qs) ps =
    member-add p q (add_all qs ps)
    ∙ ap (λ b. str_eq p q || b) (member-add_all p qs ps)
    ∙ or_assoc (str_eq p q) (member p qs) (member p ps)

-- Does some preset name the permission?
abbrev pub in_presets : String → List (List String) → Bool
in_presets p presets = any (member p) presets

abbrev pub in_roles : String → List ProjectTeamRole → Bool
in_roles p roles = any (λ role. in_presets p role.presets) roles

member-merge_presets :
    (p : String) (presets : List (List String)) (ps : List String)
    → member p (merge_presets presets ps) ≡ (in_presets p presets || member p ps)
unfolding merge_presets
member-merge_presets p [] ps = refl
member-merge_presets p (qs ∷ rest) ps =
    member-add_all p qs (merge_presets rest ps)
    ∙ ap (λ b. member p qs || b) (member-merge_presets p rest ps)
    ∙ or_assoc (member p qs) (in_presets p rest) (member p ps)

member-merge_roles :
    (p : String) (roles : List ProjectTeamRole) (ps : List String)
    → member p (merge_roles roles ps) ≡ (in_roles p roles || member p ps)
unfolding merge_roles
member-merge_roles p [] ps = refl
member-merge_roles p (role ∷ rest) ps =
    member-merge_presets p role.presets (merge_roles rest ps)
    ∙ ap (λ b. in_presets p role.presets || b) (member-merge_roles p rest ps)
    ∙ or_assoc (in_presets p role.presets) (in_roles p rest) (member p ps)

or_false : (b : Bool) → (b || false) ≡ b
or_false true = refl
or_false false = refl

member-place :
    (p q : String) (ps : List String) → member p (place q ps) ≡ (str_eq p q || member p ps)
unfolding place
member-place p q [] = refl
member-place p q (r ∷ rs) = elim (Bool-cases (before r q)) [
  | inl e ↦ rw e (
      ap (λ b. str_eq p r || b) (member-place p q rs)
      ∙ swap (str_eq p r) (str_eq p q) (member p rs))
  | inr e ↦ rw e refl
]
  where
    swap : (a b c : Bool) → (a || (b || c)) ≡ (b || (a || c))
    swap true true c = refl
    swap true false c = refl
    swap false b c = refl

member-sorted : (p : String) (ps : List String) → member p (sorted ps) ≡ member p ps
unfolding sorted
member-sorted p [] = refl
member-sorted p (q ∷ qs) =
    member-place p q (sorted qs) ∙ ap (λ b. str_eq p q || b) (member-sorted p qs)

-- A role has a permission exactly when one of its presets names it.
pub role_has_permission-in_presets :
    (role : ProjectTeamRole) (p : String) → role_has_permission role p ≡ in_presets p role.presets
unfolding role_has_permission get_effective_permissions
role_has_permission-in_presets role p =
    member-sorted p (merge_presets role.presets [])
    ∙ member-merge_presets p role.presets []
    ∙ or_false (in_presets p role.presets)

module _ {E : Type 0} (repos : Repos E) where
  open repos use {has_permission_in_project, get_user_teams_in_project}

  -- The flags that `GetProjectPermissions` shows are the answers of the checks, for a user whose
  -- roles the repository returns and whose permissions its query finds in their presets.
  pub shown-checked :
      (project : ℕ) (user : User) (roles : List ProjectTeamRole)
      → get_user_teams_in_project project user.id ≡ ok roles
      → ((p : String) → has_permission_in_project project user.id p ≡ ok (in_roles p roles))
      → let shown = get_project_permissions repos project user in
        (shown.can_manage_domain_templates ≡ can_manage_domain_templates repos project user)
        × (shown.can_manage_domains ≡ can_manage_domains repos project user)
        × (shown.can_manage_teams ≡ can_manage_teams repos project user)
        × (shown.can_create_routes ≡ can_create_routes repos project user)
        × (shown.can_approve_routes ≡ can_approve_routes repos project user)
        × (shown.can_view_audit ≡ can_view_audit repos project user)
  unfolding get_project_permissions can_manage_domain_templates can_manage_domains can_manage_teams
      can_create_routes can_approve_routes can_view_audit has_permission
  shown-checked project user roles found queried = (
    templates user.is_owner (is_project_admin repos project user.id),
    above perm_domain_delete,
    above perm_project_teams,
    flag perm_route_create user.is_owner (is_project_admin repos project user.id),
    flag perm_route_approve user.is_owner (is_project_admin repos project user.id),
    above perm_audit_view,
  )
    where
      templates : (o a : Bool) → (o || a) ≡ (if o then true else a)
      templates true a = refl
      templates false a = refl

      queried_flag : String → Bool
      queried_flag perm = affirmed (has_permission_in_project project user.id perm)

      shown : String → Bool
      shown perm = member perm (merged repos (get_user_teams_in_project project user.id))

      same : (perm : String) → shown perm ≡ queried_flag perm
      same perm =
          ap (λ o. member perm (merged repos o)) found
          ∙ member-merge_roles perm roles []
          ∙ or_false (in_roles perm roles)
          ∙ ap (λ o. affirmed o) (sym (queried perm))

      flag :
          (perm : String) (o a : Bool)
          → ((o || a)
              || member perm (
                  if o || a
                  then all_permissions
                  else merged repos (get_user_teams_in_project project user.id)))
            ≡ (if o then true else if a then true else queried_flag perm)
      flag perm true a = refl
      flag perm false true = refl
      flag perm false false = same perm

      late :
          (o a b : Bool)
          → (if o then true else if a then true else b)
            ≡ (if o || a then true else if o then true else if a then true else b)
      late true a b = refl
      late false true b = refl
      late false false b = refl

      above :
          (perm : String)
          → ((user.is_owner || is_project_admin repos project user.id)
              || member perm (
                  if user.is_owner || is_project_admin repos project user.id
                  then all_permissions
                  else merged repos (get_user_teams_in_project project user.id)))
            ≡ (if user.is_owner || is_project_admin repos project user.id
                then true
                else has_permission repos project user perm)
      above perm =
          flag perm user.is_owner (is_project_admin repos project user.id)
          ∙ late user.is_owner (is_project_admin repos project user.id) (queried_flag perm)
