-- ===== src/Gateway/Auth.antt =====
-- orchestrator/gateway/auth.py: tokens, roles and inherited permissions. The two YAML files enter
-- as the dictionaries that `yaml.safe_load` gives.
pub mod Permissions
use url_copilot.Prelude.{
  Dict, List, Option, Result, String, [], if◌then◌else◌, lookup, nat_eq, none, ok, or_raise, pos,
  some, sorted_union, string_eq, suc, zero, ℕ, ℤ, ◌==◌, ◌>>=◌, ◌>>◌,
}

pub record Profile : Type 0 where
  pub github_login : String
  pub email : String
  pub role : String

pub record RoleConfig : Type 0 where
  pub permissions : List String
  pub inherits : Option String
  pub daily_token_budget : Option ℤ

pub record CurrentUser : Type 0 where
  pub github_login : String
  pub email : String
  pub role : String
  pub permissions : List String
  pub daily_token_budget : ℤ

-- `recursion_error` is Python's, raised where the calls go deeper than its limit.
pub data AuthError : Type 0 where
  authentication_error key_error recursion_error : AuthError

abbrev pub Roles : Type 0
Roles = Dict String RoleConfig

-- `self._rbac.get(role, {}).get("permissions", [])`
abbrev pub own_permissions : Roles → String → List String
own_permissions rbac role = elim (lookup role rbac) [ none ↦ [] | some c ↦ c.permissions ]

-- the parent, where `if parent:` holds: an empty name is no parent
abbrev pub named : Option String → Option String
named none = none
named (some p) = if p == "" then none else some p

abbrev pub parent_of : Roles → String → Option String
parent_of rbac role = elim (lookup role rbac) [ none ↦ none | some c ↦ named c.inherits ]

-- `_expand_permissions`; the fuel is the depth of calls that Python allows
unfoldable pub expand_permissions : ℕ → Roles → String → Option (List String)
expand_permissions zero rbac role = none
expand_permissions (suc depth) rbac role =
    let own = sorted_union (own_permissions rbac role) [] in
    elim (parent_of rbac role) [
      | none ↦ some own
      | some parent ↦ elim (expand_permissions depth rbac parent) [
        | none ↦ none
        | some inherited ↦ some (sorted_union own inherited)
      ]
    ]

abbrev pub default_budget : ℤ
default_budget = pos 50_000

abbrev pub budget_of : RoleConfig → ℤ
budget_of c = elim c.daily_token_budget [ none ↦ default_budget | some b ↦ b ]

unfoldable pub resolve : ℕ → Dict String Profile → Roles → String → Result AuthError CurrentUser
resolve depth users rbac token = do
  profile ← or_raise (lookup token users) authentication_error
  permissions ← or_raise (expand_permissions depth rbac profile.role) recursion_error
  config ← or_raise (lookup profile.role rbac) key_error
  ok (record {
    github_login = profile.github_login;
    email = profile.email;
    role = profile.role;
    permissions = permissions;
    daily_token_budget = budget_of config;
  })
