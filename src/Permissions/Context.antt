-- ===== src/Permissions/Context.antt =====
-- `PermissionContext`, the point checks and the role contexts of app/auth/permissions.py. A denial is a value.
use rapid_inbox.Base.{
  ℕ, Bool, true, false, not, ◌&&◌, Option, none, some, List, [], ◌∷◌, ◌++◌, any, eqb, if◌then◌else◌,
  Text, codes, text_eq,
}
use rapid_inbox.Base.Result.{Result, ok, err, ◌>>◌}
use rapid_inbox.Permissions.Scopes.{has, role_scopes, valid_api_key_scopes}
use rapid_inbox.Permissions.Glob.{mailbox_pattern_matches}

pub record PermissionContext : Type 0 where
  pub scopes : List Text
  pub domain_ids : List ℕ
  pub mailbox_patterns : List Text
  pub domain_grant_mode : Text
  pub api_key_id : Option ℕ
  pub public_id : Text
  pub name : Text
  pub kind : Text
  pub legacy_credential : Bool
  pub rate_limit_per_min : ℕ
  pub allowed_ip_cidrs : List Text
  pub expires_at : Option Text
  pub allow_header : Bool
  pub allow_query : Bool
  pub admin_id : Option ℕ
  pub admin_session_id : Option Text

-- `PermissionDenied`, and the ValueError of `require_admin_role_scope`
pub data Denial : Type 0 where
  scope_missing domain_missing invalid_mode mailbox_missing invalid_role unknown_scope : Denial

abbrev pub mode_all : Text
mode_all = codes "all"

abbrev pub mode_selected : Text
mode_selected = codes "selected"

abbrev pub mode_none : Text
mode_none = codes "none"

-- `domain_id in domain_ids`
abbrev pub has_id : ℕ → List ℕ → Bool
has_id k ids = any (eqb k) ids

unfoldable pub check_domain : PermissionContext → ℕ → Result Denial (Unit {0})
check_domain grants domain_id =
    if text_eq grants.domain_grant_mode mode_all
    then ok tt
    else if text_eq grants.domain_grant_mode mode_selected
    then (if has_id domain_id grants.domain_ids then ok tt else err domain_missing)
    else if text_eq grants.domain_grant_mode mode_none
    then err domain_missing
    else err invalid_mode

abbrev pub is_nil : List Text → Bool
is_nil [] = true
is_nil (_ ∷ _) = false

unfoldable pub check_mailbox : List Text → Text → Result Denial (Unit {0})
unfolding mailbox_pattern_matches
check_mailbox patterns mailbox_address =
    if not (is_nil patterns) && not (any (mailbox_pattern_matches mailbox_address) patterns)
    then err mailbox_missing
    else ok tt

unfoldable pub ensure_mailbox_access :
    PermissionContext → Text → ℕ → Text → Result Denial (Unit {0})
unfolding check_domain check_mailbox
ensure_mailbox_access grants mailbox_address domain_id required_scope =
    if not (has required_scope grants.scopes)
    then err scope_missing
    else if grants.legacy_credential
    then ok tt
    else (check_domain grants domain_id >> check_mailbox grants.mailbox_patterns mailbox_address)

abbrev role_context : Text → Option (List Text) → Result Denial PermissionContext
role_context role none = err invalid_role
role_context role (some scopes) = ok (record {
  scopes = scopes;
  domain_ids = [];
  mailbox_patterns = [];
  domain_grant_mode = mode_all;
  api_key_id = none;
  public_id = codes "role:" ++ role;
  name = role;
  kind = codes "admin";
  legacy_credential = false;
  rate_limit_per_min = 0;
  allowed_ip_cidrs = [];
  expires_at = none;
  allow_header = true;
  allow_query = true;
  admin_id = none;
  admin_session_id = none;
})

-- `role_permission_context` of a role's name
unfoldable pub role_permission_context : Text → Result Denial PermissionContext
unfolding role_scopes
role_permission_context role = role_context role (role_scopes role)

-- `require_admin_role_scope` of a context
unfoldable pub require_admin_role_scope : PermissionContext → Text → Result Denial PermissionContext
require_admin_role_scope context required_scope =
    if not (has required_scope valid_api_key_scopes)
    then err unknown_scope
    else if not (has required_scope context.scopes)
    then err scope_missing
    else ok context
