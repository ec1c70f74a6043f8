-- ===== src/Permissions/Scopes.antt =====
-- The scope tables of app/auth/permissions.py and `validate_scopes_for_kind`. A frozenset is a list
-- of texts in sorted order. What `str.strip` takes for a space is a parameter.
use rapid_inbox.Base.{
  ℕ, Bool, not, Option, none, some, List, [], ◌∷◌, ◌++◌, length, any, ltb, eqb, if◌then◌else◌, Text,
  codes, text_eq, strip_by,
}
use rapid_inbox.Base.Result.{Result, ok, err, ◌>>=◌}

abbrev pub public_api_key_scopes : List Text
public_api_key_scopes = codes "public.read" ∷ []

abbrev pub service_api_key_scopes : List Text
service_api_key_scopes =
    codes "audit.read"
    ∷ codes "domains.read"
    ∷ codes "domains.write"
    ∷ codes "live.read"
    ∷ codes "mailboxes.read"
    ∷ codes "mailboxes.write"
    ∷ codes "messages.read"
    ∷ codes "messages.write"
    ∷ codes "public.read"
    ∷ codes "smtp.read"
    ∷ codes "system.read"
    ∷ []

abbrev pub admin_api_key_scopes : List Text
admin_api_key_scopes =
    codes "admins.credentials.write"
    ∷ codes "admins.read"
    ∷ codes "admins.sessions.write"
    ∷ codes "admins.write"
    ∷ codes "api_keys.read"
    ∷ codes "api_keys.write"
    ∷ codes "audit.read"
    ∷ codes "domains.read"
    ∷ codes "domains.write"
    ∷ codes "live.read"
    ∷ codes "mailboxes.read"
    ∷ codes "mailboxes.write"
    ∷ codes "messages.read"
    ∷ codes "messages.write"
    ∷ codes "public.read"
    ∷ codes "smtp.read"
    ∷ codes "system.read"
    ∷ codes "system.write"
    ∷ []

-- the union of the three tables, which is the largest
abbrev pub valid_api_key_scopes : List Text
valid_api_key_scopes = admin_api_key_scopes

-- `API_KEY_KIND_SCOPES.get`
unfoldable pub kind_scopes : Text → Option (List Text)
kind_scopes kind =
    if text_eq kind (codes "public")
    then some public_api_key_scopes
    else if text_eq kind (codes "service")
    then some service_api_key_scopes
    else if text_eq kind (codes "admin")
    then some admin_api_key_scopes
    else none

abbrev pub viewer_scopes : List Text
viewer_scopes =
    codes "admins.read"
    ∷ codes "api_keys.read"
    ∷ codes "audit.read"
    ∷ codes "domains.read"
    ∷ codes "live.read"
    ∷ codes "mailboxes.read"
    ∷ codes "messages.read"
    ∷ codes "smtp.read"
    ∷ codes "system.read"
    ∷ []

abbrev pub operator_scopes : List Text
operator_scopes =
    codes "admins.read"
    ∷ codes "api_keys.read"
    ∷ codes "audit.read"
    ∷ codes "domains.read"
    ∷ codes "domains.write"
    ∷ codes "live.read"
    ∷ codes "mailboxes.read"
    ∷ codes "mailboxes.write"
    ∷ codes "messages.read"
    ∷ codes "messages.write"
    ∷ codes "smtp.read"
    ∷ codes "system.read"
    ∷ []

-- `ROLE_SCOPES.get`
unfoldable pub role_scopes : Text → Option (List Text)
role_scopes role =
    if text_eq role (codes "viewer")
    then some viewer_scopes
    else if text_eq role (codes "operator")
    then some operator_scopes
    else if text_eq role (codes "superadmin")
    then some admin_api_key_scopes
    else none

-- `s in collection`
abbrev pub has : Text → List Text → Bool
has s xs = any (text_eq s) xs

pub data ScopeError : Type 0 where
  invalid_kind too_many empty_scope unknown_scope forbidden_scope none_given : ScopeError

-- the loop of `validate_scopes_for_kind`; `normalized` holds what `seen` holds, in order
unfoldable pub normalize_scopes :
    (ℕ → Bool) → List Text → List Text → List Text → List Text → Result ScopeError (List Text)
normalize_scopes is_space valid allowed normalized [] = ok normalized
normalize_scopes is_space valid allowed normalized (raw ∷ scopes) =
    let scope = strip_by is_space raw in
    let seen = normalize_scopes is_space valid allowed normalized scopes in
    let added = normalize_scopes is_space valid allowed (normalized ++ scope ∷ []) scopes in
    if eqb (length scope) 0
    then err empty_scope
    else if not (has scope valid)
    then err unknown_scope
    else if not (has scope allowed)
    then err forbidden_scope
    else if has scope normalized
    then seen
    else added

abbrev pub some_scopes : List Text → Result ScopeError (List Text)
some_scopes [] = err none_given
some_scopes (s ∷ scopes) = ok (s ∷ scopes)

abbrev pub validate_allowed :
    (ℕ → Bool) → List Text → Option (List Text) → Result ScopeError (List Text)
validate_allowed is_space scopes none = err invalid_kind
validate_allowed is_space scopes (some allowed) =
    if ltb 100 (length scopes)
    then err too_many
    else (normalize_scopes is_space valid_api_key_scopes allowed [] scopes >>= some_scopes)

unfoldable pub validate_scopes_for_kind :
    (ℕ → Bool) → Text → List Text → Result ScopeError (List Text)
unfolding normalize_scopes kind_scopes
validate_scopes_for_kind is_space kind scopes = validate_allowed is_space scopes (kind_scopes kind)
