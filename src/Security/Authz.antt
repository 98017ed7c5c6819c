-- ===== src/Security/Authz.antt =====
-- server/internal/security/authz: roles, permissions and scopes are the Go strings, as text.
pub mod Policy
use monogo.Base.{
  ℕ, Bool, true, false, not, ◌&&◌, ◌||◌, List, [], ◌∷◌, Option, none, some, Text, codes, is_empty,
  text_eq, ◌==◌, if◌then◌else◌,
}

abbrev pub role_owner : Text
role_owner = codes "owner"

abbrev pub role_admin : Text
role_admin = codes "admin"

abbrev pub role_member : Text
role_member = codes "member"

abbrev pub permission_organization_read : Text
permission_organization_read = codes "organization:read"

abbrev pub permission_organization_update : Text
permission_organization_update = codes "organization:update"

abbrev pub permission_organization_delete : Text
permission_organization_delete = codes "organization:delete"

abbrev pub permission_members_read : Text
permission_members_read = codes "members:read"

abbrev pub permission_members_add : Text
permission_members_add = codes "members:add"

abbrev pub permission_members_update : Text
permission_members_update = codes "members:update"

abbrev pub permission_members_remove : Text
permission_members_remove = codes "members:remove"

abbrev pub permission_credentials_read : Text
permission_credentials_read = codes "credentials:read"

abbrev pub permission_credentials_create : Text
permission_credentials_create = codes "credentials:create"

abbrev pub permission_credentials_revoke : Text
permission_credentials_revoke = codes "credentials:revoke"

-- A `switch` over strings, or a search for one.
unfoldable pub has : Text → List Text → Bool
has t [] = false
has t (s ∷ ss) = text_eq t s || has t ss

-- `Role.IsValid`.
unfoldable pub is_valid_role : Text → Bool
unfolding has
is_valid_role role = has role (role_owner ∷ role_admin ∷ role_member ∷ [])

-- `Permission.IsValid`.
unfoldable pub is_valid_permission : Text → Bool
unfolding has
is_valid_permission p = has p (
    permission_organization_read ∷ permission_organization_update ∷ permission_organization_delete
    ∷ permission_members_read ∷ permission_members_add ∷ permission_members_update
    ∷ permission_members_remove ∷ permission_credentials_read ∷ permission_credentials_create
    ∷ permission_credentials_revoke ∷ [])

-- The cases of an admin and of a member.
unfoldable pub admin_allows : Text → Bool
unfolding has
admin_allows p = has p (
    permission_organization_read ∷ permission_organization_update ∷ permission_members_read
    ∷ permission_members_add ∷ permission_members_update ∷ permission_members_remove
    ∷ permission_credentials_read ∷ permission_credentials_create ∷ permission_credentials_revoke
    ∷ [])

unfoldable pub member_allows : Text → Bool
unfolding has
member_allows p = has p (permission_organization_read ∷ permission_members_read ∷ [])

unfoldable pub allows : Text → Text → Bool
allows role permission =
    if text_eq role role_owner
    then is_valid_permission permission
    else if text_eq role role_admin
    then admin_allows permission
    else if text_eq role role_member
    then member_allows permission
    else false

-- `authn.Subject` and what `authz.Principal` uses of `authn.Principal`. A nil slice of scopes is
-- `none`.
pub record Subject : Type 0 where
  pub id : ℕ
  pub type : Text

pub record Principal : Type 0 where
  pub subject : Subject
  pub role : Text
  pub scopes : Option (List Text)

-- `Principal.Valid`.
unfoldable pub valid : Principal → Bool
valid p = not (p.subject.id == 0) && not (is_empty p.subject.type)

-- `Access.Allows` and `Guard`.
unfoldable pub guard : Principal → Text → Bool
guard p permission = if not (valid p) then false else allows p.role permission

abbrev granted_scope : Option (List Text) → Text → Bool
granted_scope none scope = true
granted_scope (some scopes) scope = has scope scopes

-- `Access.AllowsScoped` and `ScopedGuard`.
unfoldable pub scoped_guard : Principal → Text → Text → Bool
scoped_guard p permission scope =
    if not (valid p) || not (allows p.role permission) then false else granted_scope p.scopes scope
