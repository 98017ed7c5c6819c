-- ===== src/Security/Examples.antt =====
-- The theorems on the policy at concrete principals.
use monogo.Base.{
  ◌≡◌, ◌≢◌, ◌↔◌, ◌⊎◌, refl, true, false, [], ◌∷◌, List, none, some, Text, codes, text_eq,
}
use monogo.Security.Authz.{
  role_owner, role_admin, role_member, allows, is_valid_role, is_valid_permission, Principal, guard,
  scoped_guard, has, permission_members_read, member_allows, valid,
}
use monogo.Security.Authz.Policy.{
  permission_names, allows-order, allows-valid, scoped_guard-true_iff,
}

abbrev token : Principal
token = record {
  subject = record { id = 5; type = codes "user" };
  role = role_member;
  scopes = some (codes "calls:read" ∷ []);
}

-- The role is enough, the credential is not.
scoped_guard_test : scoped_guard token permission_members_read (codes "members:read") ≡ false
unfolding scoped_guard valid allows member_allows has text_eq
scoped_guard_test = refl

allows-order_example :
    ((allows role_member permission_members_read ≡ true) ↔ (
      (permission_members_read ≡ codes "organization:read")
      ⊎ (permission_members_read ≡ codes "members:read")))
    × (allows role_member permission_members_read ≡ true
        → allows role_admin permission_members_read ≡ true)
    × ((allows role_admin permission_members_read ≡ true) ↔ (
        (allows role_owner permission_members_read ≡ true)
        × (permission_members_read ≢ codes "organization:delete")))
allows-order_example = allows-order permission_members_read

allows-valid_example :
    (is_valid_role role_member ≡ true)
    × (is_valid_permission permission_members_read ≡ true)
    × (has permission_members_read permission_names ≡ true)
unfolding allows member_allows has text_eq
allows-valid_example = allows-valid role_member permission_members_read refl

scoped_guard-true_iff_example :
    (scoped_guard token permission_members_read (codes "members:read") ≡ true) ↔ (
      (guard token permission_members_read ≡ true)
      × ((token.scopes ≡ none)
          ⊎ ((ss : List Text) × (token.scopes ≡ some ss) × (has (codes "members:read") ss ≡ true))))
scoped_guard-true_iff_example =
    scoped_guard-true_iff token permission_members_read (codes "members:read")
