-- ===== src/Security/Authz/Policy.antt =====
-- What the policy grants.
use monogo.Base.{
  ◌≡◌, ◌≢◌, ◌↔◌, ◌⊎◌, inl, inr, refl, true, false, List, [], ◌∷◌, none, some, Text, codes, text_eq,
  eq_of_text_eq, arith, Bool-cases, sym, ◌∙◌,
}
use mathlib.Core.Bool.{true≢false}
use monogo.Security.Authz.{
  role_owner, role_admin, role_member, has, is_valid_role, is_valid_permission, admin_allows,
  member_allows, allows, Principal, guard, scoped_guard, permission_organization_delete,
  permission_organization_read, permission_members_read,
}

owner-allows : (p : Text) → allows role_owner p ≡ is_valid_permission p
unfolding allows text_eq
owner-allows p = refl

admin-allows : (p : Text) → allows role_admin p ≡ admin_allows p
unfolding allows text_eq
admin-allows p = refl

member-allows : (p : Text) → allows role_member p ≡ member_allows p
unfolding allows text_eq
member-allows p = refl

member_admin : (p : Text) → member_allows p ≡ true → admin_allows p ≡ true
unfolding member_allows admin_allows has
member_admin p h = ground arith

admin_owner : (p : Text) → admin_allows p ≡ true → is_valid_permission p ≡ true
unfolding is_valid_permission admin_allows has
admin_owner p h = ground arith

deletes : (p : Text) → p ≡ permission_organization_delete → admin_allows p ≡ false
unfolding admin_allows has text_eq
deletes p h = rw h refl

not_deletes :
    (p : Text)
    → is_valid_permission p ≡ true
    → text_eq p permission_organization_delete ≡ false
    → admin_allows p ≡ true
unfolding is_valid_permission admin_allows has
not_deletes p h n = ground arith

-- What the list of a member's cases lets through.
member_iff :
    (p : Text)
    → (member_allows p ≡ true) ↔ ((p ≡ codes "organization:read") ⊎ (p ≡ codes "members:read"))
unfolding member_allows has text_eq
member_iff p = (
  λ h. elim (Bool-cases (text_eq p permission_organization_read)) [
    | inl e ↦ inl (eq_of_text_eq p _ e)
    | inr n ↦ elim (Bool-cases (text_eq p permission_members_read)) [
      | inl e ↦ inr (eq_of_text_eq p _ e)
      | inr m ↦ absurd (true≢false (sym h ∙ neither n m))
    ]
  ],
  λ h. elim h [ inl e ↦ rw e refl | inr e ↦ rw e refl ],
)
  where
    neither :
        text_eq p permission_organization_read ≡ false
        → text_eq p permission_members_read ≡ false
        → member_allows p ≡ false
    neither n m = rw n (rw m refl)

-- A member is granted the reading of the organization and of its members, and nothing else; an admin
-- these too. What the admin lacks of the owner's permissions is the deletion of the organization, and
-- that alone.
pub allows-order :
    (p : Text)
    → ((allows role_member p ≡ true)
        ↔ ((p ≡ codes "organization:read") ⊎ (p ≡ codes "members:read")))
      × (allows role_member p ≡ true → allows role_admin p ≡ true)
      × ((allows role_admin p ≡ true)
          ↔ ((allows role_owner p ≡ true) × (p ≢ codes "organization:delete")))
allows-order p = (
  (λ h. (member_iff p).0 (sym (member-allows p) ∙ h), λ h. member-allows p ∙ (member_iff p).1 h),
  λ h. admin-allows p ∙ member_admin p (sym (member-allows p) ∙ h),
  (
    λ h. (
      owner-allows p ∙ admin_owner p (sym (admin-allows p) ∙ h),
      λ e. true≢false (sym h ∙ admin-allows p ∙ deletes p e),
    ),
    λ h. elim (Bool-cases (text_eq p permission_organization_delete)) [
      | inl same ↦ absurd (h.1 (eq_of_text_eq p permission_organization_delete same))
      | inr other ↦ admin-allows p ∙ not_deletes p (sym (owner-allows p) ∙ h.0) other
    ],
  ),
)

member-valid : (p : Text) → member_allows p ≡ true → is_valid_permission p ≡ true
member-valid p h = admin_owner p (member_admin p h)

-- The permissions that there are.
abbrev pub permission_names : List Text
permission_names =
    codes "organization:read"
    ∷ codes "organization:update"
    ∷ codes "organization:delete"
    ∷ codes "members:read"
    ∷ codes "members:add"
    ∷ codes "members:update"
    ∷ codes "members:remove"
    ∷ codes "credentials:read"
    ∷ codes "credentials:create"
    ∷ codes "credentials:revoke"
    ∷ []

granted_valid :
    (role p : Text)
    → allows role p ≡ true
    → (is_valid_role role ≡ true) × (is_valid_permission p ≡ true)
unfolding allows is_valid_role has
granted_valid role p h = ground (arith, admin_owner p, member-valid p)

valid_named : (p : Text) → is_valid_permission p ≡ true → has p permission_names ≡ true
unfolding is_valid_permission has
valid_named p h = h

-- Only the three roles are granted anything, and only permissions that exist: ten, by name.
pub allows-valid :
    (role p : Text)
    → allows role p ≡ true
    → (is_valid_role role ≡ true) × (is_valid_permission p ≡ true) × (has p permission_names ≡ true)
allows-valid role p h =
    let (known, valid) = granted_valid role p h in (known, valid, valid_named p valid)

-- A scoped guard lets a principal through exactly if the plain guard does and its credential
-- either is not limited to scopes or lists the one that is asked for.
pub scoped_guard-true_iff :
    (p : Principal) (permission scope : Text)
    → (scoped_guard p permission scope ≡ true) ↔ (
        (guard p permission ≡ true)
        × ((p.scopes ≡ none) ⊎ ((ss : List Text) × (p.scopes ≡ some ss) × (has scope ss ≡ true))))
unfolding scoped_guard guard
scoped_guard-true_iff p permission scope = ground arith
