-- ===== src/Gateway/Auth/Permissions.antt =====
-- Which permissions a role has.
use url_copilot.Prelude.{
  In, In-sorted_union, List, Option-cases, String, [], arith, inl, inr, none, refl, some,
  sorted_union, suc, zero, ℕ, ◌<◌, ◌↔◌, ◌≡◌, ◌⊎◌,
}
use url_copilot.Gateway.Auth.{Roles, expand_permissions, own_permissions, parent_of}

-- The chain of `inherits`, read as a relation: a role has what it lists and what its parent has.
pub data Grants (rbac : Roles) : String → String → Type 0 where
  own : (role : String) {p : String} → In p (own_permissions rbac role) → Grants rbac role p
  inherited :
      (role : String) {parent p : String}
      → parent_of rbac role ≡ some parent
      → Grants rbac parent p
      → Grants rbac role p

expand_sound :
    (depth : ℕ) (rbac : Roles) (role p : String) (ps : List String)
    → expand_permissions depth rbac role ≡ some ps
    → In p ps
    → Grants rbac role p
unfolding expand_permissions
expand_sound zero rbac role p ps h i = cc
expand_sound (suc depth) rbac role p ps h i = elim (Option-cases (parent_of rbac role)) [
  | inl root ↦ own role (ground (arith, In-sorted_union p (own_permissions rbac role) []))
  | inr (parent, e) ↦ elim (Option-cases (expand_permissions depth rbac parent)) [
    | inl deep ↦ absurd (ground arith)
    | inr (qs, f) ↦
        let split : In p (own_permissions rbac role) ⊎ In p qs = ground (
          arith,
          In-sorted_union p (sorted_union (own_permissions rbac role) []) qs,
          In-sorted_union p (own_permissions rbac role) [],
        ) in
        elim split [
          | inl listed ↦ own role listed
          | inr passed_on ↦ inherited role e (expand_sound depth rbac parent p qs f passed_on)
        ]
  ]
]

expand_complete :
    (rbac : Roles) {role p : String} (depth : ℕ) (ps : List String)
    → Grants rbac role p
    → expand_permissions depth rbac role ≡ some ps
    → In p ps
unfolding expand_permissions
expand_complete rbac zero ps g h = cc
expand_complete rbac {p = p} (suc depth) ps (own role i) h =
    elim (Option-cases (parent_of rbac role)) [
      | inl root ↦ ground (arith, In-sorted_union p (own_permissions rbac role) [])
      | inr (parent, e) ↦ elim (Option-cases (expand_permissions depth rbac parent)) [
        | inl deep ↦ absurd (ground arith)
        | inr (qs, f) ↦ ground (
          arith,
          In-sorted_union p (sorted_union (own_permissions rbac role) []) qs,
          In-sorted_union p (own_permissions rbac role) [],
        )
      ]
    ]
expand_complete rbac {p = p} (suc depth) ps (inherited role {parent} e g) h =
    elim (Option-cases (expand_permissions depth rbac parent)) [
      | inl deep ↦ absurd (ground arith)
      | inr (qs, f) ↦ ground (
        arith,
        In-sorted_union p (sorted_union (own_permissions rbac role) []) qs,
        expand_complete rbac depth qs g f,
      )
    ]

-- The list that `_expand_permissions` returns holds exactly what the role lists and what the roles
-- up its chain of parents list.
expand_permissions_exact :
    (depth : ℕ) (rbac : Roles) (role : String) (ps : List String)
    → expand_permissions depth rbac role ≡ some ps
    → (p : String) → In p ps ↔ Grants rbac role p
expand_permissions_exact depth rbac role ps h p =
    (λ i. expand_sound depth rbac role p ps h i, λ g. expand_complete rbac depth ps g h)

-- If the chains of parents go down in some rank, the recursion ends, within the rank of the role.
expand_permissions_total :
    (rank : String → ℕ) (rbac : Roles)
    → ((role parent : String) → parent_of rbac role ≡ some parent → rank parent < rank role)
    → (depth : ℕ) (role : String) → rank role < depth
    → (ps : List String) × (expand_permissions depth rbac role ≡ some ps)
unfolding expand_permissions
expand_permissions_total rank rbac down zero role h = absurd (omega arith)
expand_permissions_total rank rbac down (suc depth) role h =
    elim (Option-cases (parent_of rbac role)) [
      | inl root ↦ (sorted_union (own_permissions rbac role) [], ground arith)
      | inr (parent, e) ↦
          let below = down role parent e in
          let (qs, f) = expand_permissions_total rank rbac down depth parent (omega arith) in
          (sorted_union (sorted_union (own_permissions rbac role) []) qs, ground arith)
    ]

-- If the chains of parents go down in some rank and the depth of calls is above the rank of the role,
-- `_expand_permissions` returns, and its list holds exactly what the role lists and what the roles up
-- its chain of parents list.
pub expand_permissions-Grants :
    (rank : String → ℕ) (rbac : Roles)
    → ((role parent : String) → parent_of rbac role ≡ some parent → rank parent < rank role)
    → (depth : ℕ) (role : String) → rank role < depth
    → (ps : List String) × (expand_permissions depth rbac role ≡ some ps)
      × ((p : String) → In p ps ↔ Grants rbac role p)
expand_permissions-Grants rank rbac down depth role enough =
    let (ps, returned) = expand_permissions_total rank rbac down depth role enough in
    (ps, returned, expand_permissions_exact depth rbac role ps returned)

-- A role that is its own parent is expanded at no depth.
pub expand_permissions_cycle :
    (rbac : Roles) (role : String)
    → parent_of rbac role ≡ some role
    → (depth : ℕ) → expand_permissions depth rbac role ≡ none
unfolding expand_permissions
expand_permissions_cycle rbac role e zero = refl
expand_permissions_cycle rbac role e (suc depth) =
    ground (arith, expand_permissions_cycle rbac role e depth)
