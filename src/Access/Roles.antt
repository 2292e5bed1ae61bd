-- ===== src/Access/Roles.antt =====
-- Lemmas on `authorize` and `may_grant` of domain/identity.py and domain/tenancy.py.
use patch_quest.Common.{
  String, ◌≡◌, refl, sym, ap, ◌∙◌, ◌≢◌, ◌↔◌, inl, inr, Bool, true, false, not, some, List, [], ◌∷◌,
  ◌++◌, arith, ◌==◌, Bool-cases, Option-cases, first, any, All, contains, subst, nat_eq, string_eq,
}
use patch_quest.Policy.{lookup}
use patch_quest.Access.{
  Role, role_eq, Role-discrete, owner, admin, developer, operator, viewer, service, Permission,
  permission_eq, Permission-discrete, org_manage, members_manage, role_permissions, Principal,
  role_in, can, granted, authorize, may_grant, role_strength, strongest,
}

-- The role that a dict of roles holds for a workspace: the first entry whose key is that workspace.
pub record HasRole (roles : List (String × Role)) (workspace : String) (r : Role) : Type 0 where
  pub front : List (String × Role)
  pub back : List (String × Role)
  pub entry : roles ≡ front ++ (workspace, r) ∷ back
  pub elsewhere : All (λ e. e.0 ≢ workspace) front

lookup-HasRole :
    (roles : List (String × Role)) (workspace : String) (r : Role)
    → lookup roles workspace ≡ some r
    → HasRole roles workspace r
unfolding lookup
lookup-HasRole [] workspace r h = absurd (cc h)
lookup-HasRole ((k, q) ∷ roles) workspace r h = elim (Bool-cases (k == workspace)) [
  | inl y ↦
      let key : k ≡ workspace = (string_eq.same_iff k workspace).0 y in
      let role : q ≡ r = cc (rw y at h) in
      record { front = []; back = roles; entry = cc (key, role); elsewhere = tt }
  | inr n ↦
      let rest = lookup-HasRole roles workspace r (rw n at h) in
      record {
        front = (k, q) ∷ rest.front;
        back = rest.back;
        entry = ap (λ xs. (k, q) ∷ xs) rest.entry;
        elsewhere = (λ e. absurd (cc (n, (string_eq.same_iff k workspace).1 e)), rest.elsewhere);
      }
]

HasRole-lookup :
    (front back : List (String × Role)) (workspace : String) (r : Role)
    → All (λ e. e.0 ≢ workspace) front
    → lookup (front ++ (workspace, r) ∷ back) workspace ≡ some r
unfolding lookup
HasRole-lookup [] back workspace r h =
    rw (lookup, (string_eq.same_iff workspace workspace).1 refl) refl
HasRole-lookup ((k, q) ∷ front) back workspace r h = elim (Bool-cases (k == workspace)) [
  | inl y ↦ absurd (h.0 ((string_eq.same_iff k workspace).0 y))
  | inr n ↦ rw (lookup, n) (HasRole-lookup front back workspace r h.1)
]

role_in_iff :
    (p : Principal) (workspace : String) (r : Role)
    → (role_in p workspace ≡ some r) ↔ HasRole p.roles workspace r
unfolding role_in
role_in_iff p workspace r = (
  lookup-HasRole p.roles workspace r,
  λ h. ap (λ d. lookup d workspace) h.entry ∙ HasRole-lookup h.front h.back workspace r h.elsewhere,
)

granted_iff :
    (p : Principal) (permission : Permission) (workspace : String)
    → (authorize p permission workspace ≡ granted)
      ↔ ((r : Role) × (role_in p workspace ≡ some r) × (role_permissions r permission ≡ true))
unfolding authorize can
granted_iff p permission workspace = elim (Option-cases (role_in p workspace)) [
  | inl nobody ↦
      (λ h. absurd (cc (rw (authorize, can, nobody) at h)), λ (r, e, y). absurd (cc (nobody, e)))
  | inr (r, e) ↦ elim (Bool-cases (role_permissions r permission)) [
    | inl y ↦ (λ h. (r, e, y), λ _. rw (authorize, can, e) (rw y refl))
    | inr n ↦ (
      λ h. absurd (cc (rw n at (rw (authorize, can, e) at h))),
      λ (q, f, y).
          let same' : r ≡ q = ground arith in
          let z : role_permissions r permission ≡ true =
            subst (λ w. role_permissions w permission ≡ true) (sym same') y in
          absurd (cc (n, z)),
    )
  ]
]

-- Access is granted exactly when the principal's roles hold an entry for that workspace, the first of
-- its key, whose role has the permission: an entry for another workspace gives nothing.
pub authorize_iff :
    (p : Principal) (permission : Permission) (workspace : String)
    → (authorize p permission workspace ≡ granted)
      ↔ ((r : Role) × HasRole p.roles workspace r × (role_permissions r permission ≡ true))
authorize_iff p permission workspace =
    let by_role = granted_iff p permission workspace in
    (
      λ h. let (r, e, y) = by_role.0 h in (r, (role_in_iff p workspace r).0 e, y),
      λ (r, e, y). by_role.1 (r, (role_in_iff p workspace r).1 e, y),
    )

without_org :
    (r : Role) (p : Permission)
    → role_permissions r org_manage ≡ false
    → role_permissions r p ≡ true
    → not (p == org_manage) ≡ true
without_org r p none' h = elim (Bool-cases (p == org_manage)) [
  | inl y ↦
      let same' : p ≡ org_manage = (permission_eq.same_iff p org_manage).0 y in
      absurd (cc (none', subst (λ w. role_permissions r w ≡ true) same' h))
  | inr n ↦ ground arith
]

-- Whoever can give a role has every permission of that role, and can manage members.
pub may_grant_within :
    (granter target : Role) (permission : Permission)
    → may_grant granter target ≡ true
    → role_permissions target permission ≡ true
    → (role_permissions granter permission ≡ true)
      × (role_permissions granter members_manage ≡ true)
unfolding may_grant role_permissions contains any Role-discrete Permission-discrete
may_grant_within owner target p h q = (refl, refl)
may_grant_within admin owner p h q = absurd (cc h)
may_grant_within admin admin p h q = absurd (cc h)
may_grant_within admin developer p h q = (without_org developer p refl q, refl)
may_grant_within admin operator p h q = (without_org operator p refl q, refl)
may_grant_within admin viewer p h q = (without_org viewer p refl q, refl)
may_grant_within admin service p h q = (without_org service p refl q, refl)
may_grant_within developer target p h q = absurd (ground arith)
may_grant_within operator target p h q = absurd (ground arith)
may_grant_within viewer target p h q = absurd (ground arith)
may_grant_within service target p h q = absurd (ground arith)

first-split :
    {A : Type 0} (p : A → Bool) (xs : List A) (x : A)
    → first p xs ≡ some x
    → (front back : List A) × (xs ≡ front ++ x ∷ back) × (p x ≡ true) × All (λ y. p y ≡ false) front
unfolding first
first-split p [] x h = absurd (cc h)
first-split p (y ∷ ys) x h = elim (Bool-cases (p y)) [
  | inl hit ↦
      let same' : y ≡ x = ground arith in
      ([], ys, ap (λ w. w ∷ ys) same', subst (λ w. p w ≡ true) same' hit, tt)
  | inr miss ↦
      let (front, back, e, hit, none') = first-split p ys x (rw (first, miss) at h) in
      (y ∷ front, back, ap (λ w. y ∷ w) e, hit, (miss, none'))
]

-- The role that a person with several has is one of them, and none of them comes before it in the
-- order of strength.
pub strongest_lem :
    (roles : List Role) (r : Role)
    → strongest roles ≡ some r
    → (stronger weaker : List Role) × (role_strength ≡ stronger ++ r ∷ weaker)
      × (contains roles r ≡ true)
      × All (λ q. contains roles q ≡ false) stronger
unfolding strongest
strongest_lem roles r h = first-split (λ q. contains roles q) role_strength r h
