-- ===== src/Policy/Ceilings.antt =====
-- Lemmas on `effective_limits` of domain/policy.py.
use patch_quest.Common.{
  ℕ, suc, get_elem?, if_both, String, ◌≡◌, refl, sym, inl, inr, true, false, Option, some, List, [],
  ◌∷◌, arith, leb, ◌==◌, Bool-cases, Option-cases, All, subst, if◌then◌else◌, nat_eq, string_eq,
}
use patch_quest.Policy.Numbers.{is_number, AtMost, AtMost-refl, AtMost-above, AtMost-below}
use patch_quest.Policy.{
  Policy, Number, below, Numbers, Ceiling, sorted, insert, lookup, store, lower_ceiling,
  add_ceilings, ceilings, effective_limits, rank,
}

module _ {ℓ} {A : Type ℓ} where
  pub lookup-store : (d : List (String × A)) (k : String) (v : A) → lookup (store d k v) k ≡ some v
  unfolding lookup store
  lookup-store [] k v = let own : (k == k) ≡ true = (string_eq.same_iff k k).1 refl in ground arith
  lookup-store ((j, a) ∷ d) k v = let ih = lookup-store d k v in ground arith

  pub lookup-store_other :
      (d : List (String × A)) (k j : String) (v : A)
      → (k == j) ≡ false
      → lookup (store d k v) j ≡ lookup d j
  unfolding lookup store
  lookup-store_other [] k j v h = ground arith
  lookup-store_other ((i, a) ∷ d) k j v h = elim (Bool-cases (i == k)) [
    | inl y ↦ let same' : i ≡ k = (string_eq.same_iff i k).0 y in rw (store, y) (ground arith)
    | inr n ↦ let ih = lookup-store_other d k j v h in rw (store, n) (ground arith)
  ]

-- Some ceiling is in force, and it is at most a value.
abbrev pub Caps : Option Ceiling → Number → Type 0
Caps o v = (c : Ceiling) × (o ≡ some c) × AtMost c.value v

abbrev Table : Type 0
Table = List (String × Ceiling)

abbrev Numeric : Table → Type 0
Numeric out = (k : String) (c : Ceiling) → lookup out k ≡ some c → is_number c.value ≡ true

abbrev set_by : Policy → Number → Ceiling
set_by p v = record { value = v; source = p }

-- One limit, added by the rule of `effective_limits`.
abbrev add_one : Policy → Table → String → Number → Table
add_one p out k v =
    if lower_ceiling (lookup out k) v then store out k (record { value = v; source = p }) else out

add_one-Caps :
    (p : Policy) (out : Table) (k : String) (v : Number)
    → is_number v ≡ true
    → Numeric out
    → Caps (lookup (add_one p out k v) k) v
unfolding lower_ceiling
add_one-Caps p out k v fine numeric = elim (Option-cases (lookup out k)) [
  | inl e ↦ rw (lower_ceiling, e) (set_by p v, lookup-store out k (set_by p v), AtMost-refl v fine)
  | inr (c, e) ↦ elim (Bool-cases (below v c.value)) [
    | inl y ↦
        rw (lower_ceiling, e)
          (rw y (set_by p v, lookup-store out k (set_by p v), AtMost-refl v fine))
    | inr n ↦ rw (lower_ceiling, e) (rw n (c, e, AtMost-above v c.value fine (numeric k c e) n))
  ]
]

add_one_self :
    (p : Policy) (out : Table) (k : String) (v value : Number)
    → Caps (lookup out k) value
    → Caps (lookup (add_one p out k v) k) value
unfolding lower_ceiling
add_one_self p out k v value (c, e, le) = elim (Bool-cases (below v c.value)) [
  | inl y ↦
      rw (lower_ceiling, e)
        (rw y (set_by p v, lookup-store out k (set_by p v), AtMost-below v c.value value y le))
  | inr n ↦ rw (lower_ceiling, e) (rw n (c, e, le))
]

add_one-keeps :
    (p : Policy) (out : Table) (k key : String) (v value : Number)
    → Caps (lookup out key) value
    → Caps (lookup (add_one p out k v) key) value
add_one-keeps p out k key v value (c, e, le) = elim (Bool-cases (k == key)) [
  | inl y ↦
      let same' : k ≡ key = (string_eq.same_iff k key).0 y in
      subst (λ w. Caps (lookup (add_one p out k v) w) value) same'
        (add_one_self p out k v value
          (subst (λ w. Caps (lookup out w) value) (sym same') (c, e, le)))
  | inr n ↦ elim (Bool-cases (lower_ceiling (lookup out k) v)) [
    | inl y ↦
        rw y (rw (lookup-store_other out k key (record { value = v; source = p }) n) (c, e, le))
    | inr m ↦ rw m (c, e, le)
  ]
]

-- Every limit of a policy has its ceiling in force.
abbrev pub Respects : Table → String × Number → Type 0
Respects out l = Caps (lookup out l.0) l.1

add_ceilings-keeps :
    (p : Policy) (limits : Numbers) (out : Table) (key : String) (value : Number)
    → Caps (lookup out key) value
    → Caps (lookup (add_ceilings p limits out) key) value
unfolding add_ceilings
add_ceilings-keeps p [] out key value h = h
add_ceilings-keeps p ((k, v) ∷ limits) out key value h =
    add_ceilings-keeps p limits (add_one p out k v) key value (add_one-keeps p out k key v value h)

-- No limit of the policy is NaN.
abbrev pub PureNumbers : Policy → Type 0
PureNumbers p = All (λ l. is_number l.1 ≡ true) p.limits

-- What holds of each entry of the table that a limit puts there holds of each entry.
module _ (P : String × Ceiling → Type 0) where
  store-All :
      (out : Table) (k : String) (c : Ceiling) → All P out → P (k, c) → All P (store out k c)
  unfolding store
  store-All [] k c h q = (q, tt)
  store-All ((j, a) ∷ out) k c h q = elim (Bool-cases (j == k)) [
    | inl y ↦
        let same' : j ≡ k = (string_eq.same_iff j k).0 y in
        rw (store, y) (subst (λ w. P (w, c)) (sym same') q, h.1)
    | inr n ↦ rw (store, n) (h.0, store-All out k c h.1 q)
  ]

  add_one-All :
      (p : Policy) (out : Table) (k : String) (v : Number)
      → All P out
      → P (k, set_by p v)
      → All P (add_one p out k v)
  add_one-All p out k v h q =
      if_both (All P) (lower_ceiling (lookup out k) v) (store-All out k (set_by p v) h q) h

  abbrev Holds : Policy → Type 0
  Holds p = All (λ l. P (l.0, set_by p l.1)) p.limits

  add_ceilings-All :
      (p : Policy) (limits : Numbers) (out : Table)
      → All P out
      → All (λ l. P (l.0, set_by p l.1)) limits
      → All P (add_ceilings p limits out)
  unfolding add_ceilings
  add_ceilings-All p [] out h q = h
  add_ceilings-All p ((k, v) ∷ limits) out h q =
      add_ceilings-All p limits (add_one p out k v) (add_one-All p out k v h q.0) q.1

  ceilings-All :
      (ps : List Policy) (out : Table) → All P out → All Holds ps → All P (ceilings ps out)
  unfolding ceilings
  ceilings-All [] out h q = h
  ceilings-All (p ∷ ps) out h q =
      ceilings-All ps (add_ceilings p p.limits out) (add_ceilings-All p p.limits out h q.0) q.1

abbrev IsPure : String × Ceiling → Type 0
IsPure e = is_number e.1.value ≡ true

pure-Numeric : (out : Table) → All IsPure out → Numeric out
unfolding lookup
pure-Numeric [] h k c e = absurd (cc e)
pure-Numeric ((j, a) ∷ out) h k c e = elim (Bool-cases (j == k)) [
  | inl y ↦
      let same' : a ≡ c = cc (rw (lookup, y) at e) in
      subst (λ (w : Ceiling). is_number w.value ≡ true) same' h.0
  | inr n ↦ pure-Numeric out h.1 k c (rw (lookup, n) at e)
]

add_ceilings-Respects :
    (p : Policy) (limits : Numbers) (out : Table)
    → All (λ l. is_number l.1 ≡ true) limits
    → All IsPure out
    → All (Respects (add_ceilings p limits out)) limits
unfolding add_ceilings
add_ceilings-Respects p [] out fine h = tt
add_ceilings-Respects p ((k, v) ∷ limits) out fine h = (
  add_ceilings-keeps p limits (add_one p out k v) k v
      (add_one-Caps p out k v fine.0 (pure-Numeric out h)),
  add_ceilings-Respects p limits (add_one p out k v) fine.1 (add_one-All IsPure p out k v h fine.0),
)

ceilings-keeps :
    (ps : List Policy) (out : Table) (key : String) (value : Number)
    → Caps (lookup out key) value
    → Caps (lookup (ceilings ps out) key) value
unfolding ceilings
ceilings-keeps [] out key value h = h
ceilings-keeps (p ∷ ps) out key value h =
    ceilings-keeps ps (add_ceilings p p.limits out) key value
      (add_ceilings-keeps p p.limits out key value h)

ceilings-Respects_all :
    (ps : List Policy) (out : Table) (limits : Numbers)
    → All (Respects out) limits
    → All (Respects (ceilings ps out)) limits
ceilings-Respects_all ps out [] h = tt
ceilings-Respects_all ps out ((k, v) ∷ limits) (h, hs) =
    (ceilings-keeps ps out k v h, ceilings-Respects_all ps out limits hs)

abbrev pub Honours : Table → Policy → Type 0
Honours out p = All (Respects out) p.limits

ceilings-Honours :
    (ps : List Policy) (out : Table)
    → All PureNumbers ps
    → All IsPure out
    → All (Honours (ceilings ps out)) ps
unfolding ceilings
ceilings-Honours [] out fine h = tt
ceilings-Honours (p ∷ ps) out fine h = (
  ceilings-Respects_all ps (add_ceilings p p.limits out) p.limits
      (add_ceilings-Respects p p.limits out fine.0 h),
  ceilings-Honours ps (add_ceilings p p.limits out) fine.1
      (add_ceilings-All IsPure p p.limits out h fine.0),
)

module _ (P : Policy → Type 0) where
  All-uninsert : (p : Policy) (ps : List Policy) → All P (insert p ps) → P p × All P ps
  unfolding insert
  All-uninsert p [] h = h
  All-uninsert p (q ∷ qs) h = elim (Bool-cases (leb (rank p.scope) (rank q.scope))) [
    | inl y ↦ let g : All P (p ∷ q ∷ qs) = rw (insert, y) at h in (g.0, g.1)
    | inr n ↦
        let g : All P (q ∷ insert p qs) = rw (insert, n) at h in
        let rest = All-uninsert p qs g.1 in (rest.0, (g.0, rest.1))
  ]

  All-unsorted : (ps : List Policy) → All P (sorted ps) → All P ps
  unfolding sorted
  All-unsorted [] h = tt
  All-unsorted (p ∷ ps) h =
      let parts = All-uninsert p (sorted ps) h in (parts.0, All-unsorted ps parts.1)

  All-inserted : (p : Policy) (ps : List Policy) → P p → All P ps → All P (insert p ps)
  unfolding insert
  All-inserted p [] h hs = (h, tt)
  All-inserted p (q ∷ qs) h hs = elim (Bool-cases (leb (rank p.scope) (rank q.scope))) [
    | inl y ↦ rw (insert, y) (h, hs)
    | inr n ↦ rw (insert, n) (hs.0, All-inserted p qs h hs.1)
  ]

  All-sorted : (ps : List Policy) → All P ps → All P (sorted ps)
  unfolding sorted
  All-sorted [] h = tt
  All-sorted (p ∷ ps) h = All-inserted p (sorted ps) h.0 (All-sorted ps h.1)

All-places :
    {A : Type 0} (P : A → Type 0) (xs : List A)
    → ((i : ℕ) (x : A) → get_elem? xs i ≡ some x → P x)
    → All P xs
All-places P [] f = tt
All-places P (x ∷ xs) f = (f 0 x refl, All-places P xs (λ i y e. f (suc i) y e))

-- A ceiling is a limit of the policy that it names, and that is one of the chain.
pub record SetBy (policies : List Policy) (e : String × Ceiling) : Type 0 where
  pub place : ℕ
  pub in_chain : get_elem? policies place ≡ some e.1.source
  pub line : ℕ
  pub is_limit : get_elem? e.1.source.limits line ≡ some (e.0, e.1.value)

-- Where no limit is NaN, each limit that a policy of the chain sets is capped by the ceiling in force for its
-- setting, and each ceiling in force is a limit of its setting in the policy that it names, one of the chain.
pub effective_limits-Honours :
    (policies : List Policy)
    → All PureNumbers policies
    → All (Honours (effective_limits policies)) policies
      × All (SetBy policies) (effective_limits policies)
unfolding effective_limits
effective_limits-Honours policies fine = (
  All-unsorted (Honours (effective_limits policies)) policies
      (ceilings-Honours (sorted policies) [] (All-sorted PureNumbers policies fine) tt),
  ceilings-All (SetBy policies) (sorted policies) [] tt (
      All-sorted (Holds (SetBy policies)) policies (
        All-places (Holds (SetBy policies)) policies (λ i p at'.
          All-places (λ l. SetBy policies (l.0, set_by p l.1)) p.limits
            (λ j l own. record { place = i; in_chain = at'; line = j; is_limit = own })))),
)
