-- ===== src/Budget/Exhausted.antt =====
-- Lemmas on `exhausted` of domain/budget.py.
use patch_quest.Common.{
  ℕ, ◌≤◌, ◌<◌, ◌≡◌, refl, inl, inr, Bool, true, false, ◌&&◌, Option, none, some, List, [], ◌∷◌,
  arith, Bool-cases, length, first, All, contains, subst, nat_eq, string_eq,
}
use patch_quest.Budget.{
  BudgetKind, budget_kind_eq, BudgetLine, Counters, Limits, line_exhausted, snapshot, exhausted,
  model_calls, tokens, wall_time, commands, patch_attempts, repair_rounds, retries,
}

-- What a run used of a kind, and its limit.

abbrev pub used_of : Counters → BudgetKind → ℕ
used_of c model_calls = c.model_calls
used_of c tokens = c.tokens_used
used_of c wall_time = c.wall_seconds
used_of c commands = length c.commands_run
used_of c patch_attempts = c.patch_attempts
used_of c repair_rounds = c.repair_rounds
used_of c retries = c.retries

abbrev pub limit_of : Limits → BudgetKind → ℕ
limit_of l model_calls = l.max_model_calls
limit_of l tokens = l.max_total_tokens
limit_of l wall_time = l.max_wall_seconds
limit_of l commands = l.max_commands
limit_of l patch_attempts = l.max_patch_attempts
limit_of l repair_rounds = l.max_repair_rounds
limit_of l retries = l.max_retries

-- A kind is spent if it has a limit, other than zero, and the run used as much.
abbrev pub Spent : Counters → Limits → BudgetKind → Type 0
Spent c l k = (0 < limit_of l k) × (limit_of l k ≤ used_of c k)

module _ {A : Type 0} (p : A → Bool) where
  first-All :
      (P : A → Type 0) (xs : List A) (x : A) → All P xs → first p xs ≡ some x → P x × (p x ≡ true)
  unfolding first
  first-All P [] x hs h = absurd (cc h)
  first-All P (y ∷ ys) x hs h = elim (Bool-cases (p y)) [
    | inl hit ↦
        let same' : y ≡ x = ground arith in (subst P same' hs.0, subst (λ w. p w ≡ true) same' hit)
    | inr miss ↦ first-All P ys x hs.1 (rw (first, miss) at h)
  ]

  first-none : (xs : List A) → first p xs ≡ none → All (λ x. p x ≡ false) xs
  unfolding first
  first-none [] h = tt
  first-none (y ∷ ys) h = elim (Bool-cases (p y)) [
    | inl hit ↦ absurd (cc (rw (first, hit) at h))
    | inr miss ↦ (miss, first-none ys (rw (first, miss) at h))
  ]

module _ (c : Counters) (l : Limits) where
  abbrev Reads : BudgetLine → Type 0
  Reads b = (b.used ≡ used_of c b.kind) × (b.limit ≡ limit_of l b.kind)

  snapshot-Reads : All Reads (snapshot c l)
  unfolding snapshot
  snapshot-Reads = (
    (refl, refl),
    (
      (refl, refl),
      ((refl, refl), ((refl, refl), ((refl, refl), ((refl, refl), ((refl, refl), tt))))),
    ),
  )

  exhausted-some :
      (among : List BudgetKind) (b : BudgetLine)
      → exhausted c l among ≡ some b
      → (contains among b.kind ≡ true) × Spent c l b.kind
  unfolding exhausted line_exhausted
  exhausted-some among b h =
      let ((used, limit), hit) =
        first-All (λ x. contains among x.kind && line_exhausted x) Reads (snapshot c l) b
          snapshot-Reads h in
      (ground arith, (ground arith, ground arith))

  unspent :
      (among : List BudgetKind) (k : BudgetKind) (used limit : ℕ)
      → contains among k ≡ true
      → (contains among k && line_exhausted (record { kind = k; used = used; limit = limit }))
        ≡ false
      → 0 < limit
      → used < limit
  unfolding line_exhausted
  unspent among k used limit wanted h some' = ground arith

  exhausted-none :
      (among : List BudgetKind) (k : BudgetKind)
      → exhausted c l among ≡ none
      → contains among k ≡ true
      → 0 < limit_of l k
      → used_of c k < limit_of l k
  unfolding exhausted snapshot
  exhausted-none among k h wanted some' = by_kind k wanted some'
    where
      lines : All (λ b. (contains among b.kind && line_exhausted b) ≡ false) (snapshot c l)
      lines = first-none (λ b. contains among b.kind && line_exhausted b) (snapshot c l) h

      by_kind :
          (j : BudgetKind) → contains among j ≡ true → 0 < limit_of l j → used_of c j < limit_of l j
      by_kind model_calls w s =
          unspent among model_calls c.model_calls l.max_model_calls w lines.0 s
      by_kind tokens w s = unspent among tokens c.tokens_used l.max_total_tokens w lines.1.0 s
      by_kind wall_time w s =
          unspent among wall_time c.wall_seconds l.max_wall_seconds w lines.1.1.0 s
      by_kind commands w s =
          unspent among commands (length c.commands_run) l.max_commands w lines.1.1.1.0 s
      by_kind patch_attempts w s =
          unspent among patch_attempts c.patch_attempts l.max_patch_attempts w lines.1.1.1.1.0 s
      by_kind repair_rounds w s =
          unspent among repair_rounds c.repair_rounds l.max_repair_rounds w lines.1.1.1.1.1.0 s
      by_kind retries w s = unspent among retries c.retries l.max_retries w lines.1.1.1.1.1.1.0 s

  abbrev pub Stops : List BudgetKind → Option BudgetLine → Type 0
  Stops among none =
      (k : BudgetKind) → contains among k ≡ true → 0 < limit_of l k → used_of c k < limit_of l k
  Stops among (some b) = (contains among b.kind ≡ true) × Spent c l b.kind

  -- A line that is reported is of a kind that the caller asked for, and is spent; and if none is
  -- reported, every limited kind that the caller asked for has something left.
  pub exhausted-Stops : (among : List BudgetKind) → Stops among (exhausted c l among)
  exhausted-Stops among = go (exhausted c l among) refl
    where
      go : (o : Option BudgetLine) → exhausted c l among ≡ o → Stops among o
      go none e = λ k wanted limited. exhausted-none among k e wanted limited
      go (some b) e = exhausted-some among b e
