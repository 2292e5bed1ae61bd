-- ===== src/Patch/Found.antt =====
-- Lemmas on `_find_block` of patching/unified.py.
use patch_quest.Common.{
  ℕ, zero, suc, ◌+◌, ◌-◌, ◌≤◌, ◌<◌, ◌≡◌, refl, sym, ap, ◌∙◌, ◌⊎◌, inl, inr, Bool, true, false,
  Option, none, some, List, [], ◌∷◌, arith, ltb, leb, ltb→lt, leb→le, Bool-cases, length, drop,
  length-drop, subst,
}
use patch_quest.Text.{Text, text_beq}
use patch_quest.Patch.{
  Place, distance, has_reached, agrees, nearer, scan, search_by, find_block, in_reach, or_else,
  max_hunk_drift, norm_equal,
}

drop-drop : {A : Type 0} (k : ℕ) (xs : List A) → drop k (drop 1 xs) ≡ drop (suc k) xs
drop-drop zero [] = refl
drop-drop (suc k) [] = refl
drop-drop k (x ∷ xs) = refl

module _ (compare : Text → Text → Bool) (block : List Text) (hint : Place) where
  -- The block stands `k` lines further on.
  abbrev pub Stands : List Text → ℕ → Type 0
  Stands lines k = agrees compare (drop k lines) block ≡ true

  -- What the loop makes of the best start so far.
  record Scanned (left start : ℕ) (lines : List Text) (best r : Option ℕ) : Type 0 where
    pub kept :
        (b : ℕ) → best ≡ some b → (c : ℕ) × (r ≡ some c) × (distance c hint ≤ distance b hint)
    pub covers :
        (k : ℕ)
        → k < left
        → Stands lines k
        → (c : ℕ) × (r ≡ some c) × (distance c hint ≤ distance (start + k) hint)
    pub origin :
        (c : ℕ)
        → r ≡ some c
        → (best ≡ some c) ⊎ ((k : ℕ) × (k < left) × (c ≡ start + k) × Stands lines k)

  record Taken (start : ℕ) (best : Option ℕ) (c : ℕ) : Type 0 where
    pub is_taken : nearer hint start best ≡ some c
    pub new_near : distance c hint ≤ distance start hint
    pub old_near : (b : ℕ) → best ≡ some b → distance c hint ≤ distance b hint
    pub either : (c ≡ start) ⊎ (best ≡ some c)

  nearer-Taken : (start : ℕ) (best : Option ℕ) → (c : ℕ) × Taken start best c
  unfolding nearer
  nearer-Taken start none = (
    start,
    record {
      is_taken = refl;
      new_near = omega arith;
      old_near = λ b e. absurd (cc e);
      either = inl refl;
    },
  )
  nearer-Taken start (some b) = elim (Bool-cases (ltb (distance start hint) (distance b hint))) [
    | inl y ↦ (
      start,
      record {
        is_taken = rw (nearer, y) refl;
        new_near = omega arith;
        old_near = λ a e. ground arith;
        either = inl refl;
      },
    )
    | inr n ↦ (
      b,
      record {
        is_taken = rw (nearer, n) refl;
        new_near = ground arith;
        old_near = λ a e. ground arith;
        either = inr refl;
      },
    )
  ]

  step_back : (lines : List Text) (k : ℕ) → Stands (drop 1 lines) k → Stands lines (suc k)
  step_back lines k h = subst (λ w. agrees compare w block ≡ true) (drop-drop k lines) h

  step_on : (lines : List Text) (k : ℕ) → Stands lines (suc k) → Stands (drop 1 lines) k
  step_on lines k h = subst (λ w. agrees compare w block ≡ true) (sym (drop-drop k lines)) h

  module _ (left start : ℕ) (lines : List Text) (best : Option ℕ) where
    passed :
        {r : Option ℕ}
        → agrees compare lines block ≡ false
        → Scanned left (suc start) (drop 1 lines) best r
        → Scanned (suc left) start lines best r
    passed {r = r} no' s = record {
      kept = s.kept;
      covers = later;
      origin = λ c e. elim (s.origin c e) [
        | inl old ↦ inl old
        | inr (k, less, eq, st) ↦ inr (suc k, omega arith, omega arith, step_back lines k st)
      ];
    }
      where
        later :
            (k : ℕ)
            → k < suc left
            → Stands lines k
            → (c : ℕ) × (r ≡ some c) × (distance c hint ≤ distance (start + k) hint)
        later zero less st = absurd (cc (no', st))
        later (suc k) less st =
            let (c, e, le) = s.covers k (omega arith) (step_on lines k st) in (c, e, omega arith)

    broken :
        agrees compare lines block ≡ true
        → has_reached start hint ≡ true
        → (c : ℕ) → Taken start best c
        → Scanned (suc left) start lines best (nearer hint start best)
    broken here far c t = record {
      kept = λ b e. (c, t.is_taken, t.old_near b e);
      covers = λ k less st.
          (c, t.is_taken, omega (arith, t.new_near, leb→le hint.ahead (start + hint.behind) far));
      origin = λ d e.
          let same' : c ≡ d = ground (arith, t.is_taken) in
          elim t.either [
            | inl now ↦ inr (0, omega arith, omega arith, here)
            | inr old ↦ inl (old ∙ ap some same')
          ];
    }

    gone_on :
        {r : Option ℕ}
        → agrees compare lines block ≡ true
        → (c : ℕ) → Taken start best c
        → Scanned left (suc start) (drop 1 lines) (nearer hint start best) r
        → Scanned (suc left) start lines best r
    gone_on {r = r} here c t s = record {
      kept = λ b e. let (d, f, le) = s.kept c t.is_taken in (d, f, omega (arith, t.old_near b e));
      covers = later;
      origin = λ d e. elim (s.origin d e) [
        | inl taken ↦
            let same' : c ≡ d = ground (arith, t.is_taken) in
            elim t.either [
              | inl now ↦ inr (0, omega arith, omega arith, here)
              | inr old ↦ inl (old ∙ ap some same')
            ]
        | inr (k, less, eq, st) ↦ inr (suc k, omega arith, omega arith, step_back lines k st)
      ];
    }
      where
        later :
            (k : ℕ)
            → k < suc left
            → Stands lines k
            → (c : ℕ) × (r ≡ some c) × (distance c hint ≤ distance (start + k) hint)
        later zero less st =
            let (d, f, le) = s.kept c t.is_taken in (d, f, omega (arith, t.new_near))
        later (suc k) less st =
            let (d, f, le) = s.covers k (omega arith) (step_on lines k st) in (d, f, omega arith)

  scan-Scanned :
      (left start : ℕ) (lines : List Text) (best : Option ℕ)
      → Scanned left start lines best (scan compare block hint left start lines best)
  unfolding scan
  scan-Scanned zero start lines best = record {
    kept = λ b e. (b, e, omega arith);
    covers = λ k less stands. absurd (omega arith);
    origin = λ c e. inl e;
  }
  scan-Scanned (suc left) start lines best = elim (Bool-cases (agrees compare lines block)) [
    | inr no' ↦
        rw (scan, no')
          (passed left start lines best no' (scan-Scanned left (suc start) (drop 1 lines) best))
    | inl here ↦
        let (c, t) = nearer-Taken start best in
        elim (Bool-cases (has_reached start hint)) [
          | inl far ↦ rw (scan, here) (rw far (broken left start lines best here far c t))
          | inr near ↦
              rw (scan, here)
                (rw near (
                  gone_on left start lines best here c t
                    (scan-Scanned left (suc start) (drop 1 lines) (nearer hint start best))))
        ]
  ]

  agrees_fits :
      (lines rest : List Text) → agrees compare lines rest ≡ true → length rest ≤ length lines
  unfolding agrees
  agrees_fits lines [] h = omega arith
  agrees_fits [] (b ∷ rest) h = absurd (cc h)
  agrees_fits (l ∷ lines) (b ∷ rest) h =
      let ih : agrees compare lines rest ≡ true → length rest ≤ length lines =
        agrees_fits lines rest in
      ground arith

  -- Where the block stands in the lines, at most the drift from the hint, no other place being nearer.
  pub record Found (lines : List Text) (c : ℕ) : Type 0 where
    pub stands : Stands lines c
    pub fits : c + length block ≤ length lines
    pub near : distance c hint ≤ max_hunk_drift
    pub closest : (k : ℕ) → Stands lines k → distance c hint ≤ distance k hint

  -- Every place where the block stands is further away than the drift.
  pub record Missing (lines : List Text) : Type 0 where
    pub far : (k : ℕ) → Stands lines k → max_hunk_drift < distance k hint

  Stands-fits :
      (lines : List Text) (k : ℕ)
      → 0 < length block
      → Stands lines k
      → k + length block ≤ length lines
  Stands-fits lines k some' st =
      omega (arith, agrees_fits (drop k lines) block st, length-drop k lines)

  abbrev Sought : List Text → Option ℕ → Type 0
  Sought lines none = Missing lines
  Sought lines (some c) = Found lines c

  search_by-Sought :
      (lines : List Text) → 0 < length block → Sought lines (search_by compare lines block hint)
  unfolding search_by
  search_by-Sought lines some' =
      go (scan compare block hint left 0 lines none) (scan-Scanned left 0 lines none)
    where
      left : ℕ
      left = suc (length lines) - length block

      inside : (k : ℕ) → Stands lines k → k < left
      inside k st = omega (arith, Stands-fits lines k some' st)

      found :
          (c : ℕ)
          → Scanned left 0 lines none (some c)
          → distance c hint ≤ max_hunk_drift
          → Found lines c
      found c s near = elim (s.origin c refl) [
        | inl old ↦ absurd (cc old)
        | inr (k, less, eq, st) ↦
            let same' : k ≡ c = omega (arith, eq) in
            let st' : Stands lines c = subst (Stands lines) same' st in
            record {
              stands = st';
              fits = Stands-fits lines c some' st';
              near = near;
              closest = λ j sj.
                  let (d, e, le) = s.covers j (inside j sj) sj in
                  let same' : c ≡ d = ground arith in omega arith;
            }
      ]

      go : (r : Option ℕ) → Scanned left 0 lines none r → Sought lines (in_reach hint r)
      go none s = record {
        far = λ k st. let (d, e, le) = s.covers k (inside k st) st in absurd (cc e);
      }
      go (some c) s = elim (Bool-cases (leb (distance c hint) max_hunk_drift)) [
        | inl y ↦ rw y (found c s (leb→le (distance c hint) max_hunk_drift y))
        | inr n ↦ rw n (record {
          far = λ k st.
              let (d, e, le) = s.covers k (inside k st) st in
              let same' : c ≡ d = ground arith in ground arith;
        })
      ]

-- What a search by both comparisons gives.
abbrev pub Searched : List Text → List Text → Place → Option ℕ → Type 0
Searched lines block hint none =
    Missing text_beq block hint lines × Missing norm_equal block hint lines
Searched lines block hint (some c) =
    Found text_beq block hint lines c
    ⊎ (Missing text_beq block hint lines × Found norm_equal block hint lines c)

-- A block that has a line is found at the place nearest to the hint where it stands exactly, or, where
-- none is within the drift, where it stands but for trailing whitespace; it is found unless there is
-- no such place within the drift.
pub find_block-Searched :
    (lines : List Text) (b : Text) (block : List Text) (hint : Place)
    → Searched lines (b ∷ block) hint (find_block lines (b ∷ block) hint)
unfolding find_block
find_block-Searched lines b block hint =
    elim (Bool-cases (ltb (length lines) (length (b ∷ block)))) [
      | inl long ↦ rw long (too_long text_beq long, too_long norm_equal long)
      | inr fits ↦ rw fits (
          go (search_by text_beq lines (b ∷ block) hint)
            (search_by norm_equal lines (b ∷ block) hint)
            (search_by-Sought text_beq (b ∷ block) hint lines (omega arith))
            (search_by-Sought norm_equal (b ∷ block) hint lines (omega arith)))
    ]
  where
    too_long :
        (compare : Text → Text → Bool)
        → ltb (length lines) (length (b ∷ block)) ≡ true
        → Missing compare (b ∷ block) hint lines
    too_long compare long = record {
      far = λ k st. absurd (
          omega (
            arith,
            Stands-fits compare (b ∷ block) hint lines k (omega arith) st,
            ltb→lt (length lines) (length (b ∷ block)) long,
          ));
    }

    go :
        (o p : Option ℕ)
        → Sought text_beq (b ∷ block) hint lines o
        → Sought norm_equal (b ∷ block) hint lines p
        → Searched lines (b ∷ block) hint (or_else o p)
    go none none m n = (m, n)
    go none (some c) m f = inr (m, f)
    go (some c) p f n = inl f
