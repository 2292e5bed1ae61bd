-- ===== src/Policy/Clamp.antt =====
-- backend/patchquest/runtime/policy.py: the settings of a run under the ceilings of its policies. A
-- setting is a natural number. A function gives none where `int(cap)` raises, of an infinity or a NaN.
use patch_quest.Common.{
  ℕ, ◌*◌, ◌/◌, ◌≤◌, ◌<◌, String, ◌≡◌, refl, ◌⊎◌, inl, inr, Bool, true, false, ◌&&◌, Option, none,
  some, List, [], ◌∷◌, arith, ltb, ◌==◌, Bool-cases, any, if◌then◌else◌, nat_eq, string_eq,
}
use patch_quest.Text.{Text, codes, text_beq}
use patch_quest.Policy.{
  Policy, Number, thousandths, unbounded, not_a_number, Ceiling, lookup, store, effective_limits,
}
use patch_quest.Policy.Ceilings.{lookup-store, lookup-store_other}

-- `key.partition(".")[2]`
unfoldable pub setting_name : Text → Text
setting_name [] = []
setting_name (c ∷ t) = let rest = setting_name t in if c == b'.' then t else rest

abbrev pub zero_is_unlimited : List Text
zero_is_unlimited =
    codes "max_total_tokens"
    ∷ codes "max_retries"
    ∷ codes "max_wall_seconds"
    ∷ codes "max_commands"
    ∷ []

unfoldable pub has_no_limit : Text → ℕ → Bool
unfolding any text_beq
has_no_limit name wanted = any (text_beq name) zero_is_unlimited && wanted == 0

abbrev pub Settings : Type 0
Settings = List (String × ℕ)

-- `base` stands for the settings of the configuration, by name.
module _ (base : Text → ℕ) where
  abbrev or_base : Option ℕ → String → ℕ
  or_base none key = base (setting_name (codes key))
  or_base (some w) key = w

  abbrev pub wanted : Settings → String → ℕ
  wanted out key = or_base (lookup out key) key

  unfoldable pub set_to : Settings → String → Number → Option Settings
  set_to out key (thousandths n) = some (store out key (n / 1000))
  set_to out key unbounded = none
  set_to out key not_a_number = none

  -- `wanted > cap`
  unfoldable pub over : Number → ℕ → Bool
  over (thousandths n) w = ltb n (w * 1000)
  over unbounded w = false
  over not_a_number w = false

  unfoldable pub clamp_setting : Settings → String → Number → Option Settings
  unfolding set_to over
  clamp_setting out key cap =
      if has_no_limit (setting_name (codes key)) (wanted out key)
      then set_to out key cap
      else if over cap (wanted out key)
      then set_to out key cap
      else some out

  unfoldable pub clamp_all : Settings → List (String × Ceiling) → Option Settings
  clamp_all out [] = some out
  clamp_all out ((key, c) ∷ caps) = elim (clamp_setting out key c.value) [
    | none ↦ none
    | some next ↦ clamp_all next caps
  ]

  abbrev none_if_empty : Settings → Option Settings
  none_if_empty [] = none
  none_if_empty (x ∷ xs) = some (x ∷ xs)

  abbrev or_empty : Option Settings → Settings
  or_empty none = []
  or_empty (some out) = out

  unfoldable pub clamp_overrides : Option Settings → List Policy → Option (Option Settings)
  unfolding clamp_all
  clamp_overrides overrides chain = elim (effective_limits chain) [
    | [] ↦ some overrides
    | c ∷ caps ↦ (elim (clamp_all (or_empty overrides) (c ∷ caps)) [
      | none ↦ none
      | some out ↦ some (none_if_empty out)
    ])
  ]

  -- What a ceiling does to the settings of a run.
  pub record Clamped (out : Settings) (key : String) (cap : ℕ) (after : Settings) : Type 0 where
    pub under : wanted after key * 1000 ≤ cap
    pub lower : wanted after key ≤ wanted out key ⊎ (wanted out key ≡ 0)
    pub untouched :
        has_no_limit (setting_name (codes key)) (wanted out key) ≡ false
        → wanted out key * 1000 ≤ cap
        → after ≡ out
    pub limited : 1000 ≤ cap → has_no_limit (setting_name (codes key)) (wanted after key) ≡ false
    pub others : (j : String) → (key == j) ≡ false → lookup after j ≡ lookup out j

  zero-has_no_limit : (name : Text) (n : ℕ) → has_no_limit name n ≡ true → n ≡ 0
  unfolding has_no_limit
  zero-has_no_limit name n h = ground arith

  positive-has_no_limit : (name : Text) (n : ℕ) → 0 < n → has_no_limit name n ≡ false
  unfolding has_no_limit
  positive-has_no_limit name n h = ground arith

  stored :
      (out : Settings) (key : String) (cap : ℕ)
      → wanted (store out key (cap / 1000)) key ≡ cap / 1000
  stored out key cap = rw (lookup-store out key (cap / 1000)) refl

  set-Clamped :
      (out : Settings) (key : String) (cap : ℕ)
      → (has_no_limit (setting_name (codes key)) (wanted out key) ≡ true)
        ⊎ (cap < wanted out key * 1000)
      → Clamped out key cap (store out key (cap / 1000))
  set-Clamped out key cap why = record {
    under = omega (arith, stored out key cap);
    lower = elim why [
      | inl free ↦ inr (zero-has_no_limit (setting_name (codes key)) (wanted out key) free)
      | inr over ↦ inl (omega (arith, stored out key cap))
    ];
    untouched =
        λ free within. elim why [ inl y ↦ absurd (ground arith) | inr over ↦ absurd (omega arith) ];
    limited = λ big.
        positive-has_no_limit (setting_name (codes key)) (wanted (store out key (cap / 1000)) key)
          (omega (arith, stored out key cap));
    others = λ j apart. lookup-store_other out key j (cap / 1000) apart;
  }

  -- A setting meets a finite ceiling without an error: afterwards it is at most the ceiling, and no higher
  -- than it was, unless it was zero; a limited setting at or below the ceiling, and every other setting,
  -- stay as they were; and a ceiling of at least one leaves no setting without a limit.
  pub clamp_setting-Clamped :
      (out : Settings) (key : String) (cap : ℕ)
      → (after : Settings) × (clamp_setting out key (thousandths cap) ≡ some after)
        × Clamped out key cap after
  unfolding clamp_setting set_to over
  clamp_setting-Clamped out key cap =
      elim (Bool-cases (has_no_limit (setting_name (codes key)) (wanted out key))) [
        | inl free ↦ (
          store out key (cap / 1000),
          rw (clamp_setting, free) refl,
          set-Clamped out key cap (inl free),
        )
        | inr limited' ↦ elim (Bool-cases (ltb cap (wanted out key * 1000))) [
          | inl high ↦ (
            store out key (cap / 1000),
            rw (clamp_setting, limited') (rw (over, high) refl),
            set-Clamped out key cap (inr (ground arith)),
          )
          | inr within ↦ (
            out,
            rw (clamp_setting, limited') (rw (over, within) refl),
            record {
              under = ground arith;
              lower = inl (omega arith);
              untouched = λ _ _. refl;
              limited = λ _. limited';
              others = λ j _. refl;
            },
          )
        ]
      ]
