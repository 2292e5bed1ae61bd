-- ===== src/Glob/Matching.antt =====
-- Lemmas on the matcher, for the patterns of domain/policy.py.
use patch_quest.Common.{
  ℕ, ◌≡◌, ◌↔◌, Bool, refl, ◌≢◌, inl, inr, true, List, [], ◌∷◌, arith, Bool-cases,
}
use patch_quest.Text.{Text}
use patch_quest.Glob.{Token, star, any_one, literal, one_of, fits, some_suffix, glob}

-- A star stands for any text, another token for one character that fits it.
pub data Matches : List Token → Text → Type 0 where
  nothing : Matches [] []
  skip : {ts : List Token} {t : Text} → Matches ts t → Matches (star ∷ ts) t
  eat : {c : ℕ} {ts : List Token} {t : Text} → Matches (star ∷ ts) t → Matches (star ∷ ts) (c ∷ t)
  one :
      {k : Token} {c : ℕ} {ts : List Token} {t : Text}
      → k ≢ star
      → fits k c ≡ true
      → Matches ts t
      → Matches (k ∷ ts) (c ∷ t)

some_suffix_sound :
    (ts : List Token)
    → ((t : Text) → glob ts t ≡ true → Matches ts t)
    → (t : Text) → some_suffix (glob ts) t ≡ true
    → Matches (star ∷ ts) t
unfolding some_suffix
some_suffix_sound ts ih [] h = skip (ih [] h)
some_suffix_sound ts ih (c ∷ t) h = elim (Bool-cases (glob ts (c ∷ t))) [
  | inl now ↦ skip (ih (c ∷ t) now)
  | inr later ↦ eat (some_suffix_sound ts ih t (rw later at h))
]

glob_sound : (ts : List Token) (t : Text) → glob ts t ≡ true → Matches ts t
unfolding glob
glob_sound [] [] h = nothing
glob_sound [] (c ∷ t) h = absurd (cc h)
glob_sound (star ∷ ts) t h = some_suffix_sound ts (glob_sound ts) t h
glob_sound (any_one ∷ ts) [] h = absurd (cc h)
glob_sound (any_one ∷ ts) (c ∷ t) h = one (λ e. cc) refl (glob_sound ts t (ground arith))
glob_sound (literal a ∷ ts) [] h = absurd (cc h)
glob_sound (literal a ∷ ts) (c ∷ t) h =
    one (λ e. cc) (unfold fits in ground arith) (glob_sound ts t (ground arith))
glob_sound (one_of k rs ∷ ts) [] h = absurd (cc h)
glob_sound (one_of k rs ∷ ts) (c ∷ t) h =
    one (λ e. cc) (unfold fits in ground arith) (glob_sound ts t (ground arith))

some_suffix-here : (p : Text → Bool) (t : Text) → p t ≡ true → some_suffix p t ≡ true
unfolding some_suffix
some_suffix-here p [] h = h
some_suffix-here p (c ∷ t) h = ground arith

glob_complete : {ts : List Token} {t : Text} → Matches ts t → glob ts t ≡ true
unfolding glob
glob_complete nothing = refl
glob_complete (skip {ts = ts} {t = t} m) = some_suffix-here (glob ts) t (glob_complete m)
glob_complete (eat {c = c} {ts = ts} {t = t} m) =
    let ih = glob_complete m in unfold some_suffix in ground arith
glob_complete (one {k = star} k≢ h m) = absurd (k≢ refl)
glob_complete (one {k = any_one} k≢ h m) = let ih = glob_complete m in ground arith
glob_complete (one {k = literal a} k≢ h m) = let ih = glob_complete m in ground arith
glob_complete (one {k = one_of b rs} k≢ h m) = let ih = glob_complete m in ground arith

-- The matcher accepts a text exactly when the pattern's tokens match it: a star any text, every
-- other token one character that fits it.
pub glob_iff : (ts : List Token) (t : Text) → (glob ts t ≡ true) ↔ Matches ts t
glob_iff ts t = (glob_sound ts t, glob_complete)
