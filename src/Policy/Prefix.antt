-- ===== src/Policy/Prefix.antt =====
-- Lemmas on `Rule.matches` of domain/policy.py, for a pattern that is a plain text and then a star.
use patch_quest.Common.{ℕ, ◌≡◌, false, List, [], ◌∷◌, ◌==◌, nat_eq}
use patch_quest.Text.{Text}
use patch_quest.Glob.{Token, literal, star}

-- A character that means itself in a pattern.

pub record IsPlain (c : ℕ) : Type 0 where
  pub no_star : (c == b'*') ≡ false
  pub no_question : (c == b'?') ≡ false
  pub no_bracket : (c == b'[') ≡ false

abbrev starred : Text → List Token
starred [] = star ∷ []
starred (c ∷ t) = literal c ∷ starred t
