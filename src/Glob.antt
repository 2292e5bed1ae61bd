-- ===== src/Glob.antt =====
-- The standard library's fnmatch.fnmatchcase, by which policy rules match action ids.
pub mod Matching
use patch_quest.Common.{
  ℕ, zero, suc, Bool, true, false, not, ◌&&◌, ◌||◌, Option, none, some, List, [], ◌∷◌, leb, ◌==◌,
  length, if◌then◌else◌, nat_eq, string_eq,
}
use patch_quest.Text.{Text}

-- A part of a pattern; a set in brackets holds ranges of characters, or shuts them out.
pub data Token : Type 0 where
  star any_one : Token
  literal : ℕ → Token
  one_of : Bool → List (ℕ × ℕ) → Token

-- The ranges between brackets: `a-c`, or one character.
unfoldable pub ranges : Text → List (ℕ × ℕ)
ranges [] = []
ranges (a ∷ []) = (a, a) ∷ []
ranges (a ∷ b ∷ []) = (a, a) ∷ (b, b) ∷ []
ranges (a ∷ b ∷ c ∷ t) =
    let range = ranges t in
    let single = ranges (b ∷ c ∷ t) in if b == b'-' then (a, c) ∷ range else (a, a) ∷ single

abbrev bracket : Text → Token
bracket [] = one_of true []
bracket (c ∷ t) = if c == b'!' then one_of false (ranges t) else one_of true (ranges (c ∷ t))

-- The text up to the next `]`, and what follows it.
unfoldable pub up_to_close : Text → Option (Text × Text)
up_to_close [] = none
up_to_close (c ∷ t) =
    let rest = up_to_close t in
    if c == b']' then some ([], t) else elim rest [ none ↦ none | some (s, u) ↦ some (c ∷ s, u) ]

-- The set that starts here, its leading `!` and `]` being no end.
unfoldable pub set_body : Text → Option (Text × Text)
unfolding up_to_close
set_body [] = none
set_body (c ∷ t) =
    if c == b'!'
    then (elim t [
      | [] ↦ none
      | d ∷ u ↦ elim (up_to_close u) [
        | none ↦ if d == b']' then none else up_to_close (c ∷ d ∷ u)
        | some (s, v) ↦ if d == b']' then some (c ∷ d ∷ s, v) else up_to_close (c ∷ d ∷ u)
      ]
    ])
    else elim (up_to_close t) [
      | none ↦ none
      | some (s, v) ↦ if c == b']' then some (c ∷ s, v) else up_to_close (c ∷ t)
    ]

-- With fuel for one token a character.
unfoldable pub tokens : ℕ → Text → List Token
unfolding set_body ranges
tokens zero t = []
tokens (suc n) [] = []
tokens (suc n) (c ∷ t) =
    let rest = tokens n t in
    if c == b'*'
    then star ∷ rest
    else if c == b'?'
    then any_one ∷ rest
    else if c == b'['
    then (elim (set_body t) [ none ↦ literal c ∷ rest | some (s, u) ↦ bracket s ∷ tokens n u ])
    else literal c ∷ rest

unfoldable pub in_ranges : ℕ → List (ℕ × ℕ) → Bool
in_ranges c [] = false
in_ranges c ((a, b) ∷ rs) = (leb a c && leb c b) || in_ranges c rs

unfoldable pub fits : Token → ℕ → Bool
unfolding in_ranges
fits star c = true
fits any_one c = true
fits (literal a) c = a == c
fits (one_of keep rs) c = if keep then in_ranges c rs else not (in_ranges c rs)

-- Some suffix of the text, itself included, satisfies the test.
unfoldable pub some_suffix : (Text → Bool) → Text → Bool
some_suffix p [] = p []
some_suffix p (c ∷ t) = p (c ∷ t) || some_suffix p t

unfoldable pub glob : List Token → Text → Bool
unfolding some_suffix fits
glob [] [] = true
glob [] (c ∷ t) = false
glob (star ∷ ts) t = some_suffix (glob ts) t
glob (_ ∷ ts) [] = false
glob (k ∷ ts) (c ∷ t) = fits k c && glob ts t

unfoldable pub fnmatchcase : Text → Text → Bool
unfolding tokens glob
fnmatchcase name pattern' = glob (tokens (length pattern') pattern') name
