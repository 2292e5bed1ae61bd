-- ===== src/Text.antt =====
-- Python's str as a list of code points, with the methods that the modelled code calls.
pub mod Equality
use patch_quest.Common.{
  ℕ, ◌+◌, String, Bool, true, false, ◌&&◌, ◌||◌, List, [], ◌∷◌, ◌++◌, leb, ◌==◌, if◌then◌else◌,
  nat_eq, string_eq,
}
use Prim.Native.Char.{code}

abbrev pub Text : Type 0
Text = List ℕ

abbrev pub codes : String → Text
codes String.[] = []
codes (String.◌∷◌ c s) = code c ∷ codes s

unfoldable pub text_beq : Text → Text → Bool
text_beq [] [] = true
text_beq (a ∷ s) (b ∷ t) = a == b && text_beq s t
text_beq _ _ = false

-- `t.startswith(s)`
unfoldable pub starts_with : Text → Text → Bool
starts_with [] t = true
starts_with (a ∷ s) [] = false
starts_with (a ∷ s) (b ∷ t) = a == b && starts_with s t

-- `s in t`
unfoldable pub is_within : Text → Text → Bool
unfolding starts_with
is_within s [] = starts_with s []
is_within s (b ∷ t) = starts_with s (b ∷ t) || is_within s t

-- `str.lower`, exact as to which ASCII letters the result has: two code points outside ASCII have an
-- ASCII letter in their lower case form.
unfoldable pub lower : Text → Text
lower [] = []
lower (c ∷ t) =
    (if leb 65 c && leb c 90
      then (c + 32) ∷ []
      else if c == 0x212a
      then 107 ∷ []
      else if c == 0x130
      then 105 ∷ 775 ∷ []
      else c ∷ [])
    ++ lower t

-- `str.isspace` of one character.
unfoldable pub is_space : ℕ → Bool
is_space c =
    (leb 9 c && leb c 13)
    || (leb 28 c && leb c 32)
    || c == 0x85
    || c == 0xa0
    || c == 0x1680
    || (leb 0x2000 c && leb c 0x200a)
    || c == 0x2028
    || c == 0x2029
    || c == 0x202f
    || c == 0x205f
    || c == 0x3000

-- `str.lstrip` and `str.rstrip` without an argument.
unfoldable pub lstrip : Text → Text
unfolding is_space
lstrip [] = []
lstrip (c ∷ t) = let rest = lstrip t in if is_space c then rest else c ∷ t

unfoldable pub rstrip : Text → Text
unfolding is_space
rstrip [] = []
rstrip (c ∷ t) = elim (rstrip t) [ [] ↦ if is_space c then [] else c ∷ [] | d ∷ u ↦ c ∷ d ∷ u ]

-- `str.split` at one character, which the texts between do not hold.
unfoldable pub split : ℕ → Text → List Text
split sep [] = [] ∷ []
split sep (c ∷ t) =
    let rest = split sep t in
    if c == sep
    then [] ∷ rest
    else (elim rest [ [] ↦ (c ∷ []) ∷ [] | line ∷ lines ↦ (c ∷ line) ∷ lines ])

-- `sep.join(lines)` for one character.
unfoldable pub join : ℕ → List Text → Text
join sep [] = []
join sep (line ∷ []) = line
join sep (line ∷ next ∷ lines) = line ++ sep ∷ join sep (next ∷ lines)
