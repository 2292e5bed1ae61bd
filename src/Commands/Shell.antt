-- ===== src/Commands/Shell.antt =====
-- `find_shell_syntax` of backend/patchquest/tools/command_risk.py.
use patch_quest.Common.{
  ℕ, ◌≡◌, refl, Bool, true, false, ◌&&◌, ◌||◌, Option, none, some, [], ◌∷◌, ◌==◌, any, All,
  contains, if◌then◌else◌, nat_eq, string_eq,
}
use patch_quest.Text.{Text, codes}

pub data Quote : Type 0 where
  unquoted single double : Quote

-- The first of these characters that stands outside quotes.
abbrev pub metacharacters : Text
metacharacters = codes ";&|<>`()\n"

abbrev pub is_meta : ℕ → Bool
unfolding contains
is_meta c = contains metacharacters c

abbrev pub opens_substitution : Text → Bool
opens_substitution [] = false
opens_substitution (c ∷ t) = c == b'(' || c == b'{'

abbrev pub substitution : Text → Text
substitution [] = b'$' ∷ []
substitution (c ∷ t) = b'$' ∷ c ∷ []

abbrev pub meta_text : ℕ → Text
meta_text c = if c == 10 then codes "newline" else c ∷ []

-- The loop over `command[i:]`; an escaped character is passed over.
unfoldable pub scan_shell : Quote → Bool → Text → Option Text
unfolding contains any
scan_shell quote escaped [] = none
scan_shell quote true (c ∷ t) = scan_shell quote false t
scan_shell single false (c ∷ t) =
    let on = scan_shell single false t in
    let out = scan_shell unquoted false t in if c == 39 then out else on
scan_shell double false (c ∷ t) =
    let on = scan_shell double false t in
    let out = scan_shell unquoted false t in
    let past = scan_shell double true t in
    if c == 92
    then past
    else if c == 34
    then out
    else if c == 96
    then some (96 ∷ [])
    else if c == b'$' && opens_substitution t
    then some (substitution t)
    else on
scan_shell unquoted false (c ∷ t) =
    let on = scan_shell unquoted false t in
    let in_single = scan_shell single false t in
    let in_double = scan_shell double false t in
    let past = scan_shell unquoted true t in
    if c == 92
    then past
    else if c == 39
    then in_single
    else if c == 34
    then in_double
    else if is_meta c
    then some (meta_text c)
    else if c == b'$' && opens_substitution t
    then some (substitution t)
    else on

unfoldable pub find_shell_syntax : Text → Option Text
unfolding scan_shell
find_shell_syntax command = scan_shell unquoted false command

-- A metacharacter stands in a text, or a substitution opens in it.
abbrev pub has_meta : Text → Bool
has_meta [] = false
has_meta (c ∷ t) = is_meta c || ((c == b'$' && opens_substitution t) || has_meta t)

abbrev pub is_quoting : ℕ → Bool
is_quoting c = c == 92 || (c == 39 || c == 34)

abbrev pub found_any : Option Text → Bool
found_any none = false
found_any (some t) = true

no_part : (a b c : Bool) → (a || (b || c)) ≡ false → (a ≡ false) × ((b ≡ false) × (c ≡ false))
no_part false false false h = (refl, (refl, refl))
no_part true b c h = absurd (cc h)
no_part false true c h = absurd (cc h)
no_part false false true h = absurd (cc h)

next_found :
    (m d : Bool) (u v : Text) (o : Option Text) (b : Bool)
    → found_any o ≡ b
    → found_any (if m then some u else if d then some v else o) ≡ (m || (d || b))
next_found true d u v o b h = refl
next_found false true u v o b h = refl
next_found false false u v o b h = h

scan_plain :
    (t : Text)
    → All (λ c. is_quoting c ≡ false) t
    → found_any (scan_shell unquoted false t) ≡ has_meta t
unfolding scan_shell
scan_plain [] h = refl
scan_plain (c ∷ t) (p, h) =
    let (not_escape, (not_single, not_double)) = no_part (c == 92) (c == 39) (c == 34) p in
    rw (scan_shell, not_escape)
      (rw not_single (
        rw not_double (
          next_found (is_meta c) (c == b'$' && opens_substitution t) (meta_text c) (substitution t)
            (scan_shell unquoted false t) (has_meta t) (scan_plain t h))))

-- Where nothing quotes and nothing escapes, shell syntax is found exactly when a metacharacter or an
-- opening substitution stands anywhere in the command.
pub find_shell_syntax_plain :
    (command : Text)
    → All (λ c. is_quoting c ≡ false) command
    → found_any (find_shell_syntax command) ≡ has_meta command
unfolding find_shell_syntax
find_shell_syntax_plain command h = scan_plain command h
