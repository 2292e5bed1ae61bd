-- ===== src/Atomic/Ends.antt =====
-- Lemmas on `text.replace("\n", newline).encode("utf-8")` in `_write` of patching/engine.py.
use patch_quest.Common.{
  ℕ, ◌≡◌, refl, ap, ◌∙◌, inl, inr, Bool, true, false, Option, none, some, List, [], ◌∷◌, ◌++◌, ◌==◌,
  any, take, length, ltb, sym, subst, Bool-cases, Option-cases, nat_eq,
}
use patch_quest.Text.{Text, split, is_within}
use patch_quest.Atomic.Plan.{max_file_bytes, decode}
use patch_quest.Atomic.{Bytes, Outside}
use patch_quest.Atomic.Write.{with_newlines, bytes_of}

-- A text as its lines, one line end between each two of them.

abbrev pub line_end : Bool → Text
line_end true = 13 ∷ 10 ∷ []
line_end false = 10 ∷ []

unfoldable pub joined : Text → List Text → Text
joined ending [] = []
joined ending (line ∷ []) = line
joined ending (line ∷ next ∷ lines) = line ++ ending ++ joined ending (next ∷ lines)

split-head : (t : Text) → (line : Text) × (lines : List Text) × (split 10 t ≡ line ∷ lines)
unfolding split
split-head [] = ([], [], refl)
split-head (c ∷ t) = elim (Bool-cases (c == 10)) [
  | inl y ↦ ([], split 10 t, rw (split, y) refl)
  | inr n ↦ let (line, lines, e) = split-head t in (c ∷ line, lines, rw (split, n) (rw e refl))
]

joined-char :
    (ending : Text) (c : ℕ) (line : Text) (lines : List Text)
    → c ∷ joined ending (line ∷ lines) ≡ joined ending ((c ∷ line) ∷ lines)
unfolding joined
joined-char ending c line [] = refl
joined-char ending c line (next ∷ lines) = refl

newlines-end :
    (crlf : Bool) (c : ℕ) (t : Text)
    → (c == 10) ≡ true
    → with_newlines crlf (c ∷ t) ≡ line_end crlf ++ with_newlines crlf t
unfolding with_newlines
newlines-end true c t y = rw (with_newlines, y) refl
newlines-end false c t y = ap (λ w. w ∷ with_newlines false t) ((nat_eq.same_iff c 10).0 y)

newlines-char :
    (crlf : Bool) (c : ℕ) (t : Text)
    → (c == 10) ≡ false
    → with_newlines crlf (c ∷ t) ≡ c ∷ with_newlines crlf t
unfolding with_newlines
newlines-char true c t n = rw (with_newlines, n) refl
newlines-char false c t n = refl

with_newlines-joined :
    (crlf : Bool) (t : Text) → with_newlines crlf t ≡ joined (line_end crlf) (split 10 t)
unfolding split joined
with_newlines-joined crlf [] = unfold with_newlines in refl
with_newlines-joined crlf (c ∷ t) =
    let (line, lines, e) = split-head t in
    let ih : with_newlines crlf t ≡ joined (line_end crlf) (line ∷ lines) =
      with_newlines-joined crlf t ∙ ap (λ ls. joined (line_end crlf) ls) e in
    elim (Bool-cases (c == 10)) [
      | inl y ↦ rw (split, y) (rw e (newlines-end crlf c t y ∙ ap (λ w. line_end crlf ++ w) ih))
      | inr n ↦
          rw (split, n)
            (rw e (
              newlines-char crlf c t n
              ∙ ap (λ w. c ∷ w) ih
              ∙ joined-char (line_end crlf) c line lines))
    ]

-- What stands in a file that was written: nothing, or the lines of the text with the line end, encoded.
pub data Encoded (outside : Outside) (crlf : Bool) : Option Text → Option Bytes → Type 0 where
  absent : Encoded outside crlf none none
  encoded_lines :
      (t : Text) (raw : Bytes)
      → outside.encode (joined (line_end crlf) (split 10 t)) ≡ some raw
      → Encoded outside crlf (some t) (some raw)

pub bytes_of-Encoded :
    (outside : Outside) (crlf : Bool) (o : Option Text) (content : Option Bytes)
    → bytes_of outside crlf o ≡ some content
    → Encoded outside crlf o content
unfolding bytes_of
bytes_of-Encoded outside crlf none content h = subst (Encoded outside crlf none) (cc h) absent
bytes_of-Encoded outside crlf (some t) content h =
    elim (Option-cases (outside.encode (with_newlines crlf t))) [
      | inl e ↦ absurd (cc (rw (bytes_of, e) at h))
      | inr (raw, e) ↦
          let same' : some raw ≡ content = cc (rw (bytes_of, e) at h) in
          subst (Encoded outside crlf (some t)) same'
            (encoded_lines t raw (ap outside.encode (sym (with_newlines-joined crlf t)) ∙ e))
    ]

-- The line ends of a file as it was: "\r\n" where its text has one, and "\n" for a new file.
pub data LineEnds (outside : Outside) : Option Bytes → Bool → Type 0 where
  of_new : LineEnds outside none false
  of_text :
      (raw : Bytes) (text : Text)
      → outside.decode raw ≡ some text
      → LineEnds outside (some raw) (is_within (13 ∷ 10 ∷ []) text)

pub decode-LineEnds :
    (outside : Outside) (raw : Bytes) (text : Text) (crlf : Bool)
    → decode outside raw ≡ some (text, crlf)
    → LineEnds outside (some raw) crlf
unfolding decode
decode-LineEnds outside raw text crlf h = elim (Bool-cases (ltb max_file_bytes (length raw))) [
  | inl y ↦ absurd (cc (rw (decode, y) at h))
  | inr n ↦ elim (Bool-cases (any (λ b. b == 0) (take 8192 raw))) [
    | inl y ↦ absurd (cc (rw y at (rw (decode, n) at h)))
    | inr m ↦ elim (Option-cases (outside.decode raw)) [
      | inl e ↦ absurd (cc (rw e at (rw m at (rw (decode, n) at h))))
      | inr (t, e) ↦
          let same' : (is_within (13 ∷ 10 ∷ []) t) ≡ crlf =
            cc (rw e at (rw m at (rw (decode, n) at h))) in
          subst (LineEnds outside (some raw)) same' (of_text raw t e)
    ]
  ]
]
