-- ===== src/Edit/Once.antt =====
-- Lemmas on `apply_search_replace` of patching/edits.py, for an exact search.
use patch_quest.Common.{
  ℕ, zero, suc, ◌-◌, ◌≡◌, refl, sym, ap, ◌∙◌, inl, inr, true, false, [], ◌∷◌, ◌++◌, arith, ◌==◌,
  Bool-cases, length, drop, subst, nat_eq, string_eq,
}
use patch_quest.Text.{Text, starts_with}
use patch_quest.Edit.{
  SearchReplace, edited, occurrences, replaced, apply_search_replace, is_nil, count,
}

starts-split : (s t : Text) → starts_with s t ≡ true → t ≡ s ++ drop (length s) t
unfolding starts_with
starts-split [] t h = refl
starts-split (a ∷ s) [] h = absurd (cc h)
starts-split (a ∷ s) (b ∷ t) h =
    let ih : starts_with s t ≡ true → t ≡ s ++ drop (length s) t = starts-split s t in
    let same' : a ≡ b = ground arith in
    ap (λ w. b ∷ w) (ih (ground arith)) ∙ ap (λ w. w ∷ (s ++ drop (length s) t)) (sym same')

module _ (a : ℕ) (s r : Text) where
  none-replaced :
      (k : ℕ) (t : Text) → occurrences (a ∷ s) k t ≡ 0 → replaced (a ∷ s) r k t ≡ drop k t
  unfolding occurrences replaced
  none-replaced zero [] h = refl
  none-replaced (suc k) [] h = refl
  none-replaced (suc k) (c ∷ t) h = none-replaced k t h
  none-replaced zero (c ∷ t) h = elim (Bool-cases (starts_with (a ∷ s) (c ∷ t))) [
    | inl y ↦ absurd (omega (arith, rw (occurrences, y) at h))
    | inr n ↦ rw (replaced, n) (ap (λ w. c ∷ w) (none-replaced zero t (rw (occurrences, n) at h)))
  ]

  -- The text around one occurrence.
  abbrev pub Around : Text → Text → Type 0
  Around t u =
      (before : Text) × (after : Text) × (t ≡ before ++ ((a ∷ s) ++ after))
      × (u ≡ before ++ (r ++ after))

  once-replaced : (t : Text) → occurrences (a ∷ s) 0 t ≡ 1 → Around t (replaced (a ∷ s) r 0 t)
  unfolding occurrences replaced
  once-replaced [] h = absurd (omega (arith, h))
  once-replaced (c ∷ t) h = elim (Bool-cases (starts_with (a ∷ s) (c ∷ t))) [
    | inl y ↦
        let skip = length (a ∷ s) - 1 in
        let same' : skip ≡ length s = omega arith in
        let zero' : occurrences (a ∷ s) skip t ≡ 0 = omega (arith, rw (occurrences, y) at h) in
        rw (replaced, y)
          (
            [],
            drop (length s) t,
            starts-split (a ∷ s) (c ∷ t) y,
            ap (λ w. r ++ w) (none-replaced skip t zero' ∙ ap (λ k. drop k t) same'),
          )
    | inr n ↦
        let (before, after, e, f) = once-replaced t (rw (occurrences, n) at h) in
        rw (replaced, n) (c ∷ before, after, ap (λ w. c ∷ w) e, ap (λ w. c ∷ w) f)
  ]

  -- An edit whose search stands once in the text is applied there, and changes nothing around it.
  pub replace_once :
      (text : Text) (edit : SearchReplace)
      → edit.search ≡ a ∷ s
      → edit.replace ≡ r
      → count (a ∷ s) text ≡ 1
      → (u : Text) × (apply_search_replace text edit ≡ edited u) × Around text u
  unfolding apply_search_replace
  replace_once text edit es er once =
      let e : (count edit.search text == 1) ≡ true =
        subst (λ w. (count w text == 1) ≡ true) (sym es) (ground arith) in
      let nonempty : is_nil edit.search ≡ false = subst (λ w. is_nil w ≡ false) (sym es) refl in
      (
        replaced (a ∷ s) r 0 text,
        rw nonempty (
            rw e (
              ap edited (
                subst (λ w. replaced w edit.replace 0 text ≡ replaced (a ∷ s) r 0 text) (sym es)
                  (ap (λ v. replaced (a ∷ s) v 0 text) er)))),
        once-replaced text once,
      )
