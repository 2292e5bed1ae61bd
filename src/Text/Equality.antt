-- ===== src/Text/Equality.antt =====
-- Lemmas on the comparison of texts.
use patch_quest.Common.{
  ◌≡◌, refl, sym, ◌∙◌, inl, inr, true, [], ◌∷◌, arith, Eq, ◌==◌, Bool-cases, subst, nat_eq,
  string_eq,
}
use patch_quest.Text.{Text, text_beq}

pub text_beq-eq : (s t : Text) → text_beq s t ≡ true → s ≡ t
unfolding text_beq
text_beq-eq [] [] h = refl
text_beq-eq [] (b ∷ t) h = absurd (cc h)
text_beq-eq (a ∷ s) [] h = absurd (cc h)
text_beq-eq (a ∷ s) (b ∷ t) h =
    let ih : text_beq s t ≡ true → s ≡ t = text_beq-eq s t in ground arith

pub text_beq_refl : (s : Text) → text_beq s s ≡ true
unfolding text_beq
text_beq_refl [] = refl
text_beq_refl (a ∷ s) = ground (arith, text_beq_refl s)

instance abbrev pub text_eq : Eq Text
text_eq = record {
  same = text_beq;
  same_iff = λ s t. (text_beq-eq s t, λ e. subst (λ w. text_beq s w ≡ true) e (text_beq_refl s));
}

pub same_comm : (a b : Text) → (a == b) ≡ (b == a)
same_comm a b = elim (Bool-cases (a == b)) [
  | inl y ↦ let e : a ≡ b = (text_eq.same_iff a b).0 y in y ∙ sym ((text_eq.same_iff b a).1 (sym e))
  | inr n ↦ elim (Bool-cases (b == a)) [
    | inl y ↦
        let e : b ≡ a = (text_eq.same_iff b a).0 y in
        let z : (a == b) ≡ true = (text_eq.same_iff a b).1 (sym e) in absurd (cc (n, z))
    | inr m ↦ n ∙ sym m
  ]
]
