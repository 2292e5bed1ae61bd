-- ===== src/Atomic/Confined.antt =====
-- Lemmas on the paths that `apply_changes` of patching/engine.py writes.
use patch_quest.Common.{
  ℕ, suc, ◌≡◌, refl, ap, ◌∙◌, ◌⊎◌, inl, inr, Bool, Option, none, some, List, [], ◌∷◌, ◌==◌,
  Bool-cases, if_both, any_own, select-All, length, select, All, nat_eq, string_eq,
}
use patch_quest.Text.{Text, text_beq}
use patch_quest.Text.Equality.{text_eq, text_beq-eq}
use patch_quest.Edit.{is_nil}
use patch_quest.Atomic.{Bytes, Files, put, Change, path_of, Outside, Entry}
use patch_quest.Atomic.Plan.{plan}
use patch_quest.Atomic.Write.{
  Wrote, finished, os_error, raised, bytes_of, write, and_then, write_all, snapshot_of, rollback,
  Applied, rolled_back, commit, save, store, check, apply_planned, apply_changes, is_changed, stale,
  all_findings,
}
use patch_quest.Atomic.Loaded.{Loaded, Named, plan-Loaded}

abbrev pub files_of : Wrote → Files
files_of (finished g) = g
files_of (os_error g) = g
files_of (raised g) = g

-- The files are as before but where `A` says so.
abbrev pub Apart : Files → (Text → Type 0) → Files → Type 0
Apart files A g = (p : Text) → (g p ≡ files p) ⊎ A p

pub put-Apart :
    (target : Text) (content : Option Bytes) (files : Files)
    → Apart files (λ p. target ≡ p) (put target content files)
unfolding put
put-Apart target content files p = elim (Bool-cases (text_beq target p)) [
  | inl y ↦ inr (text_beq-eq target p y)
  | inr n ↦ inl (rw n refl)
]

module _ (outside : Outside) where
  -- The path resolves to this file.
  abbrev pub Resolves : Text → Text → Type 0
  Resolves rel p = outside.resolve rel ≡ some p

  write-Apart :
      (k : ℕ) (o : Option Text) (content : Option (Option Bytes)) (files : Files)
      → Apart files (λ p. o ≡ some p) (files_of (write outside k o content files))
  unfolding write
  write-Apart k none none files p = inl refl
  write-Apart k none (some c) files p = inl refl
  write-Apart k (some target) none files p = inl refl
  write-Apart k (some target) (some c) files p =
      if_both (λ w. (files_of w p ≡ files p) ⊎ (some target ≡ some p)) (outside.write_fails k)
        (inl refl) (elim (put-Apart target c files p) [ inl s ↦ inl s | inr e ↦ inr (ap some e) ])

  and_then-Apart :
      (files : Files) (A B : Text → Type 0) (next : Files → Wrote) (w : Wrote)
      → Apart files A (files_of w)
      → ((g : Files) → Apart g B (files_of (next g)))
      → Apart files (λ p. A p ⊎ B p) (files_of (and_then next w))
  unfolding and_then
  and_then-Apart files A B next (finished g) h after p = elim (after g p) [
    | inr b ↦ inr (inr b)
    | inl s ↦ elim (h p) [ inl t ↦ inl (s ∙ t) | inr a ↦ inr (inl a) ]
  ]
  and_then-Apart files A B next (os_error g) h after p = elim (h p) [
    | inl t ↦ inl t
    | inr a ↦ inr (inl a)
  ]
  and_then-Apart files A B next (raised g) h after p = elim (h p) [
    | inl t ↦ inl t
    | inr a ↦ inr (inl a)
  ]

  -- Some entry's path resolves to this file.
  abbrev pub Targets : List Entry → Text → Type 0
  Targets [] p = ⊥
  Targets (e ∷ es) p = Resolves e.path p ⊎ Targets es p

  pub write_all-Apart :
      (k : ℕ) (es : List Entry) (files : Files)
      → Apart files (Targets es) (files_of (write_all outside k es files))
  unfolding write_all
  write_all-Apart k [] files p = inl refl
  write_all-Apart k (e ∷ es) files p =
      and_then-Apart files (Resolves e.path) (Targets es) (λ g. write_all outside (suc k) es g)
        (write outside k (outside.resolve e.path) (bytes_of outside e.crlf e.working) files)
        (write-Apart k (outside.resolve e.path) (bytes_of outside e.crlf e.working) files)
        (λ g. write_all-Apart (suc k) es g) p

  rollback-Apart :
      (k : ℕ) (es : List Entry) (files : Files)
      → Apart files (Targets es) (files_of (rollback outside k (snapshot_of es) files))
  unfolding rollback
  rollback-Apart k [] files p = inl refl
  rollback-Apart k (e ∷ es) files p =
      and_then-Apart files (Resolves e.path) (Targets es)
        (λ g. rollback outside (suc k) (snapshot_of es) g)
        (write outside k (outside.resolve e.path) (some e.original) files)
        (write-Apart k (outside.resolve e.path) (some e.original) files)
        (λ g. rollback-Apart (suc k) es g) p

  rolled_back_files : (es : List Entry) (w : Wrote) → (rolled_back es w).files ≡ files_of w
  rolled_back_files es (finished g) = refl
  rolled_back_files es (os_error g) = refl
  rolled_back_files es (raised g) = refl

  commit-Apart :
      (es : List Entry) (files : Files) (w : Wrote)
      → Apart files (Targets es) (files_of w)
      → Apart files (Targets es) (commit outside es w).files
  unfolding commit
  commit-Apart es files (finished g) h p = h p
  commit-Apart es files (raised g) h p = h p
  commit-Apart es files (os_error g) h p =
      let same' =
        ap (λ (f : Files). f p)
          (rolled_back_files es (rollback outside (length es) (snapshot_of es) g)) in
      elim (rollback-Apart (length es) es g p) [
        | inr a ↦ inr a
        | inl s ↦ elim (h p) [ inl t ↦ inl (same' ∙ s ∙ t) | inr a ↦ inr a ]
      ]

  save-Apart :
      (dry_run : Bool) (es : List Entry) (files : Files)
      → Apart files (Targets es) (save outside dry_run es files).files
  unfolding save
  save-Apart dry_run [] files p = inl refl
  save-Apart dry_run (e ∷ es) files p =
      if_both (λ (a : Applied). (a.files p ≡ files p) ⊎ Targets (e ∷ es) p) dry_run (inl refl)
        (commit-Apart (e ∷ es) files (write_all outside 0 (e ∷ es) files)
          (write_all-Apart 0 (e ∷ es) files) p)

  module _ (changes : List Change) (files : Files) where
    -- One of the changes has a path that resolves to this file.
    abbrev pub Touched : Text → Type 0
    Touched p = (rel : Text) × Named changes rel × Resolves rel p

    Targets-Touched :
        (es : List Entry) (p : Text)
        → All (Loaded outside files changes) es
        → Targets es p
        → Touched p
    Targets-Touched [] p l t = absurd t
    Targets-Touched (e ∷ es) p l (inl r) = (e.path, l.0.named, r)
    Targets-Touched (e ∷ es) p l (inr t) = Targets-Touched es p l.1 t

    pub planned-Loaded :
        (entries : List Entry)
        → plan outside files changes [] ≡ some entries
        → All (Loaded outside files changes) entries
    unfolding path_of
    planned-Loaded entries h =
        plan-Loaded outside files changes changes [] entries
          (any_own (λ (c d : Change). path_of c == path_of d)
            (λ c. (text_eq.same_iff (path_of c) (path_of c)).1 refl) changes)
          tt h

    check-Touched :
        (expected : List (Text × Option Text)) (dry_run : Bool) (entries : List Entry)
        → All (Loaded outside files changes) entries
        → Apart files Touched (check outside expected dry_run entries files).files
    unfolding check store
    check-Touched expected dry_run entries l p =
        let es = select is_changed entries in
        let P = λ (a : Applied). (a.files p ≡ files p) ⊎ Touched p in
        if_both P (is_nil (stale outside expected entries))
          (if_both P (is_nil (all_findings outside es))
            (elim (save-Apart dry_run es files p) [
              | inl s ↦ inl s
              | inr t ↦ inr (
                  Targets-Touched es p
                    (select-All is_changed (Loaded outside files changes) entries l) t)
            ])
            (inl refl))
          (inl refl)

    planned-Touched :
        (expected : List (Text × Option Text)) (dry_run : Bool) (o : Option (List Entry))
        → plan outside files changes [] ≡ o
        → Apart files Touched (apply_planned outside expected dry_run o files).files
    unfolding apply_planned
    planned-Touched expected dry_run none e p = inl refl
    planned-Touched expected dry_run (some entries) e p =
        check-Touched expected dry_run entries (planned-Loaded entries e) p

    -- Whatever happens, a file that is not as before is one to which the path of one of the changes resolves.
    pub apply_changes-Touched :
        (expected : List (Text × Option Text)) (dry_run : Bool) (p : Text)
        → ((apply_changes outside changes expected dry_run files).files p ≡ files p) ⊎ Touched p
    unfolding apply_changes
    apply_changes-Touched expected dry_run p =
        planned-Touched expected dry_run (plan outside files changes []) refl p
