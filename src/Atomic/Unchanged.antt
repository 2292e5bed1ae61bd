-- ===== src/Atomic/Unchanged.antt =====
-- Lemmas on `rollback` and the early returns of `apply_changes` in patching/engine.py.
use patch_quest.Common.{
  ℕ, suc, ◌≡◌, refl, sym, ap, ◌∙◌, inl, inr, Bool, true, false, not, ◌||◌, Option, none, some, List,
  [], ◌∷◌, Bool-cases, if_both, select-All, length, select, All, subst,
}
use patch_quest.Text.{Text, text_beq}
use patch_quest.Text.Equality.{text_beq_refl, text_beq-eq}
use patch_quest.Edit.{is_nil}
use patch_quest.Atomic.{Files, put, Change, Outside, Entry, PatchResult}
use patch_quest.Atomic.Plan.{plan}
use patch_quest.Atomic.Write.{
  Wrote, finished, os_error, raised, write, and_then, write_all, snapshot_of, rollback, Applied,
  accepted, rolled_back, commit, save, store, check, apply_planned, apply_changes, is_changed,
  stale, all_findings,
}
use patch_quest.Atomic.Loaded.{Loaded}
use patch_quest.Atomic.Confined.{files_of, Apart, Targets, write_all-Apart, planned-Loaded}

-- The result says that nothing was written.

abbrev pub wrote_nothing : Bool → PatchResult → Bool
wrote_nothing dry_run res = dry_run || not res.success

module _ (outside : Outside) (files : Files) (changes : List Change) where
  abbrev Same : Files → Type 0
  Same g = (p : Text) → g p ≡ files p

  -- Writing an original back makes one file more as it was.
  restored :
      (e : Entry) (es : List Entry) (g : Files) (l : Loaded outside files changes e)
      → Apart files (Targets outside (e ∷ es)) g
      → Apart files (Targets outside es) (put l.target e.original g)
  unfolding put
  restored e es g l h p = elim (Bool-cases (text_beq l.target p)) [
    | inl y ↦
        let same' : l.target ≡ p = text_beq-eq l.target p y in
        inl (rw y (sym l.original ∙ ap files same'))
    | inr n ↦ elim (h p) [
      | inl s ↦ inl (rw n s)
      | inr (inr t) ↦ inr t
      | inr (inl r) ↦
          let same' : l.target ≡ p = some_inj (sym l.resolves ∙ r) in
          absurd (cc (n, subst (λ w. text_beq l.target w ≡ true) same' (text_beq_refl l.target)))
    ]
  ]
    where
      some_inj : {a b : Text} → some a ≡ some b → a ≡ b
      some_inj e = cc e

  rollback-Same :
      (k : ℕ) (es : List Entry) (g h : Files)
      → All (Loaded outside files changes) es
      → Apart files (Targets outside es) g
      → rollback outside k (snapshot_of es) g ≡ finished h
      → Same h
  unfolding rollback and_then write
  rollback-Same k [] g h l apart e p = elim (apart p) [
    | inl s ↦ ap (λ (f : Files). f p) (sym (finished_inj e)) ∙ s
    | inr t ↦ absurd t
  ]
    where
      finished_inj : {f g : Files} → finished f ≡ finished g → f ≡ g
      finished_inj e = cc e
  rollback-Same k (d ∷ es) g h l apart e p = elim (Bool-cases (outside.write_fails k)) [
    | inl y ↦ absurd (cc (rw y at (rw (rollback, l.0.resolves) at e)))
    | inr n ↦
        rollback-Same (suc k) es (put l.0.target d.original g) h l.1 (restored d es g l.0 apart)
          (rw n at (rw (rollback, l.0.resolves) at e)) p
  ]

  -- A run that returned a result without success, or was dry.
  abbrev Quiet : Bool → Applied → Type 0
  Quiet dry_run a =
      (res : PatchResult) → a.result ≡ some res → wrote_nothing dry_run res ≡ true → Same a.files

  unwritten :
      (dry_run : Bool) (res : PatchResult)
      → Quiet dry_run (record { result = some res; files = files })
  unwritten dry_run res other e w p = refl

  rolled_back-Quiet :
      (es : List Entry) (g : Files) (w : Wrote)
      → All (Loaded outside files changes) es
      → Apart files (Targets outside es) g
      → rollback outside (length es) (snapshot_of es) g ≡ w
      → Quiet false (rolled_back es w)
  rolled_back-Quiet es g (finished h) l apart r res e q = rollback-Same (length es) es g h l apart r
  rolled_back-Quiet es g (os_error h) l apart r res e q = absurd (cc e)
  rolled_back-Quiet es g (raised h) l apart r res e q = absurd (cc e)

  commit-Quiet :
      (es : List Entry) (w : Wrote)
      → All (Loaded outside files changes) es
      → Apart files (Targets outside es) (files_of w)
      → Quiet false (commit outside es w)
  unfolding commit
  commit-Quiet es (finished g) l apart res e q =
      let same' : accepted es (snapshot_of es) ≡ res = cc e in
      absurd (cc (subst (λ (r : PatchResult). not r.success ≡ true) (sym same') q))
  commit-Quiet es (os_error g) l apart res e q =
      rolled_back-Quiet es g (rollback outside (length es) (snapshot_of es) g) l apart refl res e q
  commit-Quiet es (raised g) l apart res e q = absurd (cc e)

  save-Quiet :
      (dry_run : Bool) (es : List Entry)
      → All (Loaded outside files changes) es
      → Quiet dry_run (save outside dry_run es files)
  unfolding save
  save-Quiet dry_run [] l = unwritten dry_run (accepted [] [])
  save-Quiet true (e ∷ es) l = unwritten true (accepted (e ∷ es) [])
  save-Quiet false (e ∷ es) l =
      commit-Quiet (e ∷ es) (write_all outside 0 (e ∷ es) files) l
        (write_all-Apart outside 0 (e ∷ es) files)

  check-Quiet :
      (expected : List (Text × Option Text)) (dry_run : Bool) (entries : List Entry)
      → All (Loaded outside files changes) entries
      → Quiet dry_run (check outside expected dry_run entries files)
  unfolding check store
  check-Quiet expected dry_run entries l =
      let es = select is_changed entries in
      if_both (Quiet dry_run) (is_nil (stale outside expected entries))
        (if_both (Quiet dry_run) (is_nil (all_findings outside es))
          (save-Quiet dry_run es (select-All is_changed (Loaded outside files changes) entries l))
          (unwritten dry_run _))
        (unwritten dry_run _)

  planned-Quiet :
      (expected : List (Text × Option Text)) (dry_run : Bool) (o : Option (List Entry))
      → plan outside files changes [] ≡ o
      → Quiet dry_run (apply_planned outside expected dry_run o files)
  unfolding apply_planned
  planned-Quiet expected dry_run none e = unwritten dry_run _
  planned-Quiet expected dry_run (some entries) e =
      check-Quiet expected dry_run entries (planned-Loaded outside changes files entries e)

  -- Where `apply_changes` returns a result without success, after a write that failed as well, or where the
  -- run is dry, every file has the content that it had.
  pub apply_changes_unchanged :
      (expected : List (Text × Option Text)) (dry_run : Bool) (res : PatchResult) (p : Text)
      → (apply_changes outside changes expected dry_run files).result ≡ some res
      → wrote_nothing dry_run res ≡ true
      → (apply_changes outside changes expected dry_run files).files p ≡ files p
  unfolding apply_changes
  apply_changes_unchanged expected dry_run res p e q =
      planned-Quiet expected dry_run (plan outside files changes []) refl res e q p
