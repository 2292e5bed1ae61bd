-- ===== src/Atomic/Written.antt =====
-- Lemmas on the writes of `apply_changes` in patching/engine.py, and on `_with_newlines`.
use patch_quest.Common.{
  ℕ, suc, ◌≡◌, refl, sym, ap, ◌∙◌, inl, inr, true, false, Option, none, some, List, [], ◌∷◌,
  Bool-cases, if_both, length, select, select-All, All, subst,
}
use patch_quest.Text.{Text}
use patch_quest.Text.Equality.{text_beq_refl}
use patch_quest.Edit.{is_nil}
use patch_quest.Atomic.{Bytes, Files, put, Change, Outside, Entry, PatchResult}
use patch_quest.Atomic.Plan.{plan}
use patch_quest.Atomic.Write.{
  Wrote, finished, os_error, raised, bytes_of, write, and_then, write_all, snapshot_of, rollback,
  Applied, rolled_back, commit, save, store, check, apply_planned, apply_changes, is_changed, stale,
  all_findings,
}
use patch_quest.Atomic.Ends.{Encoded, bytes_of-Encoded, LineEnds}
use patch_quest.Atomic.Loaded.{Loaded}
use patch_quest.Atomic.Confined.{planned-Loaded, files_of, Resolves, Targets, write_all-Apart}

module _ (outside : Outside) where
  -- The file of an entry has the lines of the text that was planned, with the entry's line ends, encoded,
  -- or is gone where no text was.
  pub record Written (after : Files) (e : Entry) : Type 0 where
    pub target : Text
    pub content : Option Bytes
    pub resolves : Resolves outside e.path target
    pub encoded : Encoded outside e.crlf e.working content
    pub stands : after target ≡ content

  -- The line ends of an entry are those that its file had before.
  pub record KeepsEnds (before : Files) (e : Entry) : Type 0 where
    pub target : Text
    pub resolves : Resolves outside e.path target
    pub ends : LineEnds outside (before target) e.crlf

  Loaded-KeepsEnds :
      (before : Files) (changes : List Change) (es : List Entry)
      → All (Loaded outside before changes) es
      → All (KeepsEnds before) es
  Loaded-KeepsEnds before changes [] h = tt
  Loaded-KeepsEnds before changes (e ∷ es) h = (
    record {
      target = h.0.target;
      resolves = h.0.resolves;
      ends = subst (λ o. LineEnds outside o e.crlf) (sym h.0.original) h.0.ends;
    },
    Loaded-KeepsEnds before changes es h.1,
  )

  -- No two entries are the same file.
  abbrev pub Separate : List Entry → Type 0
  Separate [] = Unit
  Separate (e ∷ es) =
      ((p : Text) → Resolves outside e.path p → ¬ (Targets outside es p)) × Separate es

  put_same :
      (target : Text) (content : Option Bytes) (files : Files)
      → put target content files target ≡ content
  unfolding put
  put_same target content files = rw (text_beq_refl target) refl

  -- A finished write had a target and a content.
  abbrev Put : ℕ → Option Text → Option (Option Bytes) → Files → Files → Type 0
  Put k o c g h =
      (target : Text) × (content : Option Bytes) × (o ≡ some target)
      × (c ≡ some content)
      × (put target content g ≡ h)

  write-Put :
      (k : ℕ) (o : Option Text) (c : Option (Option Bytes)) (g h : Files)
      → write outside k o c g ≡ finished h
      → Put k o c g h
  unfolding write
  write-Put k none none g h e = absurd (cc e)
  write-Put k none (some c) g h e = absurd (cc e)
  write-Put k (some target) none g h e = absurd (cc e)
  write-Put k (some target) (some c) g h e = elim (Bool-cases (outside.write_fails k)) [
    | inl y ↦ absurd (cc (rw y at e))
    | inr n ↦ (target, c, refl, refl, cc (rw n at e))
  ]

  and_then-finished :
      (next : Files → Wrote) (w : Wrote) (h : Files)
      → and_then next w ≡ finished h
      → (g : Files) × (w ≡ finished g) × (next g ≡ finished h)
  unfolding and_then
  and_then-finished next (finished g) h e = (g, refl, e)
  and_then-finished next (os_error g) h e = absurd (cc e)
  and_then-finished next (raised g) h e = absurd (cc e)

  write_all-Written :
      (k : ℕ) (es : List Entry) (g h : Files)
      → Separate es
      → write_all outside k es g ≡ finished h
      → All (Written h) es
  unfolding write_all
  write_all-Written k [] g h s e = tt
  write_all-Written k (d ∷ es) g h s e =
      let (m, first', rest) =
        and_then-finished (λ f. write_all outside (suc k) es f)
          (write outside k (outside.resolve d.path) (bytes_of outside d.crlf d.working) g) h e in
      let (target, content, resolves, encoded, put') =
        write-Put k (outside.resolve d.path) (bytes_of outside d.crlf d.working) g m first' in
      (
        record {
          target = target;
          content = content;
          resolves = resolves;
          encoded = bytes_of-Encoded outside d.crlf d.working content encoded;
          stands = elim (write_all-Apart outside (suc k) es m target) [
            | inr t ↦ absurd (s.0 target resolves t)
            | inl same' ↦
                ap (λ (w : Wrote). files_of w target) (sym rest)
                ∙ same'
                ∙ ap (λ (f : Files). f target) (sym put')
                ∙ put_same target content g
          ];
        },
        write_all-Written (suc k) es m h s.1 rest,
      )

  -- A result of success, that came from writing.
  abbrev WroteOut : List Entry → Applied → Type 0
  WroteOut es a =
      (res : PatchResult) → a.result ≡ some res → res.success ≡ true → All (Written a.files) es

  no_success :
      (res other : PatchResult)
      → res.success ≡ false
      → some res ≡ some other
      → other.success ≡ true
      → ⊥
  no_success res other f e s =
      let same' : res ≡ other = cc e in cc (sym f ∙ ap (λ (r : PatchResult). r.success) same' ∙ s)

  commit-Written :
      (es : List Entry) (g : Files) (w : Wrote)
      → Separate es
      → write_all outside 0 es g ≡ w
      → WroteOut es (commit outside es w)
  unfolding commit
  commit-Written es g (finished h) s e res r ok = write_all-Written 0 es g h s e
  commit-Written es g (raised h) s e res r ok = absurd (cc r)
  commit-Written es g (os_error h) s e res r ok =
      absurd (never (rollback outside (length es) (snapshot_of es) h) r)
    where
      never : (w : Wrote) → (rolled_back es w).result ≡ some res → ⊥
      never (finished f) q = no_success _ res refl q ok
      never (os_error f) q = cc q
      never (raised f) q = cc q

  save-Written :
      (es : List Entry) (files : Files) → Separate es → WroteOut es (save outside false es files)
  unfolding save
  save-Written [] files s res r ok = tt
  save-Written (e ∷ es) files s res r ok =
      commit-Written (e ∷ es) files (write_all outside 0 (e ∷ es) files) s refl res r ok

  check-Written :
      (expected : List (Text × Option Text)) (entries : List Entry) (files : Files)
      → Separate (select is_changed entries)
      → WroteOut (select is_changed entries) (check outside expected false entries files)
  unfolding check store
  check-Written expected entries files s =
      let es = select is_changed entries in
      if_both (WroteOut es) (is_nil (stale outside expected entries))
        (if_both (WroteOut es) (is_nil (all_findings outside es)) (save-Written es files s)
          (λ res r ok. absurd (no_success _ res refl r ok)))
        (λ res r ok. absurd (no_success _ res refl r ok))

  -- Where a patch that is no dry run returns success, and no two of the entries whose text changes are the
  -- same file, the file of each of them has the lines of the planned text, encoded, with "\r\n" between
  -- them where the text of the file had it before, and else "\n", or is gone where the plan deletes it.
  pub apply_changes-Written :
      (changes : List Change) (expected : List (Text × Option Text)) (files : Files)
      (entries : List Entry) (res : PatchResult)
      → plan outside files changes [] ≡ some entries
      → Separate (select is_changed entries)
      → (apply_changes outside changes expected false files).result ≡ some res
      → res.success ≡ true
      → All
          (Written (apply_changes outside changes expected false files).files)
          (select is_changed entries)
        × All (KeepsEnds files) (select is_changed entries)
  unfolding apply_changes apply_planned
  apply_changes-Written changes expected files entries res planned s r ok =
      let same' = ap (λ o. apply_planned outside expected false o files) planned in
      (
        subst (λ (a : Applied). All (Written a.files) (select is_changed entries)) (sym same')
            (check-Written expected entries files s res
              (subst (λ (a : Applied). a.result ≡ some res) same' r) ok),
        Loaded-KeepsEnds files changes (select is_changed entries) (
            select-All is_changed (Loaded outside files changes) entries
              (planned-Loaded outside changes files entries planned)),
      )
