-- ===== src/Atomic/Loaded.antt =====
-- Lemmas on `load` of patching/engine.py.
use patch_quest.Common.{
  ◌≡◌, refl, sym, ap, inl, inr, Bool, true, false, Option, none, some, List, [], ◌∷◌, ◌++◌, ◌==◌,
  Bool-cases, Option-cases, if_both, any, All, subst, nat_eq, string_eq,
}
use patch_quest.Text.{Text}
use patch_quest.Text.Equality.{text_eq}
use patch_quest.Atomic.{Bytes, Files, Change, path_of, Outside, Entry}
use patch_quest.Atomic.Ends.{LineEnds, of_new, decode-LineEnds}
use patch_quest.Atomic.Plan.{
  decode, entry_of, read_entry, find_entry, load, new_text, with_working, set_working, as_new,
  put_text, change_entry, plan_change, plan,
}

-- A path of one of the changes.

abbrev pub Named : List Change → Text → Type 0
unfolding path_of
Named changes rel = any (λ c. path_of c == rel) changes ≡ true

module _ (outside : Outside) (files : Files) (changes : List Change) where
  -- One of the changes has the entry's path, which resolves to a file whose content is the original.
  pub record Loaded (e : Entry) : Type 0 where
    pub named : Named changes e.path
    pub target : Text
    pub resolves : outside.resolve e.path ≡ some target
    pub original : files target ≡ e.original
    pub ends : LineEnds outside e.original e.crlf

  entry_of-original :
      (rel : Text) (raw : Option Bytes) (e : Entry)
      → entry_of outside rel raw ≡ some e
      → (e.path ≡ rel) × (raw ≡ e.original) × LineEnds outside e.original e.crlf
  unfolding entry_of
  entry_of-original rel none e h =
      let same' : record {
        path = rel;
        original = none;
        old_text = none;
        working = none;
        crlf = false;
      }
          ≡ e =
        cc h in
      subst
        (λ (w : Entry). (w.path ≡ rel) × (none ≡ w.original) × LineEnds outside w.original w.crlf)
        same' (refl, refl, of_new)
  entry_of-original rel (some raw) e h = by_text (decode outside raw) refl h
    where
      by_text :
          (o : Option (Text × Bool))
          → decode outside raw ≡ o
          → (elim o [
            | none ↦ none
            | some (text, crlf) ↦ some (record {
              path = rel;
              original = some raw;
              old_text = some text;
              working = some text;
              crlf = crlf;
            })
          ])
            ≡ some e
          → (e.path ≡ rel) × (some raw ≡ e.original) × LineEnds outside e.original e.crlf
      by_text none d h = absurd (cc h)
      by_text (some (text, crlf)) d h =
          let same' : record {
            path = rel;
            original = some raw;
            old_text = some text;
            working = some text;
            crlf = crlf;
          }
              ≡ e =
            cc h in
          subst
            (λ (w : Entry).
              (w.path ≡ rel) × (some raw ≡ w.original) × LineEnds outside w.original w.crlf)
            same' (refl, refl, decode-LineEnds outside raw text crlf d)

  read_entry-Loaded :
      (rel : Text) (target : Option Text) (e : Entry)
      → Named changes rel
      → outside.resolve rel ≡ target
      → read_entry outside files rel target ≡ some e
      → Loaded e
  unfolding read_entry
  read_entry-Loaded rel none e named r h = absurd (cc h)
  read_entry-Loaded rel (some target) e named r h =
      elim (Bool-cases (outside.is_irregular target)) [
        | inl y ↦ absurd (cc (rw y at h))
        | inr n ↦
            let (p, o, ends) = entry_of-original rel (files target) e (rw n at h) in
            record {
              named = subst (Named changes) (sym p) named;
              target = target;
              resolves = subst (λ w. outside.resolve w ≡ some target) (sym p) r;
              original = o;
              ends = ends;
            }
      ]

  with_working-Loaded : (text : Option Text) (e : Entry) → Loaded e → Loaded (with_working text e)
  with_working-Loaded text e l = record {
    named = l.named;
    target = l.target;
    resolves = l.resolves;
    original = l.original;
    ends = l.ends;
  }

  set_working-Loaded :
      (rel : Text) (text : Option Text) (es : List Entry)
      → All Loaded es
      → All Loaded (set_working rel text es)
  unfolding set_working
  set_working-Loaded rel text [] h = tt
  set_working-Loaded rel text (e ∷ es) h = (
    if_both Loaded (e.path == rel) (with_working-Loaded text e h.0) h.0,
    set_working-Loaded rel text es h.1,
  )

  append-Loaded :
      (es : List Entry) (e : Entry) → All Loaded es → Loaded e → All Loaded (es ++ e ∷ [])
  append-Loaded [] e h l = (l, tt)
  append-Loaded (d ∷ ds) e h l = (h.0, append-Loaded ds e h.1 l)

  -- Where the load says that the entry is new, it was read now.
  as_new-some : (o : Option Entry) (e : Entry) → as_new o ≡ some (e, true) → o ≡ some e
  as_new-some none e h = absurd (cc h)
  as_new-some (some d) e h = cc h

  load-Loaded :
      (rel : Text) (known : Option Entry) (e : Entry)
      → Named changes rel
      → load outside files rel known ≡ some (e, true)
      → Loaded e
  unfolding load
  load-Loaded rel (some k) e named h = absurd (cc h)
  load-Loaded rel none e named h =
      read_entry-Loaded rel (outside.resolve rel) e named refl
        (as_new-some (read_entry outside files rel (outside.resolve rel)) e h)

  put_text-Loaded :
      (rel : Text) (e : Entry) (is_new : Bool) (entries : List Entry) (text : Option (Option Text))
      (after : List Entry)
      → All Loaded entries
      → (is_new ≡ true → Loaded e)
      → put_text rel e is_new entries text ≡ some after
      → All Loaded after
  unfolding put_text
  put_text-Loaded rel e is_new entries none after l new h = absurd (cc h)
  put_text-Loaded rel e true entries (some text) after l new h =
      let same' : entries ++ with_working text e ∷ [] ≡ after = cc h in
      subst (All Loaded) same'
        (append-Loaded entries (with_working text e) l (with_working-Loaded text e (new refl)))
  put_text-Loaded rel e false entries (some text) after l new h =
      let same' : set_working rel text entries ≡ after = cc h in
      subst (All Loaded) same' (set_working-Loaded rel text entries l)

  change_entry-Loaded :
      (change : Change) (entries : List Entry) (o : Option (Entry × Bool)) (after : List Entry)
      → All Loaded entries
      → ((e : Entry) → o ≡ some (e, true) → Loaded e)
      → change_entry change entries o ≡ some after
      → All Loaded after
  unfolding change_entry
  change_entry-Loaded change entries none after l new h = absurd (cc h)
  change_entry-Loaded change entries (some (e, is_new)) after l new h =
      put_text-Loaded (path_of change) e is_new entries (new_text change e.working) after l
        (λ y. new e (ap (λ b. some (e, b)) y)) h

  pub plan-Loaded :
      (todo : List Change) (entries after : List Entry)
      → All (λ c. Named changes (path_of c)) todo
      → All Loaded entries
      → plan outside files todo entries ≡ some after
      → All Loaded after
  unfolding plan plan_change
  plan-Loaded [] entries after named l h =
      let same' : entries ≡ after = cc h in subst (All Loaded) same' l
  plan-Loaded (change ∷ todo) entries after named l h =
      elim (Option-cases (plan_change outside files change entries)) [
        | inl e ↦ absurd (cc (rw (plan, e) at h))
        | inr (es, e) ↦
            plan-Loaded todo es after named.1
              (change_entry-Loaded change entries
                (load outside files (path_of change) (find_entry (path_of change) entries)) es l
                (λ d new.
                  load-Loaded (path_of change) (find_entry (path_of change) entries) d named.0 new)
                e)
              (rw (plan, e) at h)
      ]
