-- ===== src/Checkpoint/Saved.antt =====
-- Lemmas on `save` followed by `latest_valid` in persistence/checkpoints.py.
use patch_quest.Common.{
  ℕ, ◌+◌, ◌≤◌, max, ◌≡◌, refl, sym, ap, ◌∙◌, inl, inr, true, some, List, [], ◌∷◌, ◌++◌, arith, ltb,
  ◌==◌, lt→ltb, Bool-cases, length, select, All, nat_eq, string_eq,
}
use patch_quest.Text.Equality.{text_beq_refl}
use patch_quest.Checkpoint.{
  Checkpoint, Row, Outside, Taken, valid, max_checkpoint_bytes, last_seq, checkpoint_of, row_of,
  save, upgrade, upgraded, parsed, verified, decode, insert_desc, newest_first, or_next,
  first_valid, of_run, latest_valid,
}

-- What `last_seq` bounds.

last_seq-All : (run : ℕ) (rows : List Row) → All (λ r. r.seq ≤ last_seq run rows) (of_run run rows)
unfolding last_seq select
last_seq-All run [] = tt
last_seq-All run (r ∷ rs) = elim (Bool-cases (r.run_id == run)) [
  | inl y ↦ rw (last_seq, y) (omega arith, raised (of_run run rs) (last_seq-All run rs))
  | inr n ↦ rw (last_seq, n) (last_seq-All run rs)
]
  where
    raised :
        (ss : List Row)
        → All (λ s. s.seq ≤ last_seq run rs) ss
        → All (λ s. s.seq ≤ max r.seq (last_seq run rs)) ss
    raised [] h = tt
    raised (s ∷ ss) h = (omega (arith, h.0), raised ss h.1)

of_run-append :
    (run : ℕ) (rows : List Row) (r : Row)
    → r.run_id ≡ run
    → of_run run (rows ++ r ∷ []) ≡ of_run run rows ++ r ∷ []
unfolding select
of_run-append run [] r e =
    let t : (r.run_id == run) ≡ true = (nat_eq.same_iff r.run_id run).1 e in rw (select, t) refl
of_run-append run (s ∷ ss) r e =
    let ih = of_run-append run ss r e in
    elim (Bool-cases (s.run_id == run)) [
      | inl y ↦ rw (select, y) (ap (λ ts. s ∷ ts) ih)
      | inr n ↦ rw (select, n) ih
    ]

-- A row newer than all others comes first.
newest_first-append :
    (rows : List Row) (r : Row)
    → All (λ s. s.seq + 1 ≤ r.seq) rows
    → newest_first (rows ++ r ∷ []) ≡ r ∷ newest_first rows
unfolding newest_first insert_desc
newest_first-append [] r h = refl
newest_first-append (s ∷ ss) r h =
    let ih = newest_first-append ss r h.1 in
    let newer : ltb s.seq r.seq ≡ true = lt→ltb s.seq r.seq (omega (arith, h.0)) in
    ap (insert_desc s) ih ∙ rw (insert_desc, newer) refl

module _ (outside : Outside) (t : Taken) where
  decode-row_of :
      (id created seq : ℕ)
      → outside.loads (outside.dumps t.state) ≡ some t.state
      → outside.loads (outside.dumps t.fingerprint) ≡ some t.fingerprint
      → decode outside (row_of outside id created seq t) ≡ valid (checkpoint_of id created seq t)
  unfolding decode verified parsed upgrade upgraded
  decode-row_of id created seq s f =
      let same' = text_beq_refl (row_of outside id created seq t).checksum in
      rw same' (rw (s, f) refl)

  one_more :
      (n : ℕ) (rows : List Row) → All (λ s. s.seq ≤ n) rows → All (λ s. s.seq + 1 ≤ n + 1) rows
  one_more n [] h = tt
  one_more n (s ∷ ss) h = (omega (arith, h.0), one_more n ss h.1)

  latest_valid-append :
      (id created : ℕ) (rows : List Row)
      → outside.loads (outside.dumps t.state) ≡ some t.state
      → outside.loads (outside.dumps t.fingerprint) ≡ some t.fingerprint
      → latest_valid outside t.run_id
          (rows ++ row_of outside id created (last_seq t.run_id rows + 1) t ∷ [])
        ≡ (some (checkpoint_of id created (last_seq t.run_id rows + 1) t), [])
  unfolding latest_valid first_valid or_next
  latest_valid-append id created rows s f =
      let seq = last_seq t.run_id rows + 1 in
      let r = row_of outside id created seq t in
      let mine = of_run t.run_id rows in
      let newer = one_more (last_seq t.run_id rows) mine (last_seq-All t.run_id rows) in
      ap (λ rs. first_valid outside (newest_first rs)) (of_run-append t.run_id rows r refl)
      ∙ ap (first_valid outside) (newest_first-append mine r newer)
      ∙ ap (λ d. or_next d (first_valid outside (newest_first mine)))
          (decode-row_of id created seq s f)

  -- Where the JSON of the state and of the fingerprint reads back, the checkpoint that `save` returns is the
  -- one that `latest_valid` finds for the run afterwards, and no newer row had a problem.
  pub latest_valid-save :
      (id created : ℕ) (rows after : List Row) (cp : Checkpoint)
      → outside.loads (outside.dumps t.state) ≡ some t.state
      → outside.loads (outside.dumps t.fingerprint) ≡ some t.fingerprint
      → save outside id created t rows ≡ some (cp, after)
      → latest_valid outside t.run_id after ≡ (some cp, [])
  unfolding save latest_valid
  latest_valid-save id created rows after cp s f h =
      let seq = last_seq t.run_id rows + 1 in
      elim (Bool-cases (ltb max_checkpoint_bytes (length (outside.dumps t.state)))) [
        | inl y ↦ absurd (cc (rw (save, y) at h))
        | inr n ↦
            let k : some
                  (checkpoint_of id created seq t, rows ++ row_of outside id created seq t ∷ [])
                ≡ some (cp, after) =
              rw (save, n) at h in
            let same' : checkpoint_of id created seq t ≡ cp = cc k in
            let rows' : rows ++ row_of outside id created seq t ∷ [] ≡ after = cc k in
            ap (latest_valid outside t.run_id) (sym rows')
            ∙ latest_valid-append id created rows s f
            ∙ ap (λ c. (some c, [])) same'
      ]
