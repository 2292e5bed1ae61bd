-- ===== src/Atomic/Write.antt =====
-- The second half of `apply_changes`: the preconditions, what changed, the scan for secrets, the writes
-- and `rollback`. Directories and the temporary file of a write are left out.
use patch_quest.Common.{
  ℕ, suc, Bool, true, false, not, ◌&&◌, Option, none, some, List, [], ◌∷◌, ◌++◌, map, ◌==◌, length,
  select, contains, if◌then◌else◌, nat_eq, string_eq,
}
use patch_quest.Text.{Text, text_beq, split, join}
use patch_quest.Text.Equality.{text_eq}
use patch_quest.Edit.{is_nil}
use patch_quest.Atomic.{
  Bytes, Files, put, Change, Outside, Entry, Kind, create, modify, delete, FileResult, PatchError,
  not_applicable, secrets_found, write_failed, file_changed, PatchResult,
}
use patch_quest.Atomic.Plan.{plan, find_entry}

abbrev pub same_text : Option Text → Option Text → Bool
same_text none none = true
same_text (some a) (some b) = text_beq a b
same_text _ _ = false

abbrev hash_of : Outside → Option Bytes → Option Text
hash_of outside none = none
hash_of outside (some raw) = some (outside.sha256 raw)

-- A path that was loaded, with another hash than the change was planned on.
abbrev is_stale : Outside → Option Text → Option Entry → Bool
is_stale outside expected none = false
is_stale outside expected (some e) = not (same_text (hash_of outside e.original) expected)

unfoldable pub stale : Outside → List (Text × Option Text) → List Entry → List PatchError
unfolding find_entry text_beq
stale outside [] entries = []
stale outside ((rel, expected) ∷ more) entries =
    let rest = stale outside more entries in
    if is_stale outside expected (find_entry rel entries) then file_changed rel ∷ rest else rest

abbrev pub is_changed : Entry → Bool
is_changed e = not (same_text e.old_text e.working)

abbrev kind_of : Option Text → Option Text → Kind
kind_of none text = create
kind_of (some old) none = delete
kind_of (some old) (some new) = modify

abbrev result_of : Entry → FileResult
result_of e = record { path = e.path; kind = kind_of e.old_text e.working }

-- The lines that the patch introduces.
unfoldable pub added_text : Text → Text → Text
unfolding split join select contains
added_text old new = join 10 (select (λ l. not (contains (split 10 old) l)) (split 10 new))

abbrev or_no_text : Option Text → Text
or_no_text none = []
or_no_text (some t) = t

abbrev findings_of : Outside → Entry → List Text
unfolding added_text
findings_of outside e = elim e.working [
  | none ↦ []
  | some [] ↦ []
  | some (c ∷ t) ↦ outside.scan (added_text (or_no_text e.old_text) (c ∷ t)) e.path
]

unfoldable pub all_findings : Outside → List Entry → List Text
unfolding added_text
all_findings outside [] = []
all_findings outside (e ∷ es) = findings_of outside e ++ all_findings outside es

-- A sequence of writes is finished, or stops at an OSError, or at another exception.
pub data Wrote : Type 0 where
  finished os_error raised : Files → Wrote

-- `text.replace("\n", newline)`
unfoldable pub with_newlines : Bool → Text → Text
with_newlines crlf [] = []
with_newlines crlf (c ∷ t) =
    let rest = with_newlines crlf t in if crlf && c == 10 then 13 ∷ 10 ∷ rest else c ∷ rest

-- The bytes to write, none where the file goes; `encode` may raise.
unfoldable pub bytes_of : Outside → Bool → Option Text → Option (Option Bytes)
unfolding with_newlines
bytes_of outside crlf none = some none
bytes_of outside crlf (some t) = elim (outside.encode (with_newlines crlf t)) [
  | none ↦ none
  | some raw ↦ some (some raw)
]

-- `_write`: the file is replaced as a whole, or stays.
unfoldable pub write : Outside → ℕ → Option Text → Option (Option Bytes) → Files → Wrote
unfolding put
write outside k none content files = raised files
write outside k (some target) none files = raised files
write outside k (some target) (some content) files =
    if outside.write_fails k then os_error files else finished (put target content files)

-- The next write, where this one was finished.
unfoldable pub and_then : (Files → Wrote) → Wrote → Wrote
and_then next (finished g) = next g
and_then next (os_error g) = os_error g
and_then next (raised g) = raised g

unfoldable pub write_all : Outside → ℕ → List Entry → Files → Wrote
unfolding and_then write bytes_of
write_all outside k [] files = finished files
write_all outside k (e ∷ es) files =
    and_then (λ g. write_all outside (suc k) es g)
      (write outside k (outside.resolve e.path) (bytes_of outside e.crlf e.working) files)

abbrev pub snapshot_of : List Entry → List (Text × Option Bytes)
snapshot_of es = map (λ e. (e.path, e.original)) es

-- `rollback`: the writes go on where those of the patch stopped.
unfoldable pub rollback : Outside → ℕ → List (Text × Option Bytes) → Files → Wrote
unfolding and_then write
rollback outside k [] files = finished files
rollback outside k ((rel, raw) ∷ more) files =
    and_then (λ g. rollback outside (suc k) more g)
      (write outside k (outside.resolve rel) (some raw) files)

-- What `apply_changes` returns, none where it raises, and the files as it leaves them.
pub record Applied : Type 0 where
  pub result : Option PatchResult
  pub files : Files

abbrev pub refused : List PatchError → List Text → List (Text × Option Bytes) → PatchResult
refused errors findings snapshot = record {
  success = false;
  files = [];
  errors = errors;
  findings = findings;
  snapshot = snapshot;
}

abbrev pub accepted : List Entry → List (Text × Option Bytes) → PatchResult
accepted es snapshot = record {
  success = true;
  files = map result_of es;
  errors = [];
  findings = [];
  snapshot = snapshot;
}

-- After the rollback of a failed write; what a rollback raises, `apply_changes` raises.
abbrev pub rolled_back : List Entry → Wrote → Applied
rolled_back es (finished g) = record {
  result = some (refused (write_failed ∷ []) [] (snapshot_of es));
  files = g;
}
rolled_back es (os_error g) = record { result = none; files = g }
rolled_back es (raised g) = record { result = none; files = g }

unfoldable pub commit : Outside → List Entry → Wrote → Applied
unfolding rollback
commit outside es (finished g) = record { result = some (accepted es (snapshot_of es)); files = g }
commit outside es (os_error g) = rolled_back es (rollback outside (length es) (snapshot_of es) g)
commit outside es (raised g) = record { result = none; files = g }

unfoldable pub save : Outside → Bool → List Entry → Files → Applied
unfolding write_all commit
save outside dry_run [] files = record { result = some (accepted [] []); files = files }
save outside dry_run (e ∷ es) files =
    if dry_run
    then record { result = some (accepted (e ∷ es) []); files = files }
    else commit outside (e ∷ es) (write_all outside 0 (e ∷ es) files)

unfoldable pub store : Outside → Bool → List Entry → Files → Applied
unfolding all_findings save
store outside dry_run es files =
    let findings = all_findings outside es in
    if is_nil findings
    then save outside dry_run es files
    else record { result = some (refused (secrets_found ∷ []) findings []); files = files }

unfoldable pub check : Outside → List (Text × Option Text) → Bool → List Entry → Files → Applied
unfolding stale store select
check outside expected dry_run entries files =
    let errors = stale outside expected entries in
    if is_nil errors
    then store outside dry_run (select is_changed entries) files
    else record { result = some (refused errors [] []); files = files }

unfoldable pub apply_planned :
    Outside → List (Text × Option Text) → Bool → Option (List Entry) → Files → Applied
unfolding check
apply_planned outside expected dry_run none files = record {
  result = some (refused (not_applicable ∷ []) [] []);
  files = files;
}
apply_planned outside expected dry_run (some entries) files =
    check outside expected dry_run entries files

unfoldable pub apply_changes :
    Outside → List Change → List (Text × Option Text) → Bool → Files → Applied
unfolding plan apply_planned
apply_changes outside changes expected dry_run files =
    apply_planned outside expected dry_run (plan outside files changes []) files
