-- ===== src/Drift.antt =====
-- backend/patchquest/runtime/fingerprint.py: whether a repository moved since a checkpoint. A hash is a
-- text, and the files are a dict from paths to hashes, none where a file is absent.
pub mod Changes
use patch_quest.Common.{
  String, Bool, true, false, not, ◌&&◌, ◌||◌, Option, none, some, List, [], ◌∷◌, ◌==◌, select,
  contains, if◌then◌else◌, nat_eq, string_eq,
}
use patch_quest.Policy.{lookup}

pub data Drift : Type 0 where
  no_drift safe_drift conflicting_drift unknown_drift : Drift

abbrev pub Files : Type 0
Files = List (String × Option String)

pub record RepoFingerprint : Type 0 where
  pub head : Option String
  pub branch : Option String
  pub status_hash : Option String
  pub is_git : Bool
  pub files : Files
  pub errors : List String

-- The f-strings of the reasons, as data.
pub data Why : Type 0 where
  modified : List String → Why
  not_compared not_recorded : Why
  moved_on : List String → Why
  inputs_changed : List String → Why

pub record DriftReport : Type 0 where
  pub kind : Drift
  pub conflicting : List String
  pub stale_context : List String
  pub reasons : List Why

unfoldable pub hash_beq : Option String → Option String → Bool
hash_beq none none = true
hash_beq (some a) (some b) = a == b
hash_beq _ _ = false

abbrev pub differs : Option String → Option (Option String) → Bool
differs a none = false
differs a (some b) = not (hash_beq a b)

-- The paths in both dicts whose hashes differ, in the order of the old one; the source sorts them.
unfoldable pub changed : Files → Files → List String
unfolding lookup hash_beq
changed [] new = []
changed ((rel, a) ∷ old) new =
    let rest = changed old new in if differs a (lookup new rel) then rel ∷ rest else rest

abbrev pub name_if : String → Bool → List String → List String
name_if name true names = names
name_if name false names = name ∷ names

unfoldable pub moved : RepoFingerprint → RepoFingerprint → List String
unfolding hash_beq
moved old new = name_if "HEAD" (hash_beq old.head new.head) (
    name_if "branch" (hash_beq old.branch new.branch)
      (name_if "working tree" (hash_beq old.status_hash new.status_hash) []))

abbrev pub is_nil {ℓ} : {A : Type ℓ} → List A → Bool
is_nil [] = true
is_nil (x ∷ xs) = false

abbrev same_flag : Bool → Bool → Bool
same_flag true b = b
same_flag false b = not b

abbrev reason_if : Bool → Why → List Why → List Why
reason_if true why rest = rest
reason_if false why rest = why ∷ rest

abbrev pub incomparable : RepoFingerprint → RepoFingerprint → Bool
incomparable old new =
    not (is_nil old.errors) || (not (is_nil new.errors) || not (same_flag old.is_git new.is_git))

abbrev pub report : List String → List String → RepoFingerprint → RepoFingerprint → DriftReport
report conflicts stale old new =
    if not (is_nil conflicts)
    then record {
      kind = conflicting_drift;
      conflicting = conflicts;
      stale_context = stale;
      reasons = modified conflicts ∷ [];
    }
    else if incomparable old new
    then record {
      kind = unknown_drift;
      conflicting = [];
      stale_context = stale;
      reasons = not_compared ∷ [];
    }
    else if not old.is_git && is_nil old.files
    then record {
      kind = unknown_drift;
      conflicting = [];
      stale_context = [];
      reasons = not_recorded ∷ [];
    }
    else if not (is_nil (moved old new)) || not (is_nil stale)
    then record {
      kind = safe_drift;
      conflicting = [];
      stale_context = stale;
      reasons =
          reason_if (is_nil (moved old new)) (moved_on (moved old new))
            (reason_if (is_nil stale) (inputs_changed stale) []);
    }
    else record { kind = no_drift; conflicting = []; stale_context = []; reasons = [] }

unfoldable pub classify_drift : RepoFingerprint → RepoFingerprint → List String → DriftReport
unfolding changed select contains moved
classify_drift old new touched =
    let files = changed old.files new.files in
    report (select (contains touched) files) (select (λ rel. not (contains touched rel)) files) old
      new
