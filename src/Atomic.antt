-- ===== src/Atomic.antt =====
-- backend/patchquest/patching/engine.py: changes to files, computed in memory first and then written, or
-- rolled back. The texts of messages and the counts of difflib are left out.
pub mod Plan
pub mod Write
pub mod Ends
pub mod Loaded
pub mod Unchanged
pub mod Written
pub mod Confined
use patch_quest.Common.{ℕ, Bool, Option, List, if◌then◌else◌}
use patch_quest.Text.{Text, codes, text_beq, starts_with, is_within, split, join}
use patch_quest.Patch.Parse.{FilePatch, patch_path}
use patch_quest.Edit.{SearchReplace}

-- Texts and bytes are both lists of numbers.
abbrev pub Bytes : Type 0
Bytes = List ℕ

-- The regular files, by their resolved paths.
abbrev pub Files : Type 0
Files = Text → Option Bytes

unfoldable pub put : Text → Option Bytes → Files → Files
unfolding text_beq
put target content files p = if text_beq target p then content else files p

pub data Change : Type 0 where
  file_patch : FilePatch → Change
  search_replace : SearchReplace → Change
  create_file : Text → Text → Change
  write_file : Text → Text → Change
  delete_file : Text → Change

unfoldable pub path_of : Change → Text
unfolding patch_path
path_of (file_patch p) = patch_path p
path_of (search_replace e) = codes e.path
path_of (create_file path content) = path
path_of (write_file path content) = path
path_of (delete_file path) = path

-- What the engine asks of the machine, of libraries and of the neighbouring modules: `resolve_in_repo`,
-- which is none where it raises; whether something that is no regular file stands at a path; UTF-8, where
-- a lone surrogate cannot be encoded; the hash; `scan_text`; and which writes fail with an OSError.
pub record Outside : Type 0 where
  pub resolve : Text → Option Text
  pub is_irregular : Text → Bool
  pub decode : Bytes → Option Text
  pub encode : Text → Option Bytes
  pub sha256 : Bytes → Text
  pub scan : Text → Text → List Text
  pub write_fails : ℕ → Bool

-- What the dicts `originals`, `working` and `newlines` have for a path.
pub record Entry : Type 0 where
  pub path : Text
  pub original : Option Bytes
  pub old_text : Option Text
  pub working : Option Text
  pub crlf : Bool

pub data Kind : Type 0 where
  create modify delete : Kind

pub record FileResult : Type 0 where
  pub path : Text
  pub kind : Kind

pub data PatchError : Type 0 where
  not_applicable secrets_found write_failed : PatchError
  file_changed : Text → PatchError

pub record PatchResult : Type 0 where
  pub success : Bool
  pub files : List FileResult
  pub errors : List PatchError
  pub findings : List Text
  pub snapshot : List (Text × Option Bytes)
