-- ===== src/Ieo/Trees.antt =====
-- ieo/tree_size.go: the check of a tree's size before an upload. The walk is the list of its visits,
-- in order. Sizes are not negative; the running total is the bit pattern of an int64.
pub mod Fits
use mcpplane.Common.{
  ℕ, ◌+◌, ◌*◌, ◌%◌, ◌≡◌, refl, String, Bool, true, false, ◌&&◌, not, List, [], ◌∷◌, Option, none,
  some, ltb, if◌then◌else◌, int64_limit, ℤ, pos, negsuc, arith,
}

pub data TreeSizePolicy : Type 0 where
  per_entry aggregate : TreeSizePolicy

pub record FileInfo : Type 0 where
  pub is_dir : Bool
  pub is_regular : Bool
  pub size : ℕ

-- A visit of the walk: its error, the kind of the entry itself, and what Info and os.Stat answer,
-- which differ at a symbolic link; `none` is an error.
pub record Visit : Type 0 where
  pub path : String
  pub walk_error : Bool
  pub entry_is_dir : Bool
  pub info : Option FileInfo
  pub stat : Option FileInfo

pub data TreeError : Type 0 where
  walk_failed : TreeError
  no_info : String → TreeError
  file_exceeds : String → ℕ → TreeError
  total_exceeds : ℕ → TreeError

-- total > maxBytes, for the int64 with this bit pattern.
abbrev pub over : ℕ → ℕ → Bool
over total max_bytes = if ltb total int64_limit then ltb max_bytes total else false

-- The end of both callbacks: a regular file counts.
unfoldable pub count_file : TreeSizePolicy → ℕ → ℕ → String → FileInfo → Option TreeError × ℕ
count_file policy max_bytes total p fi =
    if not fi.is_regular
    then (none, total)
    else if ltb max_bytes fi.size
    then (some (file_exceeds p fi.size), total)
    else (elim policy [
      | per_entry ↦ (none, total)
      | aggregate ↦
          (let total' = (total + fi.size) % (2 * int64_limit) in
            if over total' max_bytes then (some (total_exceeds total'), total') else (none, total'))
    ])

-- The callback of CheckTreeSize.
unfoldable pub visit_tree : TreeSizePolicy → ℕ → ℕ → Visit → Option TreeError × ℕ
unfolding count_file
visit_tree policy max_bytes total v =
    if v.walk_error
    then (some walk_failed, total)
    else if v.entry_is_dir
    then (none, total)
    else (elim v.info [
      | none ↦ (some (no_info v.path), total)
      | some fi ↦ count_file policy max_bytes total v.path fi
    ])

-- The callback of CheckDirectorySize.
unfoldable pub visit_directory : TreeSizePolicy → ℕ → ℕ → Visit → Option TreeError × ℕ
unfolding count_file
visit_directory policy max_bytes total v =
    if v.walk_error then (some walk_failed, total) else (elim v.stat [
      | none ↦ (some (no_info v.path), total)
      | some fi ↦ if fi.is_dir then (none, total) else count_file policy max_bytes total v.path fi
    ])

-- The walk ends at the first error of its callback.
unfoldable pub walk : (ℕ → Visit → Option TreeError × ℕ) → ℕ → List Visit → Option TreeError
walk f total [] = none
walk f total (v ∷ vs) =
    let rest = walk f (f total v).1 vs in elim (f total v).0 [ none ↦ rest | some e ↦ some e ]

-- maxBytes <= 0 is no limit.
unfoldable pub check_tree_size : List Visit → ℤ → TreeSizePolicy → Option TreeError
unfolding walk visit_tree
check_tree_size vs (pos max_bytes) policy =
    let checked = walk (visit_tree policy max_bytes) 0 vs in
    if ltb 0 max_bytes then checked else none
check_tree_size vs (negsuc n) policy = none

unfoldable pub check_directory_size : List Visit → ℤ → TreeSizePolicy → Option TreeError
unfolding walk visit_directory
check_directory_size vs (pos max_bytes) policy =
    let checked = walk (visit_directory policy max_bytes) 0 vs in
    if ltb 0 max_bytes then checked else none
check_directory_size vs (negsuc n) policy = none
