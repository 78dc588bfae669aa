-- ===== src/Ieo/Trees/Fits.antt =====
-- When a tree passes the check: an independent description, by the sizes of its files.
use mcpplane.Common.{
  ℕ, ◌+◌, ◌*◌, ◌≡◌, ◌≤◌, ◌<◌, refl, String, Bool, true, false, List, [], ◌∷◌, Option, none, some,
  leb, if◌then◌else◌, int64_limit, pos, arith, Option-cases, inl, inr,
}
use mcpplane.Ieo.Trees.{
  TreeSizePolicy, per_entry, aggregate, FileInfo, Visit, TreeError, count_file, visit_tree,
  visit_directory, walk, check_tree_size, check_directory_size,
}

-- What a visit contributes: an error, or the bytes of a regular file.
pub data Weight : Type 0 where
  broken : Weight
  bytes : ℕ → Weight

abbrev pub file_weight : FileInfo → Weight
file_weight fi = if fi.is_regular then bytes fi.size else bytes 0

-- As CheckTreeSize sees it: links and other special files weigh nothing.
unfoldable pub tree_weight : Visit → Weight
tree_weight v =
    if v.walk_error
    then broken
    else if v.entry_is_dir
    then bytes 0
    else (elim v.info [ none ↦ broken | some fi ↦ file_weight fi ])

-- As CheckDirectorySize sees it: a link weighs what its target does.
unfoldable pub directory_weight : Visit → Weight
directory_weight v =
    if v.walk_error
    then broken
    else (elim v.stat [ none ↦ broken | some fi ↦ if fi.is_dir then bytes 0 else file_weight fi ])

-- Every weight is known and at most the limit.
unfoldable pub each_fits : ℕ → (Visit → Weight) → List Visit → Bool
each_fits max_bytes w [] = true
each_fits max_bytes w (v ∷ vs) =
    let rest = each_fits max_bytes w vs in
    elim (w v) [ broken ↦ false | bytes n ↦ if leb n max_bytes then rest else false ]

unfoldable pub sum : (Visit → Weight) → List Visit → ℕ
sum w [] = 0
sum w (v ∷ vs) = elim (w v) [ broken ↦ 0 | bytes n ↦ n ] + sum w vs

unfoldable pub tree_fits : TreeSizePolicy → ℕ → (Visit → Weight) → List Visit → Bool
tree_fits per_entry max_bytes w vs = each_fits max_bytes w vs
tree_fits aggregate max_bytes w vs =
    if each_fits max_bytes w vs then leb (sum w vs) max_bytes else false

abbrev pub passes : Option TreeError → Bool
passes none = true
passes (some e) = false

abbrev grams : Weight → ℕ
grams broken = 0
grams (bytes n) = n

abbrev fits_one : ℕ → Weight → Bool
fits_one max_bytes broken = false
fits_one max_bytes (bytes n) = leb n max_bytes

abbrev fits_step : ℕ → ℕ → Weight → Bool
fits_step max_bytes total broken = false
fits_step max_bytes total (bytes n) = if leb n max_bytes then leb (total + n) max_bytes else false

-- A callback that adds up weighs as `w` does.
record Adds (max_bytes total : ℕ) (w : Weight) (r : Option TreeError × ℕ) : Type 0 where
  passes_eq : passes r.0 ≡ fits_step max_bytes total w
  total_eq : passes r.0 ≡ true → r.1 ≡ total + grams w

count_file-Adds :
    (max_bytes total : ℕ) (p : String) (fi : FileInfo)
    → 2 * max_bytes < int64_limit
    → total ≤ max_bytes
    → Adds max_bytes total (file_weight fi) (count_file aggregate max_bytes total p fi)
unfolding count_file
count_file-Adds max_bytes total p fi m h = ground arith

visit_tree-Adds :
    (max_bytes total : ℕ) (v : Visit)
    → 2 * max_bytes < int64_limit
    → total ≤ max_bytes
    → Adds max_bytes total (tree_weight v) (visit_tree aggregate max_bytes total v)
unfolding visit_tree tree_weight
visit_tree-Adds max_bytes total v m h = elim (Option-cases v.info) [
  | inl e ↦ ground arith
  | inr (fi, e) ↦
      let c = count_file-Adds max_bytes total v.path fi m h in
      let p = c.passes_eq in let q = c.total_eq in ground (arith, p, q)
]

visit_directory-Adds :
    (max_bytes total : ℕ) (v : Visit)
    → 2 * max_bytes < int64_limit
    → total ≤ max_bytes
    → Adds max_bytes total (directory_weight v) (visit_directory aggregate max_bytes total v)
unfolding visit_directory directory_weight
visit_directory-Adds max_bytes total v m h = elim (Option-cases v.stat) [
  | inl e ↦ ground arith
  | inr (fi, e) ↦
      let c = count_file-Adds max_bytes total v.path fi m h in
      let p = c.passes_eq in let q = c.total_eq in ground (arith, p, q)
]

-- Per entry, by the callback of either walk.
visit_tree_entry :
    (max_bytes total : ℕ) (v : Visit)
    → passes (visit_tree per_entry max_bytes total v).0 ≡ fits_one max_bytes (tree_weight v)
unfolding visit_tree tree_weight count_file
visit_tree_entry max_bytes total v = ground arith

visit_directory_entry :
    (max_bytes total : ℕ) (v : Visit)
    → passes (visit_directory per_entry max_bytes total v).0
      ≡ fits_one max_bytes (directory_weight v)
unfolding visit_directory directory_weight count_file
visit_directory_entry max_bytes total v = ground arith

walk_entry :
    (f : ℕ → Visit → Option TreeError × ℕ) (w : Visit → Weight) (max_bytes total : ℕ)
    (vs : List Visit)
    → ((t : ℕ) (v : Visit) → passes (f t v).0 ≡ fits_one max_bytes (w v))
    → passes (walk f total vs) ≡ each_fits max_bytes w vs
unfolding walk each_fits
walk_entry f w max_bytes total [] h = refl
walk_entry f w max_bytes total (v ∷ vs) h =
    ground (arith, h total v, walk_entry f w max_bytes (f total v).1 vs h)

walk-Adds :
    (f : ℕ → Visit → Option TreeError × ℕ) (w : Visit → Weight) (max_bytes total : ℕ)
    (vs : List Visit)
    → ((t : ℕ) (v : Visit) → t ≤ max_bytes → Adds max_bytes t (w v) (f t v))
    → total ≤ max_bytes
    → passes (walk f total vs)
      ≡ (if each_fits max_bytes w vs then leb (total + sum w vs) max_bytes else false)
unfolding walk each_fits sum
walk-Adds f w max_bytes total [] h k = ground arith
walk-Adds f w max_bytes total (v ∷ vs) h k =
    let a = h total v k in
    let p = a.passes_eq in
    let q = a.total_eq in ground (arith, p, q, walk-Adds f w max_bytes (f total v).1 vs h)

-- CheckTreeSize with a positive limit below 2 ^ 62 passes exactly the trees in which every visit
-- succeeds, no regular file is over the limit and, under the aggregate policy, neither is the
-- sum of the regular files.
pub check_tree_size-fits :
    (vs : List Visit) (max_bytes : ℕ) (policy : TreeSizePolicy)
    → 0 < max_bytes
    → 2 * max_bytes < int64_limit
    → passes (check_tree_size vs (pos max_bytes) policy) ≡ tree_fits policy max_bytes tree_weight vs
unfolding check_tree_size tree_fits
check_tree_size-fits vs max_bytes per_entry p m = ground (
  arith,
  walk_entry (visit_tree per_entry max_bytes) tree_weight max_bytes 0 vs
      (visit_tree_entry max_bytes),
)
check_tree_size-fits vs max_bytes aggregate p m = ground (
  arith,
  walk-Adds (visit_tree aggregate max_bytes) tree_weight max_bytes 0 vs
      (λ t v. visit_tree-Adds max_bytes t v m),
)

-- CheckDirectorySize with a positive limit below 2 ^ 62 passes exactly the trees in which every
-- visit and os.Stat succeeds, no regular file is over the limit, by what links point at, and
-- under the aggregate policy neither is the sum of the regular files.
pub check_directory_size-fits :
    (vs : List Visit) (max_bytes : ℕ) (policy : TreeSizePolicy)
    → 0 < max_bytes
    → 2 * max_bytes < int64_limit
    → passes (check_directory_size vs (pos max_bytes) policy)
      ≡ tree_fits policy max_bytes directory_weight vs
unfolding check_directory_size tree_fits
check_directory_size-fits vs max_bytes per_entry p m = ground (
  arith,
  walk_entry (visit_directory per_entry max_bytes) directory_weight max_bytes 0 vs
      (visit_directory_entry max_bytes),
)
check_directory_size-fits vs max_bytes aggregate p m = ground (
  arith,
  walk-Adds (visit_directory aggregate max_bytes) directory_weight max_bytes 0 vs
      (λ t v. visit_directory-Adds max_bytes t v m),
)
