-- ===== src/Utility/FileManager/Walk.antt =====
-- The walk over directories that form finite trees.
use mathlib.Core.Path.{subst}
use simple_serv.Common.{
  ℕ, zero, suc, ◌+◌, ◌≤◌, ◌≡◌, refl, Bool-cases, inl, inr, some, List, [], ◌∷◌, arith, Bytes,
  if◌then◌else◌,
}
use simple_serv.Common.Dict.{Dict}
use simple_serv.Common.Outcome.{returns}
use simple_serv.Utility.FileSystem.{DirEntry, FileSystem}
use simple_serv.Utility.FileManager.{
  FileDescriptor, collect_entries, collect_directories, construct_file_descriptors,
}
use simple_serv.Utility.FileManager.Descriptors.{
  AllDescribed, construct_file_descriptors-AllDescribed,
}

abbrev pub subdirectories : List DirEntry → List Bytes
subdirectories [] = []
subdirectories (e ∷ es) =
    let rest = subdirectories es in if e.is_directory then e.path ∷ rest else rest

-- The directories of a list can be listed, and so can all below them; the number counts them.
pub data HasTrees (fs : FileSystem) : List Bytes → ℕ → Type 0 where
  no_trees : HasTrees fs [] 0
  tree :
      {d : Bytes} {es : List DirEntry} {directories : List Bytes} {m n : ℕ}
      → fs.listing d ≡ some es
      → HasTrees fs (subdirectories es) m
      → HasTrees fs directories n
      → HasTrees fs (d ∷ directories) (suc (m + n))

module _ (fs : FileSystem) where
  -- The tree of the first directory, which can stand in front of other directories
  split_tree :
      {d : Bytes} {ds : List Bytes} {m : ℕ}
      → HasTrees fs (d ∷ ds) m
      → (a b : ℕ) × (m ≡ suc (a + b))
        × ((es : List Bytes) (n : ℕ) → HasTrees fs es n → HasTrees fs (d ∷ es) (suc (a + n)))
        × HasTrees fs ds b
  split_tree (tree {m} {n} l below rest) = (m, n, refl, (λ es k h. tree l below h), rest)

  pub collect_entries-HasTrees :
      (es : List DirEntry) (directories : List Bytes) (ds : Dict FileDescriptor) (m n : ℕ)
      → HasTrees fs (subdirectories es) m
      → HasTrees fs directories n
      → HasTrees fs (collect_entries es directories ds).0 (m + n)
  unfolding collect_entries
  collect_entries-HasTrees [] directories ds _ n no_trees k =
      subst (HasTrees fs directories) (omega arith) k
  collect_entries-HasTrees (e ∷ es) directories ds m n h k = elim (Bool-cases e.is_directory) [
    | inr is_file ↦ rw is_file (collect_entries-HasTrees es directories _ m n (rw is_file at h) k)
    | inl is_dir ↦
        let (a, b, sum, move, rest) = split_tree (rw is_dir at h) in
        rw is_dir (
          subst (HasTrees fs _) (omega (arith, sum)) (
            collect_entries-HasTrees es (e.path ∷ directories) ds b (suc (a + n)) rest
              (move directories n k)))
  ]

  collect_directories_returns :
      (fuel : ℕ) (directories : List Bytes) (ds : Dict FileDescriptor) (n : ℕ)
      → HasTrees fs directories n
      → n ≤ fuel
      → (ds' : Dict FileDescriptor) × (collect_directories fuel fs directories ds
          ≡ some (returns ds'))
  unfolding collect_directories
  collect_directories_returns fuel [] ds n h k = (ds, refl)
  collect_directories_returns zero (d ∷ directories) ds _ (tree l below rest) k =
      absurd (omega arith)
  collect_directories_returns (suc fuel) (d ∷ directories) ds _ (tree {m} {n} l below rest) k =
      rw l (
        collect_directories_returns fuel _ _ (m + n)
          (collect_entries-HasTrees _ directories ds m n below rest) (omega arith))

  -- If the directories below the root form a finite tree, the walk returns with at least as much
  -- fuel as there are directories, and each descriptor is of a file that the listing of a
  -- directory below the root shows, with its name, its type and its path.
  pub construct_file_descriptors_returns :
      (root : Bytes) (n fuel : ℕ)
      → HasTrees fs (root ∷ []) n
      → n ≤ fuel
      → (ds : Dict FileDescriptor) × (construct_file_descriptors fuel fs root []
          ≡ some (returns ds))
        × AllDescribed fs root ds
  unfolding construct_file_descriptors
  construct_file_descriptors_returns root n fuel h enough =
      let (ds, e) = collect_directories_returns fuel (root ∷ []) [] n h enough in
      (ds, e, construct_file_descriptors-AllDescribed fs root fuel e)
