-- ===== src/Merge/Trees.antt =====
-- `merge_trees_recursive` and `seaf_merge_trees` of common/merge-new.c. The recursion goes down
-- the directory tree through the object store; its depth is bounded by the first argument, and
-- `Merge/Depth.antt` shows that a bound on the depth of the stored trees is enough.
use seafile_server.Base.{
  ℕ, zero, suc, Bool, true, false, ◌||◌, Option, none, some, List, [], CString, str_eq, ◌==◌,
  if◌then◌else◌,
}
use seafile_server.Fs.{
  Dirent, SeafDir, is_reg, is_dir, get_seafdir, dir_save, dir_new, sort_dirents,
}
use seafile_server.Walk.{
  Three, three, Dents, Ptrs, entries_of, first_name, dents_at, rests_at, rounds,
}
use seafile_server.Merge.{MergeEnv, MergeState, Rc, success, failure, out_of_fuel}
use seafile_server.Merge.Entries.{EntriesResult, merge_entries}
use seafile_server.Merge.Dirs.{MergeResult, is_merging, merge_directories}

abbrev counts : (ℕ → Bool) → Option Dirent → Bool
counts test none = false
counts test (some d) = test d.mode

-- `n_files > 0`
unfoldable pub any_file : Dents → Bool
any_file dents = counts is_reg dents.s0 || counts is_reg dents.s1 || counts is_reg dents.s2

-- `n_dirs > 0`: an entry is counted as a directory if it is no file.
abbrev only_dir : ℕ → Bool
only_dir mode = if is_reg mode then false else is_dir mode

unfoldable pub any_dir : Dents → Bool
any_dir dents = counts only_dir dents.s0 || counts only_dir dents.s1 || counts only_dir dents.s2

-- `dir_version_from_repo_version`, with `CURRENT_DIR_OBJ_VERSION`.
unfoldable pub dir_version_from_repo_version : ℕ → ℕ
dir_version_from_repo_version version = if version == 0 then 0 else 1

module _ (E : MergeEnv) where
  module _ (recurse : Three (Option SeafDir) → CString → MergeState E → Rc × MergeState E) where
    abbrev pub then_dirs : Bool → CString → EntriesResult E → MergeResult E
    then_dirs dirs basedir (success, dents, out, s) =
        if dirs then merge_directories E recurse basedir dents out s else (success, out, s)
    then_dirs dirs basedir (failure, dents, out, s) = (failure, out, s)
    then_dirs dirs basedir (out_of_fuel, dents, out, s) = (out_of_fuel, out, s)

    -- One round of the loop, for the entries of one name.
    unfoldable pub merge_name : CString → Dents → List Dirent → MergeState E → MergeResult E
    unfolding any_file any_dir
    merge_name basedir dents out s =
        then_dirs (any_dir dents) basedir
          (if any_file dents then merge_entries E basedir dents out s else (success, dents, out, s))

    -- `if (ret < 0) return ret;`
    abbrev pub proceed :
        (List Dirent → MergeState E → MergeResult E) → MergeResult E → MergeResult E
    proceed next (success, out, s) = next out s
    proceed next (failure, out, s) = (failure, out, s)
    proceed next (out_of_fuel, out, s) = (out_of_fuel, out, s)

    -- The `while (1)` loop, on the rounds left.
    unfoldable pub merge_loop : ℕ → CString → Ptrs → List Dirent → MergeState E → MergeResult E
    merge_loop zero basedir ptrs out s = elim (first_name ptrs) [
      | none ↦ (success, out, s)
      | some _ ↦ (out_of_fuel, out, s)
    ]
    merge_loop (suc left) basedir ptrs out s = elim (first_name ptrs) [
      | none ↦ (success, out, s)
      | some m ↦
          proceed (merge_loop left basedir (rests_at m ptrs))
            (merge_name basedir (dents_at m ptrs) out s)
    ]

  abbrev pub is_tree : Option SeafDir → CString → Bool
  is_tree none id = false
  is_tree (some t) id = str_eq t.dir_id id

  abbrev pub saved : MergeState E → Bool × (CString → Option SeafDir) → Rc × MergeState E
  saved s (true, objects) = (success, record s { objects = objects })
  saved s (false, objects) = (failure, record s { objects = objects })

  -- The merged tree: its root is noted, and it is saved unless it is head's or remote's tree.
  unfoldable pub finish_tree :
      Three (Option SeafDir) → List Dirent → MergeState E → Rc × MergeState E
  finish_tree trees out s =
      let merged =
        dir_new E.checksum (sort_dirents out) (dir_version_from_repo_version E.version) in
      let s' : MergeState E = record s { merged_tree_root = merged.dir_id } in
      if is_tree trees.s1 merged.dir_id || is_tree trees.s2 merged.dir_id
      then (success, s')
      else saved s' (dir_save E.write_ok s.objects merged)

  abbrev pub after_loop : Three (Option SeafDir) → MergeResult E → Rc × MergeState E
  after_loop trees (success, out, s) =
      if is_merging E then finish_tree trees out s else (success, s)
  after_loop trees (failure, out, s) = (failure, s)
  after_loop trees (out_of_fuel, out, s) = (out_of_fuel, s)

  unfoldable pub merge_trees_recursive :
      ℕ → Three (Option SeafDir) → CString → MergeState E → Rc × MergeState E
  merge_trees_recursive zero trees basedir s = (out_of_fuel, s)
  merge_trees_recursive (suc depth) trees basedir s =
      let ptrs = three (entries_of trees.s0) (entries_of trees.s1) (entries_of trees.s2) in
      after_loop trees (merge_loop (merge_trees_recursive depth) (rounds ptrs) basedir ptrs [] s)

  -- The roots are loaded in turn; with `n == 2` there are two of them.
  abbrev pub merge_roots :
      ℕ
      → Option SeafDir
      → Option SeafDir
      → Option (Option SeafDir)
      → MergeState E
      → Rc × MergeState E
  merge_roots depth (some t0) (some t1) (some t2) s =
      merge_trees_recursive depth (three (some t0) (some t1) t2) [] s
  merge_roots depth none t1 t2 s = (failure, s)
  merge_roots depth (some t0) none t2 s = (failure, s)
  merge_roots depth (some t0) (some t1) none s = (failure, s)

  abbrev pub third_root : CString → MergeState E → Option (Option SeafDir)
  third_root root s =
      if E.n == 2
      then some none
      else elim (get_seafdir s.objects E.version root) [ none ↦ none | some t ↦ some (some t) ]

  unfoldable pub seaf_merge_trees : ℕ → Three CString → MergeState E → Rc × MergeState E
  seaf_merge_trees depth roots s =
      if E.n == 2 || E.n == 3
      then merge_roots depth (get_seafdir s.objects E.version roots.s0)
          (get_seafdir s.objects E.version roots.s1) (third_root roots.s2 s) s
      else (failure, s)
