-- ===== src/Diff/Trees.antt =====
-- `diff_trees` of common/diff-simple.c and what it calls. As in the merge, the depth of the
-- recursion is bounded by the first argument.
use seafile_server.Base.{
  ℕ, zero, suc, Bool, true, false, ◌&&◌, ◌||◌, Option, none, some, [], CString, ◌==◌, if◌then◌else◌,
}
use seafile_server.Fs.{Dirent, SeafDir, get_seafdir}
use seafile_server.Walk.{
  Three, three, map3, Dents, Ptrs, entries_of, first_name, dents_at, rests_at, rounds, file_of,
  dirs_at, dir_of, new_basedir,
}
use seafile_server.Diff.{DiffEnv, Rc, success, failure, out_of_fuel, dirent_same}

abbrev present : Option Dirent → Bool
present none = false
present (some d) = true

-- `n_files` or `n_dirs` is not 0.
abbrev pub any_present : Dents → Bool
any_present t = present t.s0 || (present t.s1 || present t.s2)

abbrev pub same_dirents : Option Dirent → Option Dirent → Bool
same_dirents none b = false
same_dirents (some a) none = false
same_dirents (some a) (some b) = dirent_same a b

-- The two tests that skip a name.
unfoldable pub unchanged : ℕ → Dents → Bool
unchanged n dents =
    n == 2 && same_dirents dents.s0 dents.s1
    || n == 3 && (same_dirents dents.s0 dents.s1 && same_dirents dents.s0 dents.s2)

module _ (D : DiffEnv) where
  abbrev pub DiffResult : Type 0
  DiffResult = Rc × D.CallbackData

  abbrev pub rc_of : Bool × D.CallbackData → DiffResult
  rc_of (true, d) = (success, d)
  rc_of (false, d) = (failure, d)

  unfoldable pub diff_files : CString → Dents → D.CallbackData → DiffResult
  unfolding file_of
  diff_files basedir dents d =
      let files = map3 file_of dents in
      if any_present files then rc_of (D.file_cb basedir files d) else (success, d)

  -- One round of the loop that loads the sub-directories: `none` if that fails.
  abbrev pub load_dir : Option Dirent → Option (Option SeafDir)
  load_dir none = some none
  load_dir (some dent) = elim (get_seafdir D.objects D.version dent.id) [
    | none ↦ none
    | some t ↦ some (some t)
  ]

  abbrev pub all_loaded :
      Option (Option SeafDir)
      → Option (Option SeafDir)
      → Option (Option SeafDir)
      → Option (Three (Option SeafDir))
  all_loaded none t1 t2 = none
  all_loaded (some t0) none t2 = none
  all_loaded (some t0) (some t1) none = none
  all_loaded (some t0) (some t1) (some t2) = some (three t0 t1 t2)

  unfoldable pub load_dirs : Dents → Option (Three (Option SeafDir))
  load_dirs dirs = all_loaded (load_dir dirs.s0) (load_dir dirs.s1) (load_dir dirs.s2)

  module _ (recurse : Three (Option SeafDir) → CString → D.CallbackData → DiffResult) where
    abbrev pub descend : Option (Three (Option SeafDir)) → CString → D.CallbackData → DiffResult
    descend none basedir d = (failure, d)
    descend (some sub_dirs) basedir d = recurse sub_dirs basedir d

    abbrev pub after_dir_cb : CString → Dents → Bool × Bool × D.CallbackData → DiffResult
    after_dir_cb basedir dirs (false, deeper, d) = (failure, d)
    after_dir_cb basedir dirs (true, false, d) = (success, d)
    after_dir_cb basedir dirs (true, true, d) =
        descend (load_dirs dirs) (new_basedir basedir dirs) d

    unfoldable pub diff_directories : CString → Dents → D.CallbackData → DiffResult
    unfolding load_dirs dir_of
    diff_directories basedir dents d =
        if any_present (dirs_at dents)
        then after_dir_cb basedir (dirs_at dents) (D.dir_cb basedir (dirs_at dents) d)
        else (success, d)

    -- `if (ret < 0) return ret;`
    abbrev pub proceed : (D.CallbackData → DiffResult) → DiffResult → DiffResult
    proceed next (success, d) = next d
    proceed next (failure, d) = (failure, d)
    proceed next (out_of_fuel, d) = (out_of_fuel, d)

    -- One round of the loop, for the entries of one name.
    unfoldable pub diff_name : CString → Dents → D.CallbackData → DiffResult
    unfolding unchanged diff_files diff_directories
    diff_name basedir dents d =
        if unchanged D.n dents
        then (success, d)
        else proceed (diff_directories basedir dents) (diff_files basedir dents d)

    -- The `while (1)` loop, on the rounds left.
    unfoldable pub diff_loop : ℕ → CString → Ptrs → D.CallbackData → DiffResult
    diff_loop zero basedir ptrs d = elim (first_name ptrs) [
      | none ↦ (success, d)
      | some _ ↦ (out_of_fuel, d)
    ]
    diff_loop (suc left) basedir ptrs d = elim (first_name ptrs) [
      | none ↦ (success, d)
      | some m ↦
          proceed (diff_loop left basedir (rests_at m ptrs)) (diff_name basedir (dents_at m ptrs) d)
    ]

  unfoldable pub diff_trees_recursive :
      ℕ → Three (Option SeafDir) → CString → D.CallbackData → DiffResult
  diff_trees_recursive zero trees basedir d = (out_of_fuel, d)
  diff_trees_recursive (suc depth) trees basedir d =
      let ptrs = three (entries_of trees.s0) (entries_of trees.s1) (entries_of trees.s2) in
      diff_loop (diff_trees_recursive depth) (rounds ptrs) basedir ptrs d

  abbrev pub diff_roots :
      ℕ → Option SeafDir → Option SeafDir → Option (Option SeafDir) → D.CallbackData → DiffResult
  diff_roots depth (some t0) (some t1) (some t2) d =
      diff_trees_recursive depth (three (some t0) (some t1) t2) [] d
  diff_roots depth none t1 t2 d = (failure, d)
  diff_roots depth (some t0) none t2 d = (failure, d)
  diff_roots depth (some t0) (some t1) none d = (failure, d)

  abbrev pub third_root : CString → Option (Option SeafDir)
  third_root root =
      if D.n == 2
      then some none
      else elim (get_seafdir D.objects D.version root) [ none ↦ none | some t ↦ some (some t) ]

  unfoldable pub diff_trees : ℕ → Three CString → D.CallbackData → DiffResult
  diff_trees depth roots d =
      if D.n == 2 || D.n == 3
      then diff_roots depth (get_seafdir D.objects D.version roots.s0)
          (get_seafdir D.objects D.version roots.s1) (third_root roots.s2) d
      else (failure, d)
