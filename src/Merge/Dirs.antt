-- ===== src/Merge/Dirs.antt =====
-- `merge_directories` of common/merge-new.c: one name that is a directory in some of the trees.
-- The merge of the sub-trees is an argument, `recurse`.
use seafile_server.Base.{
  suc, Bool, ◌&&◌, Option, none, some, List, ◌∷◌, CString, str_eq, ◌==◌, if◌then◌else◌,
}
use seafile_server.Fs.{Dirent, SeafDir, get_seafdir}
use seafile_server.Walk.{dir_of, dirs_at, new_basedir, Three, three, Dents}
use seafile_server.Merge.{MergeEnv, MergeState, Rc, success, failure, out_of_fuel}

-- What the switch on `dir_mask` decides: return the number, with or without an entry put out, or
-- go on to merge the sub-trees.
pub data Plan : Type 0 where
  drop_it unreachable descend : Plan
  keep_it : Dirent → Plan

abbrev descend_unless : Bool → Plan → Plan
descend_unless same plan = if same then plan else descend

-- `case 6` and `case 7`; `base` may be a file here.
unfoldable pub plan_both : Option Dirent → Dirent → Dirent → Plan
plan_both none head remote = descend_unless (str_eq head.id remote.id) (keep_it head)
plan_both (some base) head remote =
    if str_eq head.id remote.id
    then keep_it head
    else if str_eq base.id head.id
    then keep_it remote
    else descend_unless (str_eq base.id remote.id) (keep_it head)

-- The switch, on `dents[0]` and on the entries whose bits are set in `dir_mask`.
unfoldable pub dir_plan : Option Dirent → Option Dirent → Option Dirent → Option Dirent → Plan
unfolding plan_both
dir_plan base none none none = unreachable
dir_plan base (some d0) none none = drop_it
dir_plan base none (some d1) none = keep_it d1
dir_plan base (some d0) (some d1) none = descend_unless (str_eq d0.id d1.id) drop_it
dir_plan base none none (some d2) = keep_it d2
dir_plan base (some d0) none (some d2) = descend_unless (str_eq d0.id d2.id) drop_it
dir_plan base none (some d1) (some d2) = plan_both base d1 d2
dir_plan base (some d0) (some d1) (some d2) = plan_both base d1 d2

abbrev pub plan_at : Dents → Plan
plan_at dents = dir_plan dents.s0 (dir_of dents.s0) (dir_of dents.s1) (dir_of dents.s2)

module _ (E : MergeEnv) where
  abbrev pub MergeResult : Type 0
  MergeResult = Rc × List Dirent × MergeState E

  abbrev visited : Option SeafDir → MergeState E → Rc × Option SeafDir × MergeState E
  visited none s = (failure, none, s)
  visited (some dir) s = (success, some dir, record s { visit_dirs = suc s.visit_dirs })

  -- One round of the loop that loads the sub-directories.
  unfoldable pub load_dir : Option Dirent → MergeState E → Rc × Option SeafDir × MergeState E
  unfolding get_seafdir
  load_dir none s = (success, none, s)
  load_dir (some d) s = visited (get_seafdir s.objects E.version d.id) s

  abbrev pub Loaded : Type 0
  Loaded = Rc × Three (Option SeafDir) × MergeState E

  abbrev pub load_third :
      Option SeafDir → Option SeafDir → Rc × Option SeafDir × MergeState E → Loaded
  load_third t0 t1 (rc, t2, s) = (rc, three t0 t1 t2, s)

  abbrev pub load_second :
      Option Dirent → Option SeafDir → Rc × Option SeafDir × MergeState E → Loaded
  load_second d2 t0 (success, t1, s) = load_third t0 t1 (load_dir d2 s)
  load_second d2 t0 (failure, t1, s) = (failure, three t0 t1 none, s)
  load_second d2 t0 (out_of_fuel, t1, s) = (out_of_fuel, three t0 t1 none, s)

  abbrev pub load_first :
      Option Dirent → Option Dirent → Rc × Option SeafDir × MergeState E → Loaded
  load_first d1 d2 (success, t0, s) = load_second d2 t0 (load_dir d1 s)
  load_first d1 d2 (failure, t0, s) = (failure, three t0 none none, s)
  load_first d1 d2 (out_of_fuel, t0, s) = (out_of_fuel, three t0 none none, s)

  -- The loop over `n`; the first failure ends it.
  unfoldable pub load_dirs : Three (Option Dirent) → MergeState E → Loaded
  unfolding load_dir
  load_dirs dirs s = load_first dirs.s1 dirs.s2 (load_dir dirs.s0 s)

  -- A merging three-way merge, and not one that only calls back.
  abbrev pub is_merging : Bool
  is_merging = E.n == 3 && E.do_merge

  abbrev with_root : Dirent → MergeState E → Dirent
  with_root d s = record d { id = s.merged_tree_root }

  -- The merged directory is put out with the new root, whatever the merge of the sub-trees
  -- returned: `dents[1]` if it is a directory, else `dents[2]` beside a directory in the base.
  unfoldable pub put_merged :
      Option Dirent → Option Dirent → Option Dirent → List Dirent → MergeState E → List Dirent
  put_merged (some d0) (some d1) d2 out s = with_root d1 s ∷ out
  put_merged none (some d1) (some d2) out s = with_root d1 s ∷ out
  put_merged (some d0) none (some d2) out s = with_root d2 s ∷ out
  put_merged none (some d1) none out s = out
  put_merged d0 none none out s = out
  put_merged none none (some d2) out s = out

  module _ (recurse : Three (Option SeafDir) → CString → MergeState E → Rc × MergeState E) where
    abbrev pub merged_sub : Three (Option Dirent) → List Dirent → Rc × MergeState E → MergeResult
    merged_sub dirs out (rc, s) =
        (rc, (if is_merging then put_merged dirs.s0 dirs.s1 dirs.s2 out s else out), s)

    abbrev pub loaded_sub : CString → Three (Option Dirent) → List Dirent → Loaded → MergeResult
    loaded_sub basedir dirs out (success, sub_dirs, s) =
        merged_sub dirs out (recurse sub_dirs (new_basedir basedir dirs) s)
    loaded_sub basedir dirs out (failure, sub_dirs, s) = (failure, out, s)
    loaded_sub basedir dirs out (out_of_fuel, sub_dirs, s) = (out_of_fuel, out, s)

    -- From the loading of the sub-directories on.
    unfoldable pub merge_sub_dirs :
        CString → Three (Option Dirent) → List Dirent → MergeState E → MergeResult
    unfolding load_dirs put_merged
    merge_sub_dirs basedir dirs out s = loaded_sub basedir dirs out (load_dirs dirs s)

    abbrev pub run_plan :
        Plan → CString → Three (Option Dirent) → List Dirent → MergeState E → MergeResult
    run_plan drop_it basedir dirs out s = (success, out, s)
    run_plan unreachable basedir dirs out s = (failure, out, s)
    run_plan (keep_it d) basedir dirs out s = (success, d ∷ out, s)
    run_plan descend basedir dirs out s = merge_sub_dirs basedir dirs out s

    unfoldable pub merge_directories : CString → Dents → List Dirent → MergeState E → MergeResult
    unfolding dir_plan dir_of merge_sub_dirs
    merge_directories basedir dents out s =
        if is_merging
        then run_plan (plan_at dents) basedir (dirs_at dents) out s
        else merge_sub_dirs basedir (dirs_at dents) out s
