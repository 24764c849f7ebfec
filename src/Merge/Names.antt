-- ===== src/Merge/Names.antt =====
-- One name in a merging three-way merge, where at most one side has changed it.
use seafile_server.Base.{
  ◌≡◌, true, Option, none, some, List, ◌∷◌, CString, str_eq, str_eq_iff, str_eq_refl, if◌then◌else◌,
  arith, ◌&&◌, ◌||◌,
}
use seafile_server.Fs.{Dirent, SeafDir, is_reg, is_dir, is_reg-is_dir, IsEntry}
use seafile_server.Walk.{Three, three}
use seafile_server.Merge.{MergeEnv, MergeState, Rc, success}
use seafile_server.Merge.Entries.{merge_entries}
use seafile_server.Merge.Dirs.{merge_directories}
use seafile_server.Merge.Trees.{merge_name}

-- `n == 3 && opt->do_merge`
pub record Merging (E : MergeEnv) : Type 0 where
  pub three_ways : E.n ≡ 3
  pub wanted : E.do_merge ≡ true

-- What stays of the head's entry `d` beside the remote's entry `e` where the head is unchanged: an
-- entry of the same kind with the same content stays as it is in the head.
unfoldable pub keep_head : Dirent → Dirent → Dirent
keep_head d e =
    if str_eq d.id e.id && (is_reg d.mode && is_reg e.mode || is_dir d.mode && is_dir e.mode)
    then d
    else e

module _ (E : MergeEnv) (mg : Merging E)
    (recurse : Three (Option SeafDir) → CString → MergeState E → Rc × MergeState E)
    (basedir : CString) (out : List Dirent) (s : MergeState E) where
  pub head_added :
      (e : Dirent)
      → IsEntry e
      → merge_name E recurse basedir (three none (some e) none) out s ≡ (success, e ∷ out, s)
  unfolding merge_name merge_entries merge_directories
  head_added e k = ground (arith, is_reg-is_dir e.mode)

  pub base_kept :
      (d e : Dirent)
      → IsEntry d
      → IsEntry e
      → merge_name E recurse basedir (three (some d) (some e) (some d)) out s
        ≡ (success, e ∷ out, s)
  unfolding merge_name merge_entries merge_directories
  base_kept d e k l = ground (
    arith,
    is_reg-is_dir e.mode,
    is_reg-is_dir d.mode,
    str_eq_refl d.id,
    str_eq_refl e.id,
    str_eq_iff d.id e.id,
  )

  pub head_deleted :
      (d : Dirent)
      → IsEntry d
      → merge_name E recurse basedir (three (some d) none (some d)) out s ≡ (success, out, s)
  unfolding merge_name merge_entries merge_directories
  head_deleted d k = ground (arith, is_reg-is_dir d.mode, str_eq_refl d.id)

  pub both_deleted :
      (d : Dirent)
      → IsEntry d
      → merge_name E recurse basedir (three (some d) none none) out s ≡ (success, out, s)
  unfolding merge_name merge_entries merge_directories
  both_deleted d k = ground (arith, is_reg-is_dir d.mode)

  pub both_added :
      (e : Dirent)
      → IsEntry e
      → merge_name E recurse basedir (three none (some e) (some e)) out s ≡ (success, e ∷ out, s)
  unfolding merge_name merge_entries merge_directories
  both_added e k = ground (arith, is_reg-is_dir e.mode, str_eq_refl e.id)

  pub both_agree :
      (d e : Dirent)
      → IsEntry d
      → IsEntry e
      → merge_name E recurse basedir (three (some d) (some e) (some e)) out s
        ≡ (success, e ∷ out, s)
  unfolding merge_name merge_entries merge_directories
  both_agree d e k l = ground (arith, is_reg-is_dir e.mode, is_reg-is_dir d.mode, str_eq_refl e.id)

  pub remote_added :
      (e : Dirent)
      → IsEntry e
      → merge_name E recurse basedir (three none none (some e)) out s ≡ (success, e ∷ out, s)
  unfolding merge_name merge_entries merge_directories
  remote_added e k = ground (arith, is_reg-is_dir e.mode)

  pub remote_deleted :
      (d : Dirent)
      → IsEntry d
      → merge_name E recurse basedir (three (some d) (some d) none) out s ≡ (success, out, s)
  unfolding merge_name merge_entries merge_directories
  remote_deleted d k = ground (arith, is_reg-is_dir d.mode, str_eq_refl d.id)

  pub head_kept :
      (d e : Dirent)
      → IsEntry d
      → IsEntry e
      → merge_name E recurse basedir (three (some d) (some d) (some e)) out s
        ≡ (success, keep_head d e ∷ out, s)
  unfolding merge_name merge_entries merge_directories keep_head
  head_kept d e k l =
      ground
        (arith, is_reg-is_dir e.mode, is_reg-is_dir d.mode, str_eq_refl d.id, str_eq_iff d.id e.id)
