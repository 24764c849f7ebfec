-- ===== src/Merge/Entries.antt =====
-- `merge_entries` of common/merge-new.c: one name that is a file in some of the trees.
use seafile_server.Base.{
  Bool, true, false, not, ◌||◌, Option, none, some, List, ◌∷◌, CString, str_eq, ◌==◌, if◌then◌else◌,
  length,
}
use seafile_server.Fs.{Dirent}
use seafile_server.Walk.{file_of, map3, Dents}
use seafile_server.Merge.{MergeEnv, MergeState, Rc, success, failure}
use seafile_server.Merge.Conflict.{merge_conflict_filename, merge_conflict_dirname}

-- The new name is written into the entry.
abbrev pub rename : Dirent → CString → Dirent
rename d name = record d { name = name; name_len = length name }

module _ (E : MergeEnv) where
  -- The result, `dents` with the names written in place, `*dents_out` and the state.
  abbrev pub EntriesResult : Type 0
  EntriesResult = Rc × Dents × List Dirent × MergeState E

  -- Nothing but `*dents_out` changes.
  abbrev pub put : List Dirent → Dents → MergeState E → EntriesResult
  put out dents s = (success, dents, out, s)

  -- The file `remote` goes out under a conflict name, on top of `out`.
  abbrev conflict_file :
      Option CString → Dirent → List Dirent → List Dirent → Dents → MergeState E → EntriesResult
  conflict_file none remote out old dents s = (failure, dents, old, s)
  conflict_file (some name) remote out old dents s = (
    success,
    record dents { s2 = some (rename remote name) },
    rename remote name ∷ out,
    record s { conflict = true },
  )

  -- The directory `dir` of the remote gets a conflict name, and the file `head` goes out.
  abbrev conflict_dir :
      Option CString → Dirent → Dirent → List Dirent → Dents → MergeState E → EntriesResult
  conflict_dir none dir head out dents s = (failure, dents, out, s)
  conflict_dir (some name) dir head out dents s = (
    success,
    record dents { s2 = some (rename dir name) },
    head ∷ out,
    record s { conflict = true },
  )

  abbrev has_id : Option Dirent → CString → Bool
  has_id none id = false
  has_id (some d) id = str_eq d.id id

  -- head && remote
  unfoldable pub both_files :
      CString → Option Dirent → Dirent → Dirent → List Dirent → Dents → MergeState E → EntriesResult
  unfolding merge_conflict_filename
  both_files basedir base head remote out dents s =
      if str_eq head.id remote.id
      then put (head ∷ out) dents s
      else if has_id base head.id
      then put (remote ∷ out) dents s
      else if has_id base remote.id
      then put (head ∷ out) dents s
      else conflict_file (merge_conflict_filename E basedir head.name) remote (head ∷ out) out dents
          s

  abbrev changed_remote :
      CString → Option Dirent → Dirent → List Dirent → Dents → MergeState E → EntriesResult
  changed_remote basedir none remote out dents s = put (remote ∷ out) dents s
  changed_remote basedir (some dir) remote out dents s =
      conflict_file (merge_conflict_filename E basedir remote.name) remote out out dents s

  -- base && !head && remote
  unfoldable pub no_head_file :
      CString → Dirent → Dirent → List Dirent → Dents → MergeState E → EntriesResult
  unfolding merge_conflict_filename
  no_head_file basedir base remote out dents s =
      if str_eq base.id remote.id
      then put out dents s
      else changed_remote basedir dents.s1 remote out dents s

  abbrev changed_head :
      CString → Option Dirent → Dirent → List Dirent → Dents → MergeState E → EntriesResult
  changed_head basedir none head out dents s = put (head ∷ out) dents s
  changed_head basedir (some dir) head out dents s =
      conflict_dir (merge_conflict_dirname E basedir dir.name) dir head out dents s

  -- base && head && !remote
  unfoldable pub no_remote_file :
      CString → Dirent → Dirent → List Dirent → Dents → MergeState E → EntriesResult
  unfolding merge_conflict_dirname
  no_remote_file basedir base head out dents s =
      if str_eq base.id head.id
      then put out dents s
      else changed_head basedir dents.s2 head out dents s

  abbrev remote_over :
      CString
      → Option Dirent
      → Option Dirent
      → Dirent
      → List Dirent
      → Dents
      → MergeState E
      → EntriesResult
  remote_over basedir base none remote out dents s = put (remote ∷ out) dents s
  remote_over basedir base (some dir) remote out dents s =
      if has_id base dir.id
      then put (remote ∷ out) dents s
      else conflict_file (merge_conflict_filename E basedir remote.name) remote out out dents s

  -- !base && !head && remote
  unfoldable pub only_remote_file :
      CString → Dirent → List Dirent → Dents → MergeState E → EntriesResult
  unfolding merge_conflict_filename
  only_remote_file basedir remote out dents s =
      remote_over basedir dents.s0 dents.s1 remote out dents s

  abbrev head_over :
      CString
      → Option Dirent
      → Option Dirent
      → Dirent
      → List Dirent
      → Dents
      → MergeState E
      → EntriesResult
  head_over basedir base none head out dents s = put (head ∷ out) dents s
  head_over basedir base (some dir) head out dents s =
      if has_id base dir.id
      then put (head ∷ out) dents s
      else conflict_dir (merge_conflict_dirname E basedir dir.name) dir head out dents s

  -- !base && head && !remote
  unfoldable pub only_head_file :
      CString → Dirent → List Dirent → Dents → MergeState E → EntriesResult
  unfolding merge_conflict_dirname
  only_head_file basedir head out dents s = head_over basedir dents.s0 dents.s2 head out dents s

  -- The chain of cases of the three-way merge, on `files`.
  unfoldable pub merge_files :
      Option Dirent
      → Option Dirent
      → Option Dirent
      → CString
      → List Dirent
      → Dents
      → MergeState E
      → EntriesResult
  unfolding both_files no_head_file no_remote_file only_remote_file only_head_file
  merge_files base (some head) (some remote) basedir out dents s =
      both_files basedir base head remote out dents s
  merge_files (some base) none (some remote) basedir out dents s =
      no_head_file basedir base remote out dents s
  merge_files (some base) (some head) none basedir out dents s =
      no_remote_file basedir base head out dents s
  merge_files none none (some remote) basedir out dents s =
      only_remote_file basedir remote out dents s
  merge_files none (some head) none basedir out dents s = only_head_file basedir head out dents s
  merge_files (some base) none none basedir out dents s = put out dents s
  merge_files none none none basedir out dents s = put out dents s

  abbrev called_back : Dents → List Dirent → MergeState E → Bool × E.CallbackData → EntriesResult
  called_back dents out s (true, cb) = (success, dents, out, record s { data_of_callback = cb })
  called_back dents out s (false, cb) = (failure, dents, out, record s { data_of_callback = cb })

  unfoldable pub merge_entries : CString → Dents → List Dirent → MergeState E → EntriesResult
  unfolding merge_files file_of
  merge_entries basedir dents out s =
      if E.n == 2 || not E.do_merge
      then called_back dents out s (E.callback basedir (map3 file_of dents) s.data_of_callback)
      else merge_files (file_of dents.s0) (file_of dents.s1) (file_of dents.s2) basedir out dents s
