-- ===== src/Diff/Callbacks.antt =====
-- The callbacks of common/diff-simple.c, and the diffs of two roots and of a merge with its parents.
use seafile_server.Base.{
  ℕ, Bool, true, false, Option, none, some, List, ◌∷◌, CString, str_eq, if◌then◌else◌,
}
use seafile_server.Fs.{Dirent, Objects, empty_sha1}
use seafile_server.Diff.{
  added, deleted, modified, dir_added, dir_deleted, DiffEntry, DiffEnv, diff_entry_new_from_dirent,
  dirent_same,
}

-- `twoway_diff_files` on its two files. Neither present does not happen.
unfoldable pub twoway_files :
    CString → Option Dirent → Option Dirent → List DiffEntry → List DiffEntry
unfolding diff_entry_new_from_dirent
twoway_files basedir none none results = results
twoway_files basedir none (some tree2) results =
    diff_entry_new_from_dirent added tree2 basedir ∷ results
twoway_files basedir (some tree1) none results =
    diff_entry_new_from_dirent deleted tree1 basedir ∷ results
twoway_files basedir (some tree1) (some tree2) results =
    if dirent_same tree1 tree2
    then results
    else record (diff_entry_new_from_dirent modified tree2 basedir) { origin_size = tree1.size }
      ∷ results

-- `twoway_diff_dirs` on its two directories: the results and `recurse`.
unfoldable pub twoway_dirs :
    Bool → CString → Option Dirent → Option Dirent → List DiffEntry → Bool × List DiffEntry
unfolding diff_entry_new_from_dirent
twoway_dirs fold basedir none none results = (true, results)
twoway_dirs fold basedir none (some tree2) results =
    if str_eq tree2.id empty_sha1
    then (false, diff_entry_new_from_dirent dir_added tree2 basedir ∷ results)
    else if fold
    then (false, diff_entry_new_from_dirent dir_added tree2 basedir ∷ results)
    else (true, results)
twoway_dirs fold basedir (some tree1) none results =
    (if fold then false else true, diff_entry_new_from_dirent dir_deleted tree1 basedir ∷ results)
twoway_dirs fold basedir (some tree1) (some tree2) results = (true, results)

-- `threeway_diff_files` on a merge and its two parents.
unfoldable pub threeway_files :
    CString → Option Dirent → Option Dirent → Option Dirent → List DiffEntry → List DiffEntry
unfolding diff_entry_new_from_dirent
threeway_files basedir (some m) (some p1) (some p2) results =
    if dirent_same m p1
    then results
    else if dirent_same m p2
    then results
    else diff_entry_new_from_dirent modified m basedir ∷ results
threeway_files basedir none (some p1) (some p2) results =
    diff_entry_new_from_dirent deleted p1 basedir ∷ results
threeway_files basedir (some m) none (some p2) results =
    if dirent_same m p2 then results else diff_entry_new_from_dirent modified m basedir ∷ results
threeway_files basedir (some m) (some p1) none results =
    if dirent_same m p1 then results else diff_entry_new_from_dirent modified m basedir ∷ results
threeway_files basedir (some m) none none results =
    diff_entry_new_from_dirent added m basedir ∷ results
threeway_files basedir none (some p1) none results = results
threeway_files basedir none none p2 results = results

-- The options of `diff_commits` and `diff_commit_roots`.
abbrev pub two_way : Objects → ℕ → Bool → DiffEnv
two_way objects version fold = record {
  n = 2;
  version = version;
  objects = objects;
  CallbackData = List DiffEntry;
  file_cb = λ basedir files results. (true, twoway_files basedir files.s0 files.s1 results);
  dir_cb = λ basedir dirs results.
      let (deeper, results') = twoway_dirs fold basedir dirs.s0 dirs.s1 results in
      (true, deeper, results');
}

-- The options of `diff_merge` and `diff_merge_roots`; `threeway_diff_dirs` always goes on.
abbrev pub three_way : Objects → ℕ → DiffEnv
three_way objects version = record {
  n = 3;
  version = version;
  objects = objects;
  CallbackData = List DiffEntry;
  file_cb =
      λ basedir files results. (true, threeway_files basedir files.s0 files.s1 files.s2 results);
  dir_cb = λ basedir dirs results. (true, true, results);
}
