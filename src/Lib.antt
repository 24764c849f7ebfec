-- ===== src/Lib.antt =====
-- Verification of parts of the Seafile server: the three-way merge of directory trees, the
-- comparison of trees, the edits of a directory in a library and their publication as commits, the
-- permissions of libraries, and the Bloom filter. The code is C; paths are from the root of the
-- repository.
--
-- The parts of the program, and the modules that model them.
-- - lib/utils.c, object ids as raw bytes and as text: Hex (`rawdata_to_hex`, `hexval`,
--   `hex_to_rawdata`, `is_object_id_valid`).
-- - common/fs-mgr.c, directory objects: Fs (`SeafDirent` is Dirent, `SeafDir`, `seaf_dir_new` is
--   dir_new, `seaf_dir_save` is dir_save, `seaf_fs_manager_get_seafdir` is get_seafdir). The object
--   store is a function from ids to directories; its back end may refuse to store an object. It gives an
--   object as `seaf_dir_from_data` reads it; one that this refuses is none. Fs.Reading has what that
--   keeps of the entries that `seaf_dir_to_data` writes, and where it refuses them. A merge saves by
--   dir_save, where the entries, which come from directories that were read, stay as they are.
--   Fs.Paths has `seaf_fs_manager_get_seafdir_sorted`, `seaf_fs_manager_get_seafdir_by_path`,
--   `seaf_fs_manager_path_to_obj_id` and their helpers.
-- - common/merge-new.c: Merge. The options and the outside world are a record MergeEnv, what changes
--   is a record MergeState that each function takes and returns. Merge.Conflict has the names of
--   conflicting copies (and `gen_conflict_path` of common/vc-common.c), Merge.Entries
--   `merge_entries`, Merge.Dirs `merge_directories`, Merge.Trees `merge_trees_recursive` and
--   `seaf_merge_trees`. Entries that the C code renames in place are passed on as new arrays.
-- - common/diff-simple.c: Diff. Diff.Trees has the walk, which calls the callbacks of a record
--   DiffEnv; Diff.Callbacks those that the server gives to it; Diff.Renames and Diff.EmptyDirs what
--   is made of the results, where the nodes of a GList are told apart by numbers; Diff.Describe the
--   description of a commit.
-- - server/repo-op.c, the changes of one directory: Edit. Edit.Names has `generate_unique_filename`,
--   Edit.Walk the recursion that `post_file_recursive`, `post_multi_files_recursive`,
--   `put_file_recursive`, `rename_file_recursive` and `del_file_recursive` share statement for
--   statement, edit_recursive, which takes what they do to the entries of the target directory as an
--   argument; Edit.Targets has what each does there, Edit.Recursions these functions and the `do_…`
--   that call them. A NULL is the result
--   `failed`. Edit.Paths says when names lead to a directory (Leads), when a path turns off from
--   another (TurnsOff), and when a store works for some directories (Works): it takes each, no two of
--   them have one id, each is read back as it was written, and the repository is not of the first
--   version. What is read back of a directory is Fs.Reading: an edit stores it by dir_write.
-- - common/branch-mgr.c: Branch. The table is a function of library and name; a transaction is
--   atomic, and each of its steps may fail.
-- - common/commit-mgr.c and server/repo-mgr.c: Commit, with `seaf_commit_new`, `save_commit`,
--   `seaf_repo_to_commit` and `seaf_repo_from_commit`. Commit.Publish has `gen_new_commit` of
--   server/repo-op.c and `seaf_repo_manager_get_repo`; Commit.Publish.Attempts tells the attempts of
--   a run of it apart (Tried, Reaches), Commit.Publish.Ways the ways out of it.
-- - server/repo-op.c, the operations `seaf_repo_manager_rename_file` and
--   `seaf_repo_manager_del_file`: Ops, from Fs.Paths, Edit and Commit.Publish; Ops.Posts has
--   `seaf_repo_manager_post_dir`, `seaf_repo_manager_post_empty_file` and
--   `seaf_repo_manager_put_file`, where the blocks of a file are an argument.
-- - server/repo-perm.c: Perm. Perm.Shares has the permission by shares, Perm.Dirs that by shared
--   directories, Perm.Repos `seaf_repo_manager_check_permission`, Perm.Listing
--   `seaf_repo_manager_list_dir_with_perm`.
-- - lib/bloom-filter.c: Bloom, with `incr_bit`, `decr_bit`, `bloom_create`, `bloom_add`,
--   `bloom_remove` and `bloom_test`. The bit array is the list of its bits; the counters stand two
--   to a byte, as in C.
-- Walk is what the merge and the diff do alike: both go through two or three sorted lists at once,
-- name by name, and down into directories of the same name. The merge and the diff take directories
-- from Fs; a listing takes directories from Fs and permissions from Perm.Repos. An edit makes a new
-- root; `gen_new_commit` makes a commit of it, merges it with the head of the branch by Merge where
-- that has moved (and describes a conflict by Diff), and moves the branch by Branch. What other
-- processes do meanwhile is two functions on all the state that is shared, one for the time between
-- the reading of the head and the transaction, one for the sleep after a conflict.
--
-- Bounds. A walk over lists takes one entry off at least in each round, so the sum of the lengths
-- is enough rounds. The recursion into directories runs on a bound on the depth, and reports a
-- result of its own, `out_of_fuel`, where that is too small; it is enough where the trees are in
-- the store and at most that deep. The search up a path runs on the length of the path. An edit
-- goes down the names of its path. The attempts of `gen_new_commit` are counted down from
-- MAX_RETRY_COUNT. Numbers are not bounded, but for the 32 bits of `hexval` and of the sum of
-- offset and limit of a listing, which wrap around.
--
-- Taken as parameters: SHA-1 of a serialised directory and of a commit, SHA-256, the answers of
-- the database, other processes, the callback of a merge, the clock and `strftime`, the reads of
-- the remote head commit, the answers of the managers of shares, groups and libraries, and what
-- `printf` makes of a number, and which strings Jansson takes. The id of a directory is a parameter too, a function of its
-- version and entries; nothing is assumed of it but where a theorem says so. Not modelled: logs,
-- memory, and the serialised form of objects and commits with the checks on reading a commit. The names that `json_to_file_list` reads are an argument
-- of the deletion. The merge of virtual libraries and the validation of UTF-8 are parameters of an
-- operation; the computing of the size of a library, which it schedules, is not modelled. The
-- other parts of the server (its database, its HTTP services, the block store, garbage collection)
-- are not modelled.
pub mod Base
pub mod Hex
pub mod Fs
pub mod Walk
pub mod Merge
pub mod Diff
pub mod Edit
pub mod Branch
pub mod Commit
pub mod Ops
pub mod Perm
pub mod Bloom
pub mod Tests
