-- ===== src/Diff/Renames.antt =====
-- `diff_resolve_renames` of common/diff-simple.c, and the diffs that end with it. The nodes of the
-- GList are told apart by a number, as the C code tells them apart by their addresses.
use seafile_server.Base.{
  ℕ, suc, Bool, not, ◌&&◌, Option, none, some, List, [], ◌∷◌, CString, str_eq, ◌==◌, if◌then◌else◌,
  replicate,
}
use seafile_server.Fs.{Objects}
use seafile_server.Walk.{three}
use seafile_server.Diff.{
  Status, added, deleted, renamed, dir_added, dir_deleted, dir_renamed, DiffEntry, diff_entry_new,
}
use seafile_server.Diff.Trees.{diff_trees}
use seafile_server.Diff.Callbacks.{two_way, three_way}

pub record Node : Type 0 where
  pub link : ℕ
  pub entry : DiffEntry

-- `memcmp (de->sha1, empty_sha1, 20) == 0`
abbrev pub is_empty : DiffEntry → Bool
is_empty de = str_eq de.sha1 (replicate 20 0)

pub record Counts : Type 0 where
  pub deleted_empty_count : ℕ
  pub deleted_empty_dir_count : ℕ
  pub added_empty_count : ℕ
  pub added_empty_dir_count : ℕ

abbrev count_entry : Counts → Status → Counts
count_entry c deleted = record c { deleted_empty_count = suc c.deleted_empty_count }
count_entry c dir_deleted = record c { deleted_empty_dir_count = suc c.deleted_empty_dir_count }
count_entry c added = record c { added_empty_count = suc c.added_empty_count }
count_entry c dir_added = record c { added_empty_dir_count = suc c.added_empty_dir_count }
count_entry c _ = c

-- The loop that counts the deleted and the added entries with no content.
unfoldable pub count_empty : Counts → List Node → Counts
count_empty c [] = c
count_empty c (p ∷ ps) =
    count_empty (if is_empty p.entry then count_entry c p.entry.status else c) ps

-- The two flags.
pub record Checks : Type 0 where
  pub check_empty_file : Bool
  pub check_empty_dir : Bool

unfoldable pub checks_of : Counts → Checks
checks_of c = record {
  check_empty_file = c.deleted_empty_count == 1 && c.added_empty_count == 1;
  check_empty_dir = c.deleted_empty_dir_count == 1 && c.added_empty_dir_count == 1;
}

-- A hash table from raw ids to nodes.
abbrev pub Table : Type 0
Table = List (List ℕ × Node)

unfoldable pub insert : List ℕ → Node → Table → Table
insert key p [] = (key, p) ∷ []
insert key p ((k, q) ∷ t) =
    let rest = (k, q) ∷ insert key p t in if str_eq key k then (k, p) ∷ t else rest

unfoldable pub lookup : List ℕ → Table → Option Node
lookup key [] = none
lookup key ((k, q) ∷ t) = let rest = lookup key t in if str_eq key k then some q else rest

unfoldable pub remove : List ℕ → Table → Table
remove key [] = []
remove key ((k, q) ∷ t) = let rest = (k, q) ∷ remove key t in if str_eq key k then t else rest

pub record Tables : Type 0 where
  pub deleted_files : Table
  pub deleted_dirs : Table

abbrev pub skips : DiffEntry → Bool → Bool
skips de check = is_empty de && not check

abbrev pub note_deleted : Checks → Node → Status → Tables → Tables
note_deleted c p deleted t =
    if skips p.entry c.check_empty_file
    then t
    else record t { deleted_files = insert p.entry.sha1 p t.deleted_files }
note_deleted c p dir_deleted t =
    if skips p.entry c.check_empty_dir
    then t
    else record t { deleted_dirs = insert p.entry.sha1 p t.deleted_dirs }
note_deleted c p _ t = t

-- The loop that collects the deleted entries.
unfoldable pub collect_deleted : Checks → List Node → Tables → Tables
unfolding insert
collect_deleted c [] t = t
collect_deleted c (p ∷ ps) t = collect_deleted c ps (note_deleted c p p.entry.status t)

abbrev pub note_added : Checks → Node → Status → List Node → List Node
note_added c p added ps = if skips p.entry c.check_empty_file then ps else p ∷ ps
note_added c p dir_added ps = if skips p.entry c.check_empty_dir then ps else p ∷ ps
note_added c p _ ps = ps

-- The loop that collects the added entries, the last first.
unfoldable pub collect_added : Checks → List Node → List Node → List Node
collect_added c [] found = found
collect_added c (p ∷ ps) found = collect_added c ps (note_added c p p.entry.status found)

-- `g_list_delete_link`
unfoldable pub delete_link : Node → List Node → List Node
delete_link p [] = []
delete_link p (q ∷ qs) = let rest = q ∷ delete_link p qs in if p.link == q.link then qs else rest

-- The list, the tables, and the number of the next new node.
pub record Resolving : Type 0 where
  pub entries : List Node
  pub tables : Tables
  pub next : ℕ

abbrev pub deleted_for : Status → List ℕ → Tables → Option Node
deleted_for added sha1 t = lookup sha1 t.deleted_files
deleted_for _ sha1 t = lookup sha1 t.deleted_dirs

abbrev pub rename_status : Status → Status
rename_status dir_added = dir_renamed
rename_status _ = renamed

abbrev pub forget : Status → List ℕ → Tables → Tables
forget dir_deleted sha1 t = record t { deleted_dirs = remove sha1 t.deleted_dirs }
forget _ sha1 t = record t { deleted_files = remove sha1 t.deleted_files }

-- The pair becomes one entry.
abbrev pub rename_pair : Node → Option Node → Resolving → Resolving
rename_pair p_add none r = r
rename_pair p_add (some p_del) r = record {
  entries =
      record {
        link = r.next;
        entry =
            diff_entry_new (rename_status p_add.entry.status) p_del.entry.sha1 p_del.entry.name
              p_add.entry.name;
      }
      ∷ delete_link p_del (delete_link p_add r.entries);
  tables = forget p_del.entry.status p_add.entry.sha1 r.tables;
  next = suc r.next;
}

unfoldable pub resolve_one : Node → Resolving → Resolving
unfolding lookup remove delete_link diff_entry_new
resolve_one p_add r = rename_pair p_add (deleted_for p_add.entry.status p_add.entry.sha1 r.tables) r

-- The last loop.
unfoldable pub resolve : List Node → Resolving → Resolving
unfolding resolve_one
resolve [] r = r
resolve (p ∷ ps) r = resolve ps (resolve_one p r)

unfoldable pub number : ℕ → List DiffEntry → List Node
number n [] = []
number n (e ∷ es) = record { link = n; entry = e } ∷ number (suc n) es

unfoldable pub entries_in : List Node → List DiffEntry
entries_in [] = []
entries_in (p ∷ ps) = p.entry ∷ entries_in ps

abbrev pub length_of : List Node → ℕ
length_of [] = 0
length_of (p ∷ ps) = suc (length_of ps)

abbrev pub no_counts : Counts
no_counts = record {
  deleted_empty_count = 0;
  deleted_empty_dir_count = 0;
  added_empty_count = 0;
  added_empty_dir_count = 0;
}

abbrev pub no_tables : Tables
no_tables = record { deleted_files = []; deleted_dirs = [] }

abbrev pub resolve_nodes : List Node → Checks → Resolving
resolve_nodes ps c =
    resolve (collect_added c ps [])
      (record { entries = ps; tables = collect_deleted c ps no_tables; next = length_of ps })

unfoldable pub diff_resolve_renames : List DiffEntry → List DiffEntry
unfolding number entries_in count_empty checks_of collect_deleted collect_added resolve
diff_resolve_renames diff_entries =
    let ps = number 0 diff_entries in
    entries_in (resolve_nodes ps (checks_of (count_empty no_counts ps))).entries

-- `diff_commit_roots`: what `diff_trees` returns is dropped.
unfoldable pub diff_commit_roots :
    ℕ → Objects → ℕ → CString → CString → Bool → List DiffEntry → List DiffEntry
unfolding diff_trees diff_resolve_renames
diff_commit_roots depth objects version root1 root2 fold_dir_diff results =
    diff_resolve_renames
      (diff_trees (two_way objects version fold_dir_diff) depth (three root1 root2 []) results).1

-- `diff_merge_roots`, with results that are empty at first.
unfoldable pub diff_merge_roots : ℕ → Objects → ℕ → CString → CString → CString → List DiffEntry
unfolding diff_trees diff_resolve_renames
diff_merge_roots depth objects version merged_root p1_root p2_root =
    diff_resolve_renames
      (diff_trees (three_way objects version) depth (three merged_root p1_root p2_root) []).1
