-- ===== src/Tests/Diffs.antt =====
-- Diffs of the small repository.
use seafile_server.Base.{
  ℕ, ◌<◌, ◌≡◌, ◌≢◌, ◌↔◌, ◌⊎◌, refl, inl, true, none, some, List, [], ◌∷◌, ◌++◌, suc, CString, codes,
  zero, replicate, if◌then◌else◌, ◌==◌, All, str_lt, str_eq, length, arith,
}
use seafile_server.Fs.{SeafDir, Objects, is_reg, get_seafdir}
use seafile_server.Walk.{three}
use seafile_server.Fs.Sorted.{Desc}
use seafile_server.Hex.{rawdata_to_hex, hex_to_rawdata, is_object_id_valid}
use seafile_server.Hex.RoundTrip.{hex_to_rawdata-rawdata_to_hex, rawdata_to_hex-is_object_id_valid}
use seafile_server.Diff.{
  DiffEntry, DiffEnv, modified, dir_renamed, added, deleted, dir_added, dir_deleted, Status,
  success, out_of_fuel,
}
use seafile_server.Diff.Callbacks.{two_way}
use seafile_server.Diff.Trees.{diff_trees}
use seafile_server.Diff.Same.{diff_trees-same}
use seafile_server.Diff.Flat.{diff_trees-files, at_path, expected, lookup}
use seafile_server.Diff.Ends.{diff_trees_terminates}
use seafile_server.Diff.Renames.{diff_resolve_renames}
use seafile_server.Diff.RenameLaws.{Elem, IsRename, diff_resolve_renames_sound}
use seafile_server.Diff.EmptyDirs.{is_redundant_empty_dir, is_redundant_empty_dir_iff}
use seafile_server.Diff.Describe.{diff_results_to_description}
use seafile_server.Diff.Description.{description, diff_results_to_description-counts}
use seafile_server.Tests.Trees.{file, notes, plan, directory, stored, base_dir, head_dir, store}
use seafile_server.Tests.Merges.{base_loads, base-Shallow, head-Shallow}

hex_to_rawdata-rawdata_to_hex_example :
    hex_to_rawdata (rawdata_to_hex (0 ∷ 171 ∷ [])) 2 ≡ some (0 ∷ 171 ∷ [])
hex_to_rawdata-rawdata_to_hex_example =
    hex_to_rawdata-rawdata_to_hex (0 ∷ 171 ∷ []) (omega arith, (omega arith, tt))

abbrev counting : DiffEnv
counting = record {
  n = 2;
  version = 1;
  objects = store;
  CallbackData = ℕ;
  file_cb = λ basedir files calls. (true, suc calls);
  dir_cb = λ basedir dirs calls. (true, true, suc calls);
}

diff_trees-same_example :
    diff_trees counting 1 (three base_dir.dir_id base_dir.dir_id base_dir.dir_id) 0 ≡ (success, 0)
diff_trees-same_example = diff_trees-same counting 0 base_dir.dir_id 0 (inl refl) base_loads

diff_trees_terminates_example :
    (diff_trees counting 2 (three base_dir.dir_id head_dir.dir_id base_dir.dir_id) 0).0
    ≢ out_of_fuel
diff_trees_terminates_example =
    diff_trees_terminates counting 2 (three base_dir.dir_id head_dir.dir_id base_dir.dir_id) 0
      (base-Shallow, head-Shallow, base-Shallow)

abbrev old_dir : SeafDir
old_dir = directory (plan ∷ notes ∷ [])

abbrev new_dir : SeafDir
new_dir = directory (file (codes "todo") (codes "2") ∷ file (codes "notes") (codes "8") ∷ [])

abbrev flat_store : Objects
flat_store = stored (old_dir ∷ new_dir ∷ [])

old_loads : get_seafdir flat_store 1 old_dir.dir_id ≡ some old_dir
unfolding get_seafdir str_eq
old_loads = refl

new_loads : get_seafdir flat_store 1 new_dir.dir_id ≡ some new_dir
unfolding get_seafdir str_eq
new_loads = refl

all_files : is_reg 0x81A4 ≡ true
unfolding is_reg
all_files = refl

old_in_order : Desc old_dir.entries
unfolding str_lt
old_in_order = ((refl, tt), (tt, tt))

new_in_order : Desc new_dir.entries
unfolding str_lt
new_in_order = ((refl, tt), (tt, tt))

diff_trees-files_example :
    (results : List DiffEntry) × (diff_trees
        (two_way flat_store 1 true)
        1
        (three old_dir.dir_id new_dir.dir_id [])
        []
      ≡ (success, results))
    × ((m : CString)
        → at_path m results ≡ expected [] (lookup m old_dir.entries) (lookup m new_dir.entries))
diff_trees-files_example =
    diff_trees-files flat_store 1 true 0 old_dir.dir_id new_dir.dir_id [] old_loads new_loads
      (all_files, (all_files, tt)) (all_files, (all_files, tt)) old_in_order new_in_order

abbrev change : Status → CString → DiffEntry
change status name = record {
  status = status;
  sha1 = 1 ∷ 2 ∷ [];
  name = name;
  new_name = none;
  size = 3;
  origin_size = 0;
}

abbrev moved : List DiffEntry
moved = change added (codes "b") ∷ change deleted (codes "a") ∷ []

-- A deleted and an added file with one content become one rename.
one_rename : length (diff_resolve_renames moved) ≡ 1
unfolding diff_resolve_renames str_eq
one_rename = refl

diff_resolve_renames_sound_example :
    All (λ e. Elem e moved ⊎ IsRename moved e) (diff_resolve_renames moved)
diff_resolve_renames_sound_example = diff_resolve_renames_sound moved

-- The deleted file "ab" is not under the directory "a".
is_redundant_empty_dir_iff_example :
    (is_redundant_empty_dir (change dir_added (codes "a")) (change deleted (codes "ab")) ≡ true) ↔ (
      (((dir_added ≡ dir_added) × (deleted ≡ deleted))
        ⊎ ((dir_added ≡ dir_deleted) × (deleted ≡ added)))
      × ((c : ℕ) × (rest : CString) × (codes "ab" ≡ codes "a" ++ c ∷ rest)))
is_redundant_empty_dir_iff_example =
    is_redundant_empty_dir_iff (change dir_added (codes "a")) (change deleted (codes "ab"))

sibling_drops :
    is_redundant_empty_dir (change dir_added (codes "a")) (change deleted (codes "ab")) ≡ true
unfolding is_redundant_empty_dir
sibling_drops = refl

abbrev in_words : ℕ → CString
in_words n = if n == 1 then codes "one" else codes "many"

diff_results_to_description-counts_example :
    diff_results_to_description in_words
      (change added (codes "x/b") ∷ change modified (codes "c") ∷ [])
    ≡ some (description in_words (change added (codes "x/b") ∷ change modified (codes "c") ∷ []))
diff_results_to_description-counts_example =
    diff_results_to_description-counts in_words (change added (codes "x/b"))
      (change modified (codes "c") ∷ [])

described :
    diff_results_to_description in_words
      (change added (codes "x/b") ∷ change modified (codes "c") ∷ [])
    ≡ some (codes "Added or modified \"b\" and one more files.\n")
unfolding diff_results_to_description
described = refl

-- A diff that only renames a directory has an empty description.
renamed_dir_unsaid :
    diff_results_to_description in_words (change dir_renamed (codes "a") ∷ []) ≡ some []
unfolding diff_results_to_description
renamed_dir_unsaid = refl

All-small : (n : ℕ) → All (λ x. x < 256) (replicate n 171)
All-small zero = tt
All-small (suc n) = (omega arith, All-small n)

rawdata_to_hex-is_object_id_valid_example :
    is_object_id_valid (rawdata_to_hex (replicate 20 171)) ≡ true
rawdata_to_hex-is_object_id_valid_example =
    rawdata_to_hex-is_object_id_valid (replicate 20 171) refl (All-small 20)
