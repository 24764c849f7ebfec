-- ===== src/Tests/Edits.antt =====
-- Edits of server/repo-op.c on a small store.
use seafile_server.Base.{
  ◌≡◌, refl, inl, inr, true, false, none, some, List, [], ◌∷◌, CString, codes, str_eq, str_lt, ◌&&◌,
  arith, if◌then◌else◌,
}
use seafile_server.Fs.{Dirent, Objects, get_seafdir}
use seafile_server.Fs.Sorted.{Desc}
use seafile_server.Edit.Names.{generate_unique_filename, filename_exists}
use seafile_server.Edit.Walk.{
  makes, Edited, changed, unchanged, failed, do_edit, components, find_entry,
}
use seafile_server.Edit.Recursions.{do_post_file_replace, do_put_file, do_rename_file, do_del_file}
use seafile_server.Edit.Targets.{
  with_name, put_target, is_listed, keep_others, nothing_deleted, replace_entries,
}
use seafile_server.Edit.Paths.{Leads, TurnsOff, remade, EachRemade}
use seafile_server.Fs.{insert_dirent, dir_new}
use seafile_server.Fs.Reading.{read_back}
use seafile_server.Merge.Trees.{dir_version_from_repo_version}
use seafile_server.Edit.Targets.{dirent_new, others, post_target, rename_target, del_target}
use seafile_server.Edit.Walk.{set_entry}
use seafile_server.Edit.Entries.{put_at}
use seafile_server.Base.{All}
use seafile_server.Fs.{is_dir}
use seafile_server.Fs.Paths.{get_seafdir_by_path, found_dir}
use seafile_server.Edit.Walk.{drop_slash}
use seafile_server.Edit.Lookup.{path_of, IsName, LeadsTo, get_seafdir_by_path-LeadsTo}
use seafile_server.Edit.Effects.{
  Becomes, names_of, do_post_file_adds, do_put_file_replaces, do_rename_file_moves,
  do_del_file_deletes,
}
use seafile_server.Edit.Frame.{Missing, do_edit_keeps, do_edit-Missing, do_edit_frame}
use seafile_server.Tests.Store.{
  env, OneOf, IsNew, OneOf-Works, id_in, file, folder, id_of_digit, objects, docs_entries,
  root_entries, docs_id, top_id, dir_at, readme, draft,
}

abbrev docs : CString
docs = codes "/docs"

docs-names : names_of docs ≡ codes "docs" ∷ []
unfolding components
docs-names = refl

docs_leads : Leads objects 1 top_id (names_of docs) docs_entries
unfolding get_seafdir find_entry components str_eq
docs_leads = (
  dir_at top_id root_entries,
  folder (codes "docs") docs_id,
  refl,
  refl,
  (dir_at docs_id docs_entries, refl, refl),
)

docs-Desc : Desc docs_entries
unfolding str_lt
docs-Desc = ((refl, tt), (tt, tt))

new_draft : generate_unique_filename draft.name docs_entries ≡ some (codes "a (1).txt")
unfolding generate_unique_filename str_eq
new_draft = refl

no_replacement : (false && filename_exists docs_entries draft.name) ≡ false
no_replacement = refl

abbrev posted_docs : List Dirent
posted_docs = insert_dirent (with_name draft (codes "a (1).txt")) docs_entries

abbrev posted_root : List Dirent
posted_root =
    remade env (post_target false draft) true objects posted_docs docs_entries (names_of docs)
      top_id docs_leads

posted_docs-IsNew : IsNew posted_docs
unfolding str_eq read_back insert_dirent str_lt dirent_new replace_entries
    dir_version_from_repo_version
posted_docs-IsNew = (refl, refl, refl)

posted_root-IsNew : IsNew posted_root
unfolding str_eq read_back components set_entry dir_new insert_dirent str_lt dirent_new docs_leads
    dir_version_from_repo_version replace_entries
posted_root-IsNew = (refl, refl, refl)

posted_apart : str_eq (id_in posted_docs) (id_in posted_root) ≡ false
unfolding str_eq components set_entry dir_new insert_dirent str_lt dirent_new docs_leads
    dir_version_from_repo_version replace_entries
posted_apart = refl

posted_each :
    EachRemade env
      (post_target false draft)
      true
      objects
      posted_docs
      (OneOf posted_docs posted_root)
      docs_entries
      (names_of docs)
      top_id
      docs_leads
unfolding components docs_leads
posted_each = (inr refl, inl refl)

do_post_file_adds_example :
    Becomes env
      (names_of docs)
      tt
      (put_at (codes "a (1).txt") (some (with_name draft (codes "a (1).txt"))) docs_entries)
      (do_post_file_replace env top_id docs false draft objects)
do_post_file_adds_example =
    do_post_file_adds env (OneOf posted_docs posted_root) top_id docs objects docs_entries
      (OneOf-Works posted_docs posted_root posted_docs-IsNew posted_root-IsNew posted_apart)
      docs_leads docs-Desc false draft (codes "a (1).txt") no_replacement new_draft posted_each

abbrev newer : Dirent
newer = file (codes "readme") (id_of_digit b'3')

readme_there : find_entry newer.name docs_entries ≡ some readme
unfolding find_entry str_eq
readme_there = refl

abbrev put_docs : List Dirent
put_docs = replace_entries newer docs_entries

abbrev put_root : List Dirent
put_root =
    remade env (put_target newer) true objects put_docs docs_entries (names_of docs) top_id
      docs_leads

put_docs-IsNew : IsNew put_docs
unfolding str_eq read_back insert_dirent str_lt dirent_new replace_entries
    dir_version_from_repo_version
put_docs-IsNew = (refl, refl, refl)

put_root-IsNew : IsNew put_root
unfolding str_eq read_back components set_entry dir_new insert_dirent str_lt dirent_new docs_leads
    dir_version_from_repo_version replace_entries
put_root-IsNew = (refl, refl, refl)

put_apart : str_eq (id_in put_docs) (id_in put_root) ≡ false
unfolding str_eq components set_entry dir_new insert_dirent str_lt dirent_new docs_leads
    dir_version_from_repo_version replace_entries
put_apart = refl

put_each :
    EachRemade env
      (put_target newer)
      true
      objects
      put_docs
      (OneOf put_docs put_root)
      docs_entries
      (names_of docs)
      top_id
      docs_leads
unfolding components docs_leads
put_each = (inr refl, inl refl)

do_put_file_replaces_example :
    Becomes env
      (names_of docs)
      tt
      (put_at newer.name (some newer) docs_entries)
      (do_put_file env top_id docs newer objects)
do_put_file_replaces_example =
    do_put_file_replaces env (OneOf put_docs put_root) top_id docs objects docs_entries
      (OneOf-Works put_docs put_root put_docs-IsNew put_root-IsNew put_apart) docs_leads docs-Desc
      newer readme readme_there put_each

no_todo : put_at (codes "readme") none docs_entries (codes "todo") ≡ none
unfolding find_entry str_eq
no_todo = refl

abbrev renamed_docs : List Dirent
renamed_docs =
    insert_dirent (with_name readme (codes "todo")) (others (codes "readme") docs_entries)

abbrev renamed_root : List Dirent
renamed_root =
    remade env (rename_target (codes "readme") (codes "todo")) false objects renamed_docs
      docs_entries (names_of docs) top_id docs_leads

renamed_docs-IsNew : IsNew renamed_docs
unfolding str_eq read_back insert_dirent str_lt dirent_new replace_entries
    dir_version_from_repo_version others
renamed_docs-IsNew = (refl, refl, refl)

renamed_root-IsNew : IsNew renamed_root
unfolding str_eq read_back components set_entry dir_new insert_dirent str_lt dirent_new docs_leads
    dir_version_from_repo_version replace_entries others
renamed_root-IsNew = (refl, refl, refl)

renamed_apart : str_eq (id_in renamed_docs) (id_in renamed_root) ≡ false
unfolding str_eq components set_entry dir_new insert_dirent str_lt dirent_new docs_leads
    dir_version_from_repo_version replace_entries others
renamed_apart = refl

renamed_each :
    EachRemade env
      (rename_target (codes "readme") (codes "todo"))
      false
      objects
      renamed_docs
      (OneOf renamed_docs renamed_root)
      docs_entries
      (names_of docs)
      top_id
      docs_leads
unfolding components docs_leads
renamed_each = (inr refl, inl refl)

do_rename_file_moves_example :
    Becomes env
      (names_of docs)
      tt
      (λ q.
        if str_eq q (codes "todo")
        then some (with_name readme (codes "todo"))
        else put_at (codes "readme") none docs_entries q)
      (do_rename_file env top_id docs (codes "readme") (codes "todo") objects)
do_rename_file_moves_example =
    do_rename_file_moves env (OneOf renamed_docs renamed_root) top_id docs objects docs_entries
      (OneOf-Works renamed_docs renamed_root renamed_docs-IsNew renamed_root-IsNew renamed_apart)
      docs_leads docs-Desc (codes "readme") (codes "todo") readme readme_there no_todo renamed_each

readme_listed : is_listed (codes "todo" ∷ codes "readme" ∷ []) (codes "readme") ≡ true
unfolding str_eq
readme_listed = refl

abbrev deleted_docs : List Dirent
deleted_docs = (keep_others (codes "todo" ∷ codes "readme" ∷ []) docs_entries nothing_deleted).0

abbrev deleted_root : List Dirent
deleted_root =
    remade env (del_target (codes "todo" ∷ codes "readme" ∷ [])) true objects deleted_docs
      docs_entries (names_of docs) top_id docs_leads

deleted_docs-IsNew : IsNew deleted_docs
unfolding str_eq read_back insert_dirent str_lt dirent_new replace_entries
    dir_version_from_repo_version keep_others
deleted_docs-IsNew = (refl, refl, refl)

deleted_root-IsNew : IsNew deleted_root
unfolding str_eq read_back components set_entry dir_new insert_dirent str_lt dirent_new docs_leads
    dir_version_from_repo_version replace_entries keep_others
deleted_root-IsNew = (refl, refl, refl)

deleted_apart : str_eq (id_in deleted_docs) (id_in deleted_root) ≡ false
unfolding str_eq components set_entry dir_new insert_dirent str_lt dirent_new docs_leads
    dir_version_from_repo_version replace_entries keep_others
deleted_apart = refl

deleted_each :
    EachRemade env
      (del_target (codes "todo" ∷ codes "readme" ∷ []))
      true
      objects
      deleted_docs
      (OneOf deleted_docs deleted_root)
      docs_entries
      (names_of docs)
      top_id
      docs_leads
unfolding components docs_leads
deleted_each = (inr refl, inl refl)

do_del_file_deletes_example :
    Becomes env
      (names_of docs)
      (keep_others (codes "todo" ∷ codes "readme" ∷ []) docs_entries nothing_deleted).1
      (λ name.
        if is_listed (codes "todo" ∷ codes "readme" ∷ []) name
        then none
        else find_entry name docs_entries)
      (do_del_file env top_id docs (codes "todo" ∷ codes "readme" ∷ []) objects)
do_del_file_deletes_example =
    do_del_file_deletes env (OneOf deleted_docs deleted_root) top_id docs objects docs_entries
      (OneOf-Works deleted_docs deleted_root deleted_docs-IsNew deleted_root-IsNew deleted_apart)
      docs_leads docs-Desc (codes "todo") (codes "readme" ∷ []) (codes "readme") readme
      readme_listed readme_there deleted_each

docs_stored : objects docs_id ≡ some (dir_at docs_id docs_entries)
unfolding str_eq
docs_stored = refl

do_edit_keeps_example :
    (do_edit env (put_target newer) true top_id docs objects).1 docs_id
    ≡ some (dir_at docs_id docs_entries)
do_edit_keeps_example =
    do_edit_keeps env (put_target newer) true top_id docs objects docs_id
      (dir_at docs_id docs_entries) docs_stored

abbrev no_docs : CString
no_docs = codes "docs/none"

no_docs-Missing : Missing objects 1 top_id (names_of no_docs)
unfolding get_seafdir find_entry components str_eq
no_docs-Missing = inr (
  dir_at top_id root_entries,
  refl,
  inr (folder (codes "docs") docs_id, refl, inr (dir_at docs_id docs_entries, refl, inl refl)),
)

do_edit-Missing_example :
    do_edit env (put_target newer) true top_id no_docs objects ≡ (failed, objects)
do_edit-Missing_example =
    do_edit-Missing env (put_target newer) true top_id no_docs objects (omega arith) no_docs-Missing

abbrev outcome : Edited (Unit {0}) × Objects
outcome = do_edit env (put_target newer) true top_id docs objects

abbrev id_of : Edited (Unit {0}) → CString
id_of failed = []
id_of (unchanged id a) = id
id_of (changed id a) = id

abbrev new_root : CString
new_root = id_of outcome.0

runs : outcome ≡ (changed new_root tt, outcome.1)
unfolding do_edit str_eq put_target dir_version_from_repo_version
runs = refl

alias-Leads : Leads objects 1 top_id (codes "alias" ∷ []) docs_entries
unfolding get_seafdir find_entry str_eq
alias-Leads = (
  dir_at top_id root_entries,
  folder (codes "alias") docs_id,
  refl,
  refl,
  (dir_at docs_id docs_entries, refl, refl),
)

alias-TurnsOff : TurnsOff (codes "alias" ∷ []) (names_of docs)
unfolding components
alias-TurnsOff = inl cc

puts : put_target newer docs_entries ≡ makes put_docs tt
unfolding put_target
puts = refl

-- The other directory of the same contents keeps them.
do_edit_frame_example : Leads outcome.1 1 new_root (codes "alias" ∷ []) docs_entries
do_edit_frame_example =
    do_edit_frame env (put_target newer) true top_id docs objects outcome.1 docs_entries put_docs
      new_root tt (codes "alias" ∷ []) docs_entries (OneOf put_docs put_root)
      (OneOf-Works put_docs put_root put_docs-IsNew put_root-IsNew put_apart) docs_leads put_each
      puts runs alias-TurnsOff alias-Leads

docs-LeadsTo : LeadsTo objects 1 top_id (codes "docs" ∷ []) (dir_at docs_id docs_entries)
unfolding get_seafdir find_entry str_eq is_dir
docs-LeadsTo = (dir_at top_id root_entries, folder (codes "docs") docs_id, refl, refl, refl, refl)

docs-IsName : All IsName (codes "docs" ∷ [])
docs-IsName = (((λ e. cc), (refl, (refl, (refl, (refl, tt))))), tt)

get_seafdir_by_path-LeadsTo_example :
    (get_seafdir_by_path objects 1 top_id (path_of (codes "docs" ∷ []))
      ≡ found_dir (dir_at docs_id docs_entries))
    × (components (drop_slash (path_of (codes "docs" ∷ []))) ≡ codes "docs" ∷ [])
get_seafdir_by_path-LeadsTo_example =
    get_seafdir_by_path-LeadsTo objects 1 top_id (codes "docs" ∷ []) (dir_at docs_id docs_entries)
      docs-IsName docs-LeadsTo
