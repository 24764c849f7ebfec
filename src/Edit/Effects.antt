-- ===== src/Edit/Effects.antt =====
-- What `do_post_file`, `do_put_file`, `do_rename_file` and `do_del_file` of server/repo-op.c make of
-- the directory at a path.
use seafile_server.Base.{
  ◌≡◌, refl, ap, ◌∙◌, Bool, true, false, ◌&&◌, Option, none, some, List, ◌∷◌, CString, str_eq,
  arith, if◌then◌else◌,
}
use seafile_server.Fs.{Dirent, Objects, insert_dirent}
use seafile_server.Fs.Sorted.{Desc}
use seafile_server.Edit.{EditEnv}
use seafile_server.Edit.Names.{
  filename_exists, generate_unique_filename, generate_unique_filename_fresh,
}
use seafile_server.Edit.Walk.{
  Target, makes, Edited, changed, find_entry, components, drop_slash, do_edit,
}
use seafile_server.Edit.Recursions.{do_post_file_replace, do_put_file, do_rename_file, do_del_file}
use seafile_server.Edit.Targets.{
  replace_entries, with_name, others, keep_others, is_listed, nothing_deleted, insert_some,
  post_target, put_target, rename_target, del_target,
}
use seafile_server.Edit.Paths.{Leads, Works, EachRemade}
use seafile_server.Edit.Spec.{edit_recursive-Edits}
use seafile_server.Edit.Entries.{
  put_at, exists-find_entry, find_entry-insert, find_entry-replace, find_entry-others,
  find_entry-keep_others,
}
use seafile_server.Edit.Ordered.{
  with_name_name, insert-Desc, replace-Desc, others-Desc, keep_others-Desc, renamed_entry-found,
  keep_others-counts,
}

-- The path of a directory as the names that lead to it.
abbrev pub names_of : CString → List CString
names_of parent_dir = components (drop_slash parent_dir)

-- The result is a new root, under which the path leads to a directory whose entries, as a map from
-- names, are the view, in strictly descending order of name.
abbrev pub Becomes :
    {A : Type 0}
    → EditEnv
    → List CString
    → A
    → (CString → Option Dirent)
    → Edited A × Objects
    → Type 0
Becomes E names a view result =
    (root : CString) × (after : Objects) × (new : List Dirent) × (result ≡ (changed root a, after))
    × Leads after E.version root names new
    × ((q : CString) → find_entry q new ≡ view q)
    × Desc new

abbrev renames_to : Option Dirent → List Dirent → Target (Unit {0})
renames_to o rest = makes (insert_some o rest) tt

named_free :
    (d : Dirent) (name : CString) (ds : List Dirent)
    → find_entry name ds ≡ none
    → find_entry (with_name d name).name ds ≡ none
named_free d name ds h = ap (λ (x : CString). find_entry x ds) (with_name_name d name) ∙ h

find_entry-moved :
    (d : Dirent) (name : CString) (ds : List Dirent) (q : CString)
    → find_entry name ds ≡ none
    → find_entry q (insert_dirent (with_name d name) ds)
      ≡ (if str_eq q name then some (with_name d name) else find_entry q ds)
find_entry-moved d name ds q h =
    find_entry-insert (with_name d name) ds q (named_free d name ds h)
    ∙ ap (λ (x : CString). put_at x (some (with_name d name)) ds q) (with_name_name d name)

module _ (E : EditEnv) (D : List Dirent → Type 0) where
  module _ {A : Type 0} (target : List Dirent → Target A) where
    do_edit-Becomes :
        (touches : Bool) (root_id parent_dir : CString) (objects : Objects)
        (entries new : List Dirent) (a : A) (view : CString → Option Dirent)
        → Works E D objects
        → (leads : Leads objects E.version root_id (names_of parent_dir) entries)
        → EachRemade E target touches objects new D entries (names_of parent_dir) root_id leads
        → target entries ≡ makes new a
        → ((q : CString) → find_entry q new ≡ view q)
        → Desc new
        → Becomes E
            (names_of parent_dir)
            a
            view
            (do_edit E target touches root_id parent_dir objects)
    unfolding do_edit
    do_edit-Becomes touches root_id parent_dir objects entries new a view works leads each h v k =
        let edit =
          edit_recursive-Edits E target touches D (names_of parent_dir) root_id objects entries new
            a h works leads each in
        (_, edit.after, new, edit.succeeds, edit.leads, v, k)

  module _ (root_id parent_dir : CString) (objects : Objects) (entries : List Dirent)
      (works : Works E D objects)
      (leads : Leads objects E.version root_id (names_of parent_dir) entries)
      (sorted : Desc entries) where
    -- Where the store works for the directories that are made anew (no two of them have one id,
    -- each is stored, and read back as it was written), and the names of the path lead from the
    -- root to a directory in strictly descending order of name, no entry is to be replaced, and
    -- there is a unique name, the post succeeds with a new root, under which the path leads to a
    -- directory, so ordered, that has the new entry under the unique name, and all others as they
    -- were.
    pub do_post_file_adds :
        (replace_existed : Bool) (dent : Dirent) (name : CString)
        → (replace_existed && filename_exists entries dent.name) ≡ false
        → generate_unique_filename dent.name entries ≡ some name
        → EachRemade E
            (post_target replace_existed dent)
            true
            objects
            (insert_dirent (with_name dent name) entries)
            D
            entries
            (names_of parent_dir)
            root_id
            leads
        → Becomes E
            (names_of parent_dir)
            tt
            (put_at name (some (with_name dent name)) entries)
            (do_post_file_replace E root_id parent_dir replace_existed dent objects)
    unfolding do_edit do_post_file_replace post_target
    do_post_file_adds replace_existed dent name absent unique each =
        let free =
          exists-find_entry name entries
            (generate_unique_filename_fresh dent.name entries unique).0 in
        let named = with_name_name dent name in
        let free' : find_entry (with_name dent name).name entries ≡ none = free in
        do_edit-Becomes (post_target replace_existed dent) true root_id parent_dir objects entries
          (insert_dirent (with_name dent name) entries) tt
          (put_at name (some (with_name dent name)) entries) works leads each
          (rw (absent, unique) refl) (λ q. find_entry-insert (with_name dent name) entries q free')
          (insert-Desc (with_name dent name) entries free' sorted)

    -- Where the store works for the directories that are made anew (no two of them have one id,
    -- each is stored, and read back as it was written), and the names of the path lead from the
    -- root to a directory in strictly descending order of name that has an entry of the name, the
    -- put succeeds with a new root, under which the path leads to a directory, so ordered, that has
    -- the new entry in its place, and all others as they were.
    pub do_put_file_replaces :
        (dent old : Dirent)
        → find_entry dent.name entries ≡ some old
        → EachRemade E
            (put_target dent)
            true
            objects
            (replace_entries dent entries)
            D
            entries
            (names_of parent_dir)
            root_id
            leads
        → Becomes E
            (names_of parent_dir)
            tt
            (put_at dent.name (some dent) entries)
            (do_put_file E root_id parent_dir dent objects)
    unfolding do_edit do_put_file put_target
    do_put_file_replaces dent old there each =
        do_edit-Becomes (put_target dent) true root_id parent_dir objects entries
          (replace_entries dent entries) tt (put_at dent.name (some dent) entries) works leads each
          refl (λ q. find_entry-replace dent entries q there) (replace-Desc dent entries sorted)

    -- Where the store works for the directories that are made anew (no two of them have one id,
    -- each is stored, and read back as it was written), and the names of the path lead from the
    -- root to a directory in strictly descending order of name that has the old name, and the new
    -- name is the old one or that of no entry, the rename succeeds with a new root, under which the
    -- path leads to a directory, so ordered, that has the entry under the new name, no longer under
    -- the old one, and all others as they were.
    pub do_rename_file_moves :
        (oldname newname : CString) (old : Dirent)
        → find_entry oldname entries ≡ some old
        → put_at oldname none entries newname ≡ none
        → EachRemade E
            (rename_target oldname newname)
            false
            objects
            (insert_dirent (with_name old newname) (others oldname entries))
            D
            entries
            (names_of parent_dir)
            root_id
            leads
        → Becomes E
            (names_of parent_dir)
            tt
            (λ q.
              if str_eq q newname
              then some (with_name old newname)
              else put_at oldname none entries q)
            (do_rename_file E root_id parent_dir oldname newname objects)
    unfolding do_edit do_rename_file rename_target
    do_rename_file_moves oldname newname old there absent each =
        let rest = others oldname entries in
        let free = find_entry-others oldname entries newname ∙ absent in
        do_edit-Becomes (rename_target oldname newname) false root_id parent_dir objects entries
          (insert_dirent (with_name old newname) rest) tt
          (λ q.
            if str_eq q newname
            then some (with_name old newname)
            else put_at oldname none entries q)
          works leads each
          (ap (λ (o : Option Dirent). renames_to o rest)
            (renamed_entry-found oldname newname entries none sorted there))
          (λ q.
            find_entry-moved old newname rest q free
            ∙ ap
                (λ (o : Option Dirent).
                  if str_eq q newname then some (with_name old newname) else o)
                (find_entry-others oldname entries q))
          (insert-Desc (with_name old newname) rest (named_free old newname rest free)
            (others-Desc oldname entries sorted))

    -- Where the store works for the directories that are made anew (no two of them have one id,
    -- each is stored, and read back as it was written), and the names of the path lead from the
    -- root to a directory in strictly descending order of name that has one of the names listed,
    -- the deletion succeeds with a new root, under which the path leads to a directory, so ordered,
    -- that has none of the names listed, and all other entries as they were; it reports what it
    -- counted on the way.
    pub do_del_file_deletes :
        (file : CString) (files : List CString) (q : CString) (old : Dirent)
        → is_listed (file ∷ files) q ≡ true
        → find_entry q entries ≡ some old
        → EachRemade E
            (del_target (file ∷ files))
            true
            objects
            (keep_others (file ∷ files) entries nothing_deleted).0
            D
            entries
            (names_of parent_dir)
            root_id
            leads
        → Becomes E
            (names_of parent_dir)
            (keep_others (file ∷ files) entries nothing_deleted).1
            (λ name. if is_listed (file ∷ files) name then none else find_entry name entries)
            (do_del_file E root_id parent_dir (file ∷ files) objects)
    unfolding do_edit do_del_file del_target
    do_del_file_deletes file files q old listed there each =
        let some_deleted =
          keep_others-counts (file ∷ files) entries nothing_deleted q listed there in
        do_edit-Becomes (del_target (file ∷ files)) true root_id parent_dir objects entries
          (keep_others (file ∷ files) entries nothing_deleted).0
          (keep_others (file ∷ files) entries nothing_deleted).1
          (λ name. if is_listed (file ∷ files) name then none else find_entry name entries) works
          leads each (ground (arith, some_deleted))
          (find_entry-keep_others (file ∷ files) entries nothing_deleted)
          (keep_others-Desc (file ∷ files) entries nothing_deleted sorted)
