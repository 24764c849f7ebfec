-- ===== src/Edit/Frame.antt =====
-- Edits of server/repo-op.c and what they do not concern: the objects stored before, the paths that
-- turn off from that of the target, and errors.
use mathlib.Core.Path.{subst}
use seafile_server.Base.{
  ℕ, ◌<◌, ◌≡◌, refl, sym, ap, ◌∙◌, ◌⊎◌, inl, inr, Bool, true, false, Option, none, some, List, [],
  ◌∷◌, CString, str_eq, if_rule, str_eq_iff, arith, All, Option-cases,
}
use seafile_server.Fs.{Dirent, SeafDir, Objects, get_seafdir, empty_sha1}
use seafile_server.Fs.Reading.{dir_write, write_new}
use seafile_server.Fs.Paths.{get_seafdir_sorted}
use seafile_server.Walk.Depth.{Keeps}
use seafile_server.Edit.{EditEnv}
use seafile_server.Edit.Walk.{
  Target, makes, same, fails, Edited, changed, unchanged, failed, find_entry, set_entry, do_edit,
  edit_recursive, save_dir, saved, new_dir, at_target, back_up, below, in_dir, touched,
}
use seafile_server.Edit.Recursions.{do_del_file}
use seafile_server.Edit.Targets.{is_listed, nothing_deleted, del_target, deleted_or_same}
use seafile_server.Edit.Paths.{Leads, Works, EachRemade, TurnsOff}
use seafile_server.Edit.Spec.{edit_recursive-Edits}
use seafile_server.Edit.Ordered.{keep_others-none}
use seafile_server.Edit.Effects.{names_of}

write_new-Keeps :
    (ok : Bool) (o : Option SeafDir) (objects : Objects) (dir : SeafDir)
    (readable : Option (List Dirent)) (id : CString) {d : SeafDir}
    → objects dir.dir_id ≡ o
    → objects id ≡ some d
    → (write_new ok o objects dir readable).1 id ≡ some d
write_new-Keeps ok (some old) objects dir readable id e h = h
write_new-Keeps false none objects dir readable id e h = h
write_new-Keeps true none objects dir none id e h = h
write_new-Keeps true none objects dir (some entries) id e h =
    ground (arith, str_eq_iff id dir.dir_id)

save-Keeps :
    (version : ℕ) (write_ok is_text : CString → Bool) (objects : Objects) (dir : SeafDir)
    → Keeps version objects (dir_write write_ok is_text objects dir).1
unfolding dir_write
save-Keeps version write_ok is_text objects dir id d h =
    if_rule (λ (x : Bool × Objects). x.1 id ≡ some d) (str_eq dir.dir_id empty_sha1) (true, objects)
      _ h (write_new-Keeps _ (objects dir.dir_id) objects dir _ id refl h)

-- The names do not lead to a directory: one of them is of no entry, or an object is missing.
abbrev pub Missing : Objects → ℕ → CString → List CString → Type 0
Missing objects version id [] = get_seafdir objects version id ≡ none
Missing objects version id (name ∷ names) =
    (get_seafdir objects version id ≡ none)
    ⊎ ((t : SeafDir) × (get_seafdir objects version id ≡ some t)
        × ((find_entry name t.entries ≡ none)
            ⊎ ((d : Dirent) × (find_entry name t.entries ≡ some d)
                × Missing objects version d.id names)))

get_seafdir_id :
    (objects : Objects) (version : ℕ) (id : CString) {t : SeafDir}
    → get_seafdir objects version id ≡ some t
    → t.dir_id ≡ id
unfolding get_seafdir
get_seafdir_id objects version id {t} h = elim (Option-cases (objects id)) [
  | inl e ↦ ground (arith, str_eq_iff id empty_sha1)
  | inr (old, e) ↦ ground (arith, str_eq_iff id empty_sha1)
]

sorted_none :
    (objects : Objects) (version : ℕ) (id : CString)
    → get_seafdir objects version id ≡ none
    → get_seafdir_sorted objects version id ≡ none
unfolding get_seafdir_sorted
sorted_none objects version id h = rw h refl

sorted_some :
    (objects : Objects) (version : ℕ) (id : CString) {t : SeafDir}
    → 0 < version
    → get_seafdir objects version id ≡ some t
    → get_seafdir_sorted objects version id ≡ some t
unfolding get_seafdir_sorted
sorted_some objects version id {t} v h = ground arith

module _ (E : EditEnv) where
  module _ {A : Type 0} (target : List Dirent → Target A) (touches : Bool) where
    saved_objects :
        (id : CString) (a : A) (r : Bool × Objects) → (saved E target touches id a r).1 ≡ r.1
    saved_objects id a (true, o) = refl
    saved_objects id a (false, o) = refl

    save_dir-Keeps :
        (entries : List Dirent) (a : A) (objects : Objects)
        → Keeps E.version objects (save_dir E target touches entries a objects).1
    unfolding save_dir
    save_dir-Keeps entries a objects id d h =
        ap (λ (o : Objects). o id)
          (saved_objects (new_dir E entries).dir_id a
            (dir_write E.write_ok E.is_text objects (new_dir E entries)))
        ∙ save-Keeps E.version E.write_ok E.is_text objects (new_dir E entries) id d h

    at_target-Keeps :
        (t : SeafDir) (x : Target A) (objects : Objects)
        → Keeps E.version objects (at_target E target touches t x objects).1
    at_target-Keeps t fails objects id d h = h
    at_target-Keeps t (same a) objects id d h = h
    at_target-Keeps t (makes es a) objects id d h = save_dir-Keeps es a objects id d h

    back_up-Keeps :
        (name : CString) (names : List CString) (t : SeafDir) (e : Dirent) (old : Objects)
        (r : Edited A × Objects)
        → Keeps E.version old r.1
        → Keeps E.version old (back_up E target touches name names t e r).1
    back_up-Keeps name names t e old (failed, objects) k id d h = k id d h
    back_up-Keeps name names t e old (unchanged i a, objects) k id d h = k id d h
    back_up-Keeps name names t e old (changed i a, objects) k id d h =
        save_dir-Keeps (set_entry name (touched E target touches (name ∷ names) i e) t.entries) a
          objects id d (k id d h)

    in_dir-Keeps :
        (next : SeafDir → Edited A × Objects) (objects : Objects) (o : Option SeafDir)
        → ((t : SeafDir) → Keeps E.version objects (next t).1)
        → Keeps E.version objects (in_dir E target touches next objects o).1
    in_dir-Keeps next objects none k id d h = h
    in_dir-Keeps next objects (some t) k id d h = k t id d h

    below-Keeps :
        (name : CString) (names : List CString) (t : SeafDir)
        (recurse : CString → Edited A × Objects) (objects : Objects) (o : Option Dirent)
        → ((i : CString) → Keeps E.version objects (recurse i).1)
        → Keeps E.version objects (below E target touches name names t recurse objects o).1
    below-Keeps name names t recurse objects none k = λ id d h. h
    below-Keeps name names t recurse objects (some e) k =
        back_up-Keeps name names t e objects (recurse e.id) (k e.id)

    edit_recursive-Keeps :
        (names : List CString) (id : CString) (objects : Objects)
        → Keeps E.version objects (edit_recursive E target touches names id objects).1
    unfolding edit_recursive
    edit_recursive-Keeps [] id objects =
        in_dir-Keeps _ objects (get_seafdir_sorted objects E.version id)
          (λ t. at_target-Keeps t (target t.entries) objects)
    edit_recursive-Keeps (name ∷ names) id objects =
        in_dir-Keeps _ objects (get_seafdir_sorted objects E.version id) (λ t.
          below-Keeps name names t _ objects (find_entry name t.entries)
            (λ i. edit_recursive-Keeps names i objects))

    abbrev NewLeads : List CString → List Dirent → Edited A × Objects → Type 0
    NewLeads qs es (failed, objects) = Unit
    NewLeads qs es (unchanged id a, objects) = Unit
    NewLeads qs es (changed id a, objects) = Leads objects E.version id qs es

    -- An error changes nothing: the path must lead to a directory.
    edit_recursive-Missing :
        (names : List CString) (id : CString) (objects : Objects)
        → 0 < E.version
        → Missing objects E.version id names
        → edit_recursive E target touches names id objects ≡ (failed, objects)
    unfolding edit_recursive
    edit_recursive-Missing [] id objects v h = rw (sorted_none objects E.version id h) refl
    edit_recursive-Missing (name ∷ names) id objects v (inl h) =
        rw (sorted_none objects E.version id h) refl
    edit_recursive-Missing (name ∷ names) id objects v (inr (t, e, inl h)) =
        rw (sorted_some objects E.version id v e, h) refl
    edit_recursive-Missing (name ∷ names) id objects v (inr (t, e, inr (d, f, h))) =
        rw (sorted_some objects E.version id v e, f, edit_recursive-Missing names d.id objects v h)
          refl

    edit_recursive_same :
        (names : List CString) (id : CString) (objects : Objects) (entries : List Dirent) (a : A)
        → 0 < E.version
        → Leads objects E.version id names entries
        → target entries ≡ same a
        → edit_recursive E target touches names id objects ≡ (unchanged id a, objects)
    unfolding edit_recursive
    edit_recursive_same [] id objects entries a v (t, e, held) h =
        rw (sorted_some objects E.version id v e, held, h, get_seafdir_id objects E.version id e)
          refl
    edit_recursive_same (name ∷ names) id objects entries a v (t, d, e, f, leads) h =
        rw
          (
            sorted_some objects E.version id v e,
            f,
            edit_recursive_same names d.id objects entries a v leads h,
            get_seafdir_id objects E.version id e,
          )
          refl

    -- Whatever an edit returns, each directory object that was stored is still stored, and is the
    -- same.
    pub do_edit_keeps :
        (root_id parent_dir : CString) (objects : Objects) (id : CString) (dir : SeafDir)
        → objects id ≡ some dir
        → (do_edit E target touches root_id parent_dir objects).1 id ≡ some dir
    unfolding do_edit
    do_edit_keeps root_id parent_dir objects id dir h =
        edit_recursive-Keeps (names_of parent_dir) root_id objects id dir h

    -- In a repository that is not of the first version, an edit whose path has a name of no
    -- entry, or goes through an object that is missing, fails and stores nothing.
    pub do_edit-Missing :
        (root_id parent_dir : CString) (objects : Objects)
        → 0 < E.version
        → Missing objects E.version root_id (names_of parent_dir)
        → do_edit E target touches root_id parent_dir objects ≡ (failed, objects)
    unfolding do_edit
    do_edit-Missing root_id parent_dir objects v h =
        edit_recursive-Missing (names_of parent_dir) root_id objects v h

    -- Where the store works for the directories that are made anew (no two of them have one id,
    -- each is stored, and read back as it was written), an edit that makes new entries for the
    -- directory at its path, and succeeds with a new root, leaves each path that turns off from
    -- that path leading to the same entries from the new root as from the old one, also where it
    -- goes through a directory of the same id.
    pub do_edit_frame :
        (root_id parent_dir : CString) (objects after : Objects) (entries new : List Dirent)
        (root : CString) (a : A) (qs : List CString) (es : List Dirent) (D : List Dirent → Type 0)
        → Works E D objects
        → (leads : Leads objects E.version root_id (names_of parent_dir) entries)
        → EachRemade E target touches objects new D entries (names_of parent_dir) root_id leads
        → target entries ≡ makes new a
        → do_edit E target touches root_id parent_dir objects ≡ (changed root a, after)
        → TurnsOff qs (names_of parent_dir)
        → Leads objects E.version root_id qs es
        → Leads after E.version root qs es
    unfolding do_edit
    do_edit_frame root_id parent_dir objects after entries new root a qs es D works leads each h run
          off old =
        let edit =
          edit_recursive-Edits E target touches D (names_of parent_dir) root_id objects entries new
            a h works leads each in
        let both : (changed _ a, edit.after) ≡ (changed root a, after) = sym edit.succeeds ∙ run in
        subst (NewLeads qs es) both (edit.frame qs es off old)

  pub do_del_file_none :
      (root_id parent_dir : CString) (objects : Objects) (entries : List Dirent) (file : CString)
      (files : List CString)
      → 0 < E.version
      → Leads objects E.version root_id (names_of parent_dir) entries
      → All (λ d. is_listed (file ∷ files) d.name ≡ false) entries
      → do_del_file E root_id parent_dir (file ∷ files) objects
        ≡ (unchanged root_id nothing_deleted, objects)
  unfolding do_del_file do_edit del_target
  do_del_file_none root_id parent_dir objects entries file files v leads absent =
      edit_recursive_same (del_target (file ∷ files)) true (names_of parent_dir) root_id objects
        entries nothing_deleted v leads
        (ap deleted_or_same (keep_others-none (file ∷ files) entries nothing_deleted absent))
