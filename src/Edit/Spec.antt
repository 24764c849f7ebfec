-- ===== src/Edit/Spec.antt =====
-- What an edit of server/repo-op.c does to a tree of directories: the target is made anew, and all
-- that does not lie on the way to it stays as it was.
use mathlib.Core.Path.{subst}
use seafile_server.Base.{
  ℕ, ◌<◌, Option, ◌≡◌, refl, sym, ap, ◌∙◌, inl, inr, Bool, true, false, some, List, [], ◌∷◌,
  CString, str_eq, str_eq_iff, str_eq_refl, arith, Option-cases, if◌then◌else◌,
}
use seafile_server.Fs.{Dirent, SeafDir, Objects, get_seafdir, dir_new, empty_sha1}
use seafile_server.Fs.Reading.{dir_write}
use seafile_server.Fs.Paths.{get_seafdir_sorted}
use seafile_server.Merge.Trees.{dir_version_from_repo_version}
use seafile_server.Walk.Depth.{Keeps}
use seafile_server.Edit.{EditEnv}
use seafile_server.Edit.Walk.{
  Target, makes, changed, find_entry, set_entry, new_dir, save_dir, saved, at_target, in_dir, below,
  back_up, touched, edit_recursive,
}
use seafile_server.Edit.Paths.{
  Leads, TurnsOff, Works, remade, EachRemade, find_entry-name, find_entry-set_entry, Leads-Keeps,
  TurnsOff-nil, frame_cons,
}

module _ (E : EditEnv) where
  get_seafdir_sorted-new :
      (objects : Objects) (id : CString)
      → 0 < E.version
      → get_seafdir_sorted objects E.version id ≡ get_seafdir objects E.version id
  unfolding get_seafdir_sorted
  get_seafdir_sorted-new objects id later = ground arith

  module _ (D : List Dirent → Type 0) where
    -- The new directory is there, and nothing else is lost.
    record Stored (entries : List Dirent) (objects objects' : Objects) : Type 0 where
      keeps : Keeps E.version objects objects'
      works : Works E D objects'
      loads :
          (t : SeafDir) × (get_seafdir objects' E.version (new_dir E entries).dir_id ≡ some t)
          × (t.entries ≡ entries)

    dir_write-Stored :
        (entries : List Dirent) (objects : Objects)
        → Works E D objects
        → D entries
        → (objects' : Objects) × (dir_write E.write_ok E.is_text objects (new_dir E entries)
            ≡ (true, objects'))
          × Stored entries objects objects'
    unfolding dir_write dir_new get_seafdir
    dir_write-Stored [] objects works in_d = (
      objects,
      ground (arith, str_eq_refl empty_sha1),
      record {
        keeps = λ id d e. e;
        works = works;
        loads = (
          record { version = E.version; dir_id = empty_sha1; entries = [] },
          ground (arith, str_eq_refl empty_sha1),
          refl,
        );
      },
    )
    dir_write-Stored (d ∷ ds) objects works in_d = elim (Option-cases (objects id)) [
      | inr (old, e) ↦ (
        objects,
        rw (plain, e) refl,
        record {
          keeps = λ i t h. h;
          works = works;
          loads = (record old { dir_id = id }, rw (plain, e) refl, works.held (d ∷ ds) old in_d e);
        },
      )
      | inl e ↦ (
        (λ i. if str_eq i id then made else objects i),
        rw (plain, e, works.takes (d ∷ ds) in_d, works.readable (d ∷ ds) in_d) refl,
        record {
          keeps = λ i t h. ground (arith, str_eq_iff i id);
          works = record {
            distinct = works.distinct;
            not_empty = works.not_empty;
            takes = works.takes;
            readable = works.readable;
            keeps_times = works.keeps_times;
            held = λ es t in_es h. ground (
              arith,
              str_eq_iff (E.checksum v es) id,
              works.distinct es (d ∷ ds) in_es in_d,
              works.held es t in_es,
            );
          };
          loads = (made_dir, ground (arith, plain, str_eq_refl id), refl);
        },
      )
    ]
      where
        v : ℕ
        v = dir_version_from_repo_version E.version

        id : CString
        id = E.checksum v (d ∷ ds)

        made_dir : SeafDir
        made_dir = record { version = v; dir_id = id; entries = d ∷ ds }

        made : Option SeafDir
        made = some made_dir

        plain : str_eq id empty_sha1 ≡ false
        plain = ground (arith, str_eq_iff id empty_sha1, works.not_empty d ds in_d)

  module _ {A : Type 0} (target : List Dirent → Target A) (touches : Bool) where
    touched-id :
        (names : List CString) (id : CString) (d : Dirent)
        → ((touched E target touches names id d).id ≡ id)
          × ((touched E target touches names id d).name ≡ d.name)
    touched-id names id d = ground arith

    save_dir-changed :
        (entries : List Dirent) (a : A) (objects objects' : Objects)
        → dir_write E.write_ok E.is_text objects (new_dir E entries) ≡ (true, objects')
        → save_dir E target touches entries a objects
          ≡ (changed (new_dir E entries).dir_id a, objects')
    unfolding save_dir
    save_dir-changed entries a objects objects' h =
        ap (saved E target touches (new_dir E entries).dir_id a) h

    at_target-makes :
        (id : CString) (objects : Objects) (t : SeafDir) (new : List Dirent) (a : A)
        → 0 < E.version
        → get_seafdir objects E.version id ≡ some t
        → target t.entries ≡ makes new a
        → edit_recursive E target touches [] id objects ≡ save_dir E target touches new a objects
    unfolding edit_recursive
    at_target-makes id objects t new a later e h =
        ap
          (in_dir E target touches
            (λ olddir. at_target E target touches olddir (target olddir.entries) objects) objects)
          (get_seafdir_sorted-new objects id later ∙ e)
        ∙ ap (λ (x : Target A). at_target E target touches t x objects) h

    edit_recursive-below :
        (name : CString) (names : List CString) (id : CString) (objects : Objects) (t : SeafDir)
        (d : Dirent)
        → 0 < E.version
        → get_seafdir objects E.version id ≡ some t
        → find_entry name t.entries ≡ some d
        → edit_recursive E target touches (name ∷ names) id objects
          ≡ back_up E target touches name names t d
              (edit_recursive E target touches names d.id objects)
    unfolding edit_recursive
    edit_recursive-below name names id objects t d later e f =
        ap
          (in_dir E target touches
            (λ olddir.
              below E target touches name names olddir
                (λ i. edit_recursive E target touches names i objects) objects
                (find_entry name olddir.entries))
            objects)
          (get_seafdir_sorted-new objects id later ∙ e)
        ∙ ap
            (below E target touches name names t
              (λ i. edit_recursive E target touches names i objects) objects)
            f

    -- The outcome of an edit: a new root, under which the names lead to the new entries, while all
    -- the paths that turn off lead to what they led to.
    pub record Edits (D : List Dirent → Type 0) (names : List CString) (id root : CString)
        (objects : Objects) (entries : List Dirent) (a : A) : Type 0 where
      pub after : Objects
      pub succeeds : edit_recursive E target touches names id objects ≡ (changed root a, after)
      pub keeps : Keeps E.version objects after
      pub works : Works E D after
      pub leads : Leads after E.version root names entries
      pub frame :
          (qs : List CString) (es : List Dirent)
          → TurnsOff qs names
          → Leads objects E.version id qs es
          → Leads after E.version root qs es

    pub edit_recursive-Edits :
        (D : List Dirent → Type 0) (names : List CString) (id : CString) (objects : Objects)
        (entries new : List Dirent) (a : A)
        → target entries ≡ makes new a
        → Works E D objects
        → (leads : Leads objects E.version id names entries)
        → EachRemade E target touches objects new D entries names id leads
        → Edits D names id
            (new_dir E (remade E target touches objects new entries names id leads)).dir_id
            objects
            new
            a
    edit_recursive-Edits D [] id objects entries new a h works (t, e, held) each =
        let (objects', saved_ok, st) = dir_write-Stored D new objects works each in
        record {
          after = objects';
          succeeds =
              at_target-makes id objects t new a works.keeps_times e (ap target held ∙ h)
              ∙ save_dir-changed new a objects objects' saved_ok;
          keeps = st.keeps;
          works = st.works;
          leads = st.loads;
          frame = λ qs es off old. absurd (TurnsOff-nil qs off);
        }
    edit_recursive-Edits D (name ∷ names) id objects entries new a h works (t, d, e, f, leads)
          (in_d, each) =
        let sub = edit_recursive-Edits D names d.id objects entries new a h works leads each in
        let root =
          (new_dir E (remade E target touches objects new entries names d.id leads)).dir_id in
        let entry = touched E target touches (name ∷ names) root d in
        let kept = touched-id (name ∷ names) root d in
        let (objects', saved_ok, st) =
          dir_write-Stored D (set_entry name entry t.entries) sub.after sub.works in_d in
        record {
          after = objects';
          succeeds =
              edit_recursive-below name names id objects t d works.keeps_times e f
              ∙ ap (back_up E target touches name names t d) sub.succeeds
              ∙ save_dir-changed (set_entry name entry t.entries) a sub.after objects' saved_ok;
          keeps = λ i x k. st.keeps i x (sub.keeps i x k);
          works = st.works;
          leads =
              let (t', e', held) = st.loads in
              (
                t',
                entry,
                e',
                ap (find_entry name) held
                    ∙ find_entry-set_entry name entry t.entries f
                        (kept.1 ∙ find_entry-name name t.entries f),
                subst (λ (i : CString). Leads objects' E.version i names new) (sym kept.0)
                    (Leads-Keeps sub.after objects' E.version root names new st.keeps sub.leads),
              );
          frame = λ qs es off old.
              let (t', e', held) = st.loads in
              frame_cons E.version objects objects' name names id
                (new_dir E (set_entry name entry t.entries)).dir_id t t' d entry e f
                (kept.1 ∙ find_entry-name name t.entries f)
                (λ i x k. st.keeps i x (sub.keeps i x k)) e' held
                (λ ps xs o l.
                  subst (λ (i : CString). Leads objects' E.version i ps xs) (sym kept.0)
                    (Leads-Keeps sub.after objects' E.version root ps xs st.keeps
                      (sub.frame ps xs o l)))
                qs es off old;
        }
