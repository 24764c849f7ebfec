-- ===== src/Edit/Paths.antt =====
-- Where the names of a path lead in a tree of directories, when a path turns off from another, and
-- what an edit of server/repo-op.c needs of the store.
use mathlib.Core.Path.{subst}
use seafile_server.Base.{
  ℕ, ◌<◌, ◌≡◌, ◌≢◌, refl, sym, ap, ◌∙◌, ◌⊎◌, inl, inr, Bool, true, some, List, [], ◌∷◌, CString,
  str_eq_iff, arith,
}
use seafile_server.Fs.{Dirent, SeafDir, Objects, get_seafdir, empty_sha1}
use seafile_server.Walk.Depth.{Keeps, get_seafdir-Keeps}
use seafile_server.Edit.{EditEnv}
use seafile_server.Edit.Walk.{Target, find_entry, set_entry, new_dir, touched}
use seafile_server.Fs.Reading.{read_back}
use seafile_server.Merge.Trees.{dir_version_from_repo_version}

-- The names lead from the directory of an id to a directory with these entries.
abbrev pub Leads : Objects → ℕ → CString → List CString → List Dirent → Type 0
Leads objects version id [] entries =
    (t : SeafDir) × (get_seafdir objects version id ≡ some t) × (t.entries ≡ entries)
Leads objects version id (name ∷ names) entries =
    (t : SeafDir) × (d : Dirent) × (get_seafdir objects version id ≡ some t)
    × (find_entry name t.entries ≡ some d)
    × Leads objects version d.id names entries

-- The one path turns off from the other, by another name in some directory of it.
abbrev pub TurnsOff : List CString → List CString → Type 0
TurnsOff [] names = ⊥
TurnsOff (q ∷ qs) [] = ⊥
TurnsOff (q ∷ qs) (name ∷ names) = (q ≢ name) ⊎ ((q ≡ name) × TurnsOff qs names)

-- The store works for the directories D, at the version that the repository gives its directories:
-- no two of them have one id, what is stored under the id of one is that one, and none has the id
-- of the empty directory; the store takes each, each is read back as it was written, and the
-- repository is not of the first version.
pub record Works (E : EditEnv) (D : List Dirent → Type 0) (objects : Objects) : Type 0 where
  pub distinct :
      (a b : List Dirent)
      → D a
      → D b
      → E.checksum (dir_version_from_repo_version E.version) a
        ≡ E.checksum (dir_version_from_repo_version E.version) b
      → a ≡ b
  pub held :
      (a : List Dirent) (t : SeafDir)
      → D a
      → objects (E.checksum (dir_version_from_repo_version E.version) a) ≡ some t
      → t.entries ≡ a
  pub not_empty :
      (d : Dirent) (ds : List Dirent)
      → D (d ∷ ds)
      → E.checksum (dir_version_from_repo_version E.version) (d ∷ ds) ≢ empty_sha1
  pub takes :
      (a : List Dirent)
      → D a
      → E.write_ok (E.checksum (dir_version_from_repo_version E.version) a) ≡ true
  pub readable :
      (a : List Dirent)
      → D a
      → read_back E.is_text (dir_version_from_repo_version E.version) a ≡ some a
  pub keeps_times : 0 < E.version

module _ (E : EditEnv) {A : Type 0} (target : List Dirent → Target A) (touches : Bool)
    (objects : Objects) (new : List Dirent) where
  -- The entries of the directory that is made at the beginning of a path, when the new ones are made
  -- at its end: with the entry on the way set to the directory below.
  abbrev pub remade :
      (entries : List Dirent) (names : List CString) (id : CString)
      → Leads objects E.version id names entries
      → List Dirent
  remade entries [] id leads = new
  remade entries (name ∷ names) id (t, d, e, f, leads) =
      set_entry name
        (touched E target touches (name ∷ names)
          (new_dir E (remade entries names d.id leads)).dir_id d)
        t.entries

  -- D holds of each directory that is made on the way.
  abbrev pub EachRemade :
      (D : List Dirent → Type 0) (entries : List Dirent) (names : List CString) (id : CString)
      → Leads objects E.version id names entries
      → Type 0
  EachRemade D entries [] id leads = D new
  EachRemade D entries (name ∷ names) id (t, d, e, f, leads) =
      D (remade entries (name ∷ names) id (t, d, e, f, leads))
      × EachRemade D entries names d.id leads

pub find_entry-name :
    (name : CString) (ds : List Dirent) {d : Dirent} → find_entry name ds ≡ some d → d.name ≡ name
unfolding find_entry
find_entry-name name [] h = cc
find_entry-name name (x ∷ ds) {d} h =
    ground (arith, str_eq_iff x.name name, find_entry-name name ds {d = d})

pub find_entry-set_entry :
    (name : CString) (new : Dirent) (ds : List Dirent) {d : Dirent}
    → find_entry name ds ≡ some d
    → new.name ≡ name
    → find_entry name (set_entry name new ds) ≡ some new
unfolding find_entry set_entry
find_entry-set_entry name new [] h e = cc
find_entry-set_entry name new (x ∷ ds) {d} h e =
    ground (arith, str_eq_iff new.name name, find_entry-set_entry name new ds {d = d})

find_entry-set_other :
    (q name : CString) (new : Dirent) (ds : List Dirent)
    → q ≢ name
    → new.name ≡ name
    → find_entry q (set_entry name new ds) ≡ find_entry q ds
unfolding find_entry set_entry
find_entry-set_other q name new [] ne e = refl
find_entry-set_other q name new (x ∷ ds) ne e = ground (
  arith,
  str_eq_iff x.name name,
  str_eq_iff x.name q,
  str_eq_iff new.name q,
  find_entry-set_other q name new ds,
)

pub Leads-Keeps :
    (o o' : Objects) (version : ℕ) (id : CString) (names : List CString) (entries : List Dirent)
    → Keeps version o o'
    → Leads o version id names entries
    → Leads o' version id names entries
Leads-Keeps o o' version id [] entries k (t, e, h) = (t, get_seafdir-Keeps version o o' id k e, h)
Leads-Keeps o o' version id (name ∷ names) entries k (t, d, e, f, h) = (
  t,
  d,
  get_seafdir-Keeps version o o' id k e,
  f,
  Leads-Keeps o o' version d.id names entries k h,
)

pub TurnsOff-nil : (qs : List CString) → ¬ TurnsOff qs []
TurnsOff-nil [] off = off
TurnsOff-nil (q ∷ qs) off = off

-- The frame of one directory, from that of the directory below.
pub frame_cons :
    (version : ℕ) (objects after : Objects) (name : CString) (names : List CString)
    (id root : CString) (t new : SeafDir) (d entry : Dirent)
    → get_seafdir objects version id ≡ some t
    → find_entry name t.entries ≡ some d
    → entry.name ≡ name
    → Keeps version objects after
    → get_seafdir after version root ≡ some new
    → new.entries ≡ set_entry name entry t.entries
    → ((qs : List CString) (es : List Dirent)
        → TurnsOff qs names
        → Leads objects version d.id qs es
        → Leads after version entry.id qs es)
    → (qs : List CString) (es : List Dirent) → TurnsOff qs (name ∷ names)
    → Leads objects version id qs es
    → Leads after version root qs es
frame_cons version objects after name names id root t new d entry e f nm k e' held sub [] es off
      old =
    absurd off
frame_cons version objects after name names id root t new d entry e f nm k e' held sub (q ∷ qs) es
      (inl ne) (t2, d2, e2, f2, old) =
    let one : t ≡ t2 = cc in
    (
      new,
      d2,
      e',
      ap (find_entry q) held
          ∙ find_entry-set_other q name entry t.entries ne nm
          ∙ ap (λ (x : SeafDir). find_entry q x.entries) one
          ∙ f2,
      Leads-Keeps objects after version d2.id qs es k old,
    )
frame_cons version objects after name names id root t new d entry e f nm k e' held sub (q ∷ qs) es
      (inr (eq, off)) (t2, d2, e2, f2, old) =
    let one : t2 ≡ t = cc in
    let there : find_entry name t.entries ≡ some d2 =
      ap (λ (x : CString). find_entry x t.entries) (sym eq)
      ∙ ap (λ (x : SeafDir). find_entry q x.entries) (sym one)
      ∙ f2 in
    let dent : d2 ≡ d = cc in
    (
      new,
      entry,
      e',
      ap (find_entry q) held
          ∙ ap (λ (x : CString). find_entry x (set_entry name entry t.entries)) eq
          ∙ find_entry-set_entry name entry t.entries f nm,
      sub qs es off (subst (λ (x : Dirent). Leads objects version x.id qs es) dent old),
    )
