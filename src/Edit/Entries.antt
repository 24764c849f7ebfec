-- ===== src/Edit/Entries.antt =====
-- The entries of a directory as a map from names, and what the targets of server/repo-op.c do to
-- that map and to the order of the entries.
use seafile_server.Base.{
  ◌≡◌, refl, ap, ◌∙◌, inl, inr, true, false, Option, none, some, List, [], ◌∷◌, CString, str_eq,
  str_eq_iff, str_eq_comm, arith, Bool-cases, if◌then◌else◌,
}
use seafile_server.Fs.{Dirent, insert_dirent}
use seafile_server.Edit.Names.{filename_exists}
use seafile_server.Edit.Walk.{find_entry}
use seafile_server.Edit.Targets.{
  replace_entries, others, keep_others, Deleted, count_deleted, is_listed,
}

-- The map after a change at one name.
abbrev pub put_at : CString → Option Dirent → List Dirent → CString → Option Dirent
put_at name new entries q = if str_eq q name then new else find_entry q entries

pub exists-find_entry :
    (name : CString) (ds : List Dirent)
    → filename_exists ds name ≡ false
    → find_entry name ds ≡ none
unfolding filename_exists find_entry
exists-find_entry name [] h = refl
exists-find_entry name (d ∷ ds) h = ground (arith, exists-find_entry name ds)

pub find_entry-exists :
    (name : CString) (ds : List Dirent) {d : Dirent}
    → find_entry name ds ≡ some d
    → filename_exists ds name ≡ true
unfolding filename_exists find_entry
find_entry-exists name [] h = cc
find_entry-exists name (x ∷ ds) {d} h = ground (arith, find_entry-exists name ds {d = d})

find_entry-insert_other :
    (q : CString) (d : Dirent) (ds : List Dirent)
    → str_eq q d.name ≡ false
    → find_entry q (insert_dirent d ds) ≡ find_entry q ds
unfolding find_entry insert_dirent
find_entry-insert_other q d [] h = ground (arith, str_eq_comm q d.name)
find_entry-insert_other q d (e ∷ es) h =
    ground (arith, str_eq_comm q d.name, find_entry-insert_other q d es)

find_entry-insert_same :
    (q : CString) (d : Dirent) (ds : List Dirent)
    → str_eq q d.name ≡ true
    → find_entry q ds ≡ none
    → find_entry q (insert_dirent d ds) ≡ some d
unfolding find_entry insert_dirent
find_entry-insert_same q d [] h k = ground (arith, str_eq_comm q d.name)
find_entry-insert_same q d (e ∷ es) h k =
    ground (arith, str_eq_comm q d.name, find_entry-insert_same q d es)

pub find_entry-insert :
    (d : Dirent) (ds : List Dirent) (q : CString)
    → find_entry d.name ds ≡ none
    → find_entry q (insert_dirent d ds) ≡ put_at d.name (some d) ds q
find_entry-insert d ds q h = elim (Bool-cases (str_eq q d.name)) [
  | inl e ↦
      let eq : q ≡ d.name = (str_eq_iff q d.name).0 e in
      rw e (find_entry-insert_same q d ds e (ap (λ (x : CString). find_entry x ds) eq ∙ h))
  | inr e ↦ rw e (find_entry-insert_other q d ds e)
]

find_entry-replace_other :
    (q : CString) (d : Dirent) (ds : List Dirent)
    → str_eq q d.name ≡ false
    → find_entry q (replace_entries d ds) ≡ find_entry q ds
unfolding find_entry replace_entries
find_entry-replace_other q d [] h = refl
find_entry-replace_other q d (e ∷ es) h = ground (
  arith,
  str_eq_comm q d.name,
  str_eq_iff e.name q,
  str_eq_iff e.name d.name,
  str_eq_iff q d.name,
  find_entry-replace_other q d es,
)

find_entry-replace_same :
    (q : CString) (d : Dirent) (ds : List Dirent) {old : Dirent}
    → str_eq q d.name ≡ true
    → find_entry q ds ≡ some old
    → find_entry q (replace_entries d ds) ≡ some d
unfolding find_entry replace_entries
find_entry-replace_same q d [] {old} h k = cc
find_entry-replace_same q d (e ∷ es) {old} h k = ground (
  arith,
  str_eq_comm q d.name,
  str_eq_iff e.name q,
  str_eq_iff e.name d.name,
  str_eq_iff q d.name,
  find_entry-replace_same q d es {old = old},
)

pub find_entry-replace :
    (d : Dirent) (ds : List Dirent) (q : CString) {old : Dirent}
    → find_entry d.name ds ≡ some old
    → find_entry q (replace_entries d ds) ≡ put_at d.name (some d) ds q
find_entry-replace d ds q {old} h = elim (Bool-cases (str_eq q d.name)) [
  | inl e ↦
      let eq : q ≡ d.name = (str_eq_iff q d.name).0 e in
      rw e (
        find_entry-replace_same q d ds {old = old} e (ap (λ (x : CString). find_entry x ds) eq ∙ h))
  | inr e ↦ rw e (find_entry-replace_other q d ds e)
]

pub find_entry-others :
    (name : CString) (ds : List Dirent) (q : CString)
    → find_entry q (others name ds) ≡ put_at name none ds q
unfolding find_entry others
find_entry-others name [] q = ground arith
find_entry-others name (d ∷ ds) q = ground (
  arith,
  str_eq_iff d.name q,
  str_eq_iff d.name name,
  str_eq_iff q name,
  find_entry-others name ds q,
)

-- The entries that a deletion leaves.
pub find_entry-keep_others :
    (files : List CString) (ds : List Dirent) (del : Deleted) (q : CString)
    → find_entry q (keep_others files ds del).0
      ≡ (if is_listed files q then none else find_entry q ds)
unfolding find_entry keep_others
find_entry-keep_others files [] del q = ground arith
find_entry-keep_others files (d ∷ ds) del q = elim (Bool-cases (str_eq d.name q)) [
  | inl e ↦
      let eq : d.name ≡ q = (str_eq_iff d.name q).0 e in
      let le : is_listed files d.name ≡ is_listed files q = ap (is_listed files) eq in
      ground (
        arith,
        find_entry-keep_others files ds (count_deleted del d) q,
        find_entry-keep_others files ds del q,
      )
  | inr e ↦ ground (
    arith,
    find_entry-keep_others files ds (count_deleted del d) q,
    find_entry-keep_others files ds del q,
  )
]
