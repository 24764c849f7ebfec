-- ===== src/Edit/Ordered.antt =====
-- The targets of server/repo-op.c on entries in strictly descending order of name.
use seafile_server.Base.{
  suc, ◌≤◌, ◌≡◌, refl, ap, ◌∙◌, inl, inr, true, false, Option, none, some, List, [], ◌∷◌, CString,
  str_eq, str_eq_iff, str_lt, str_lt-ne, str_cases, arith, All, Bool-cases,
}
use mathlib.Core.Path.{subst}
use seafile_server.Fs.{Dirent, insert_dirent}
use seafile_server.Fs.Sorted.{Below, Desc, Below-trans, insert-All}
use seafile_server.Edit.Walk.{find_entry}
use seafile_server.Edit.Targets.{
  dirent_new, replace_entries, with_name, others, renamed_entry, keep_others, Deleted,
  count_deleted, is_listed,
}

pub with_name_name : (d : Dirent) (name : CString) → (with_name d name).name ≡ name
unfolding dirent_new
with_name_name d name = refl

Below-find_entry : (m : CString) (ds : List Dirent) → Below m ds → find_entry m ds ≡ none
unfolding find_entry
Below-find_entry m [] h = refl
Below-find_entry m (d ∷ ds) (h, hs) = ground (arith, str_lt-ne d.name m h, Below-find_entry m ds hs)

not_above : (a b : CString) → str_lt a b ≡ false → str_eq b a ≡ false → str_lt b a ≡ true
not_above a b h k = ground (arith, str_cases a b, str_eq_iff b a)

pub insert-Desc :
    (d : Dirent) (ds : List Dirent)
    → find_entry d.name ds ≡ none
    → Desc ds
    → Desc (insert_dirent d ds)
unfolding insert_dirent find_entry
insert-Desc d [] h k = (tt, tt)
insert-Desc d (e ∷ es) h (k, ks) = elim (Bool-cases (str_eq e.name d.name)) [
  | inl eq ↦ ground arith
  | inr ne ↦
      let rest : find_entry d.name es ≡ none = ground arith in
      elim (Bool-cases (str_lt d.name e.name)) [
        | inl lt ↦ rw lt (insert-All _ d es lt k, insert-Desc d es rest ks)
        | inr ge ↦
            let gt = not_above d.name e.name ge ne in
            rw ge ((gt, Below-trans e.name d.name es gt k), (k, ks))
      ]
]

replace-Below :
    (m : CString) (d : Dirent) (ds : List Dirent) → Below m ds → Below m (replace_entries d ds)
unfolding replace_entries
replace-Below m d [] h = tt
replace-Below m d (e ∷ es) (h, hs) =
    (ground (arith, str_eq_iff e.name d.name), replace-Below m d es hs)

pub replace-Desc : (d : Dirent) (ds : List Dirent) → Desc ds → Desc (replace_entries d ds)
unfolding replace_entries
replace-Desc d [] h = tt
replace-Desc d (e ∷ es) (h, hs) = elim (Bool-cases (str_eq e.name d.name)) [
  | inl eq ↦
      let same_name : e.name ≡ d.name = (str_eq_iff e.name d.name).0 eq in
      rw eq (
        replace-Below d.name d es (subst (λ (x : CString). Below x es) same_name h),
        replace-Desc d es hs,
      )
  | inr ne ↦ rw ne (replace-Below e.name d es h, replace-Desc d es hs)
]

others-Below : (m name : CString) (ds : List Dirent) → Below m ds → Below m (others name ds)
unfolding others
others-Below m name [] h = tt
others-Below m name (d ∷ ds) (h, hs) = elim (Bool-cases (str_eq d.name name)) [
  | inl e ↦ rw e (others-Below m name ds hs)
  | inr e ↦ rw e (h, others-Below m name ds hs)
]

pub others-Desc : (name : CString) (ds : List Dirent) → Desc ds → Desc (others name ds)
unfolding others
others-Desc name [] h = tt
others-Desc name (d ∷ ds) (h, hs) = elim (Bool-cases (str_eq d.name name)) [
  | inl e ↦ rw e (others-Desc name ds hs)
  | inr e ↦ rw e (others-Below d.name name ds h, others-Desc name ds hs)
]

keep_others-Below :
    (m : CString) (files : List CString) (ds : List Dirent) (del : Deleted)
    → Below m ds
    → Below m (keep_others files ds del).0
unfolding keep_others
keep_others-Below m files [] del h = tt
keep_others-Below m files (d ∷ ds) del (h, hs) = elim (Bool-cases (is_listed files d.name)) [
  | inl e ↦ rw e (keep_others-Below m files ds (count_deleted del d) hs)
  | inr e ↦ rw e (h, keep_others-Below m files ds del hs)
]

pub keep_others-Desc :
    (files : List CString) (ds : List Dirent) (del : Deleted)
    → Desc ds
    → Desc (keep_others files ds del).0
unfolding keep_others
keep_others-Desc files [] del h = tt
keep_others-Desc files (d ∷ ds) del (h, hs) = elim (Bool-cases (is_listed files d.name)) [
  | inl e ↦ rw e (keep_others-Desc files ds (count_deleted del d) hs)
  | inr e ↦ rw e (keep_others-Below d.name files ds del h, keep_others-Desc files ds del hs)
]

renamed_entry-absent :
    (oldname newname : CString) (ds : List Dirent) (r : Option Dirent)
    → find_entry oldname ds ≡ none
    → renamed_entry oldname newname ds r ≡ r
unfolding renamed_entry find_entry
renamed_entry-absent oldname newname [] r h = refl
renamed_entry-absent oldname newname (d ∷ ds) r h =
    ground (arith, renamed_entry-absent oldname newname ds r)

-- Names being unique, the entry that is renamed is the one with the name.
pub renamed_entry-found :
    (oldname newname : CString) (ds : List Dirent) (r : Option Dirent) {d : Dirent}
    → Desc ds
    → find_entry oldname ds ≡ some d
    → renamed_entry oldname newname ds r ≡ some (with_name d newname)
unfolding renamed_entry find_entry
renamed_entry-found oldname newname [] r {d} k h = cc
renamed_entry-found oldname newname (x ∷ ds) r {d} (k, ks) h =
    elim (Bool-cases (str_eq x.name oldname)) [
      | inl e ↦
          let eq : x.name ≡ oldname = (str_eq_iff x.name oldname).0 e in
          let none_left : find_entry oldname ds ≡ none =
            Below-find_entry oldname ds (subst (λ (y : CString). Below y ds) eq k) in
          let one : x ≡ d = ground arith in
          rw e (
            renamed_entry-absent oldname newname ds (some (with_name x newname)) none_left
            ∙ ap (λ (y : Dirent). some (with_name y newname)) one)
      | inr e ↦
          let there : find_entry oldname ds ≡ some d = ground arith in
          rw e (renamed_entry-found oldname newname ds r ks there)
    ]

count-le :
    (files : List CString) (ds : List Dirent) (del : Deleted)
    → del.deleted_num ≤ (keep_others files ds del).1.deleted_num
unfolding keep_others
count-le files [] del = omega arith
count-le files (d ∷ ds) del =
    ground (arith, count-le files ds del, count-le files ds (count_deleted del d))

pub keep_others-counts :
    (files : List CString) (ds : List Dirent) (del : Deleted) (q : CString) {d : Dirent}
    → is_listed files q ≡ true
    → find_entry q ds ≡ some d
    → suc del.deleted_num ≤ (keep_others files ds del).1.deleted_num
unfolding keep_others find_entry
keep_others-counts files [] del q {d} l h = cc
keep_others-counts files (x ∷ ds) del q {d} l h = elim (Bool-cases (str_eq x.name q)) [
  | inl e ↦
      let eq : x.name ≡ q = (str_eq_iff x.name q).0 e in
      let le : is_listed files x.name ≡ true = ap (is_listed files) eq ∙ l in
      rw le (count-le files ds (count_deleted del x))
  | inr e ↦
      let there : find_entry q ds ≡ some d = ground arith in
      ground (
        arith,
        keep_others-counts files ds del q {d = d} l there,
        keep_others-counts files ds (count_deleted del x) q {d = d} l there,
      )
]

-- Where nothing listed is there, nothing is deleted.
pub keep_others-none :
    (files : List CString) (ds : List Dirent) (del : Deleted)
    → All (λ d. is_listed files d.name ≡ false) ds
    → keep_others files ds del ≡ (ds, del)
unfolding keep_others
keep_others-none files [] del h = refl
keep_others-none files (x ∷ ds) del (h, hs) = rw (h, keep_others-none files ds del hs) refl
