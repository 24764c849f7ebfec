-- ===== src/Diff/EmptyDirs.antt =====
-- `is_redundant_empty_dir` and `diff_resolve_empty_dirs` of common/diff-simple.c.
use mathlib.Core.Bool.{false≢true}
use seafile_server.Base.{
  sym, ◌∙◌, ℕ, ◌≡◌, ◌↔◌, ◌⊎◌, inl, inr, refl, ◌<◌, Bool, true, false, ◌&&◌, ◌||◌, List, [], ◌∷◌,
  ◌++◌, CString, ◌==◌, if◌then◌else◌, length, ltb, arith,
}
use seafile_server.Diff.{Status, added, deleted, dir_added, dir_deleted, DiffEntry}
use seafile_server.Diff.Renames.{Node, delete_link, number, entries_in}

-- `strncmp (prefix, text, strlen (prefix)) == 0`
unfoldable pub is_prefix : CString → CString → Bool
is_prefix [] text = true
is_prefix (x ∷ xs) [] = false
is_prefix (x ∷ xs) (y ∷ ys) = let rest = is_prefix xs ys in if x == y then rest else false

-- The name of the file is longer, and begins with that of the directory.
abbrev pub under : CString → CString → Bool
under dir_name file_name = ltb (length dir_name) (length file_name) && is_prefix dir_name file_name

abbrev pub opposite : Status → Status → Bool
opposite dir_added deleted = true
opposite dir_deleted added = true
opposite _ _ = false

unfoldable pub is_redundant_empty_dir : DiffEntry → DiffEntry → Bool
unfolding is_prefix
is_redundant_empty_dir de_dir de_file =
    opposite de_dir.status de_file.status && under de_dir.name de_file.name

abbrev is_empty_dir : Status → Bool
is_empty_dir dir_added = true
is_empty_dir dir_deleted = true
is_empty_dir _ = false

-- The loop that collects the directories, the last first.
unfoldable pub collect_dirs : List Node → List Node → List Node
collect_dirs [] found = found
collect_dirs (p ∷ ps) found =
    collect_dirs ps (if is_empty_dir p.entry.status then p ∷ found else found)

-- The inner loop: whether some entry makes the directory redundant.
unfoldable pub any_redundant : DiffEntry → List Node → Bool
unfolding is_redundant_empty_dir
any_redundant de_dir [] = false
any_redundant de_dir (p ∷ ps) = is_redundant_empty_dir de_dir p.entry || any_redundant de_dir ps

unfoldable pub drop_redundant : List Node → List Node → List Node
unfolding any_redundant delete_link
drop_redundant [] entries = entries
drop_redundant (dir ∷ dirs) entries =
    drop_redundant dirs
      (if any_redundant dir.entry entries then delete_link dir entries else entries)

unfoldable pub diff_resolve_empty_dirs : List DiffEntry → List DiffEntry
unfolding number entries_in collect_dirs drop_redundant
diff_resolve_empty_dirs diff_entries =
    let ps = number 0 diff_entries in entries_in (drop_redundant (collect_dirs ps []) ps)

is_prefix_split : (xs ys : CString) → is_prefix xs ys ≡ true → (zs : CString) × (ys ≡ xs ++ zs)
unfolding is_prefix
is_prefix_split [] ys h = (ys, refl)
is_prefix_split (x ∷ xs) [] h = cc
is_prefix_split (x ∷ xs) (y ∷ ys) h =
    let (zs, e) = is_prefix_split xs ys (ground arith) in (zs, ground arith)

is_prefix-append : (xs zs : CString) → is_prefix xs (xs ++ zs) ≡ true
unfolding is_prefix
is_prefix-append [] zs = refl
is_prefix-append (x ∷ xs) zs = ground (arith, is_prefix-append xs zs)

length-longer : (xs : CString) (c : ℕ) (zs : CString) → length xs < length (xs ++ c ∷ zs)
length-longer [] c zs = omega arith
length-longer (x ∷ xs) c zs = omega (arith, length-longer xs c zs)

no_longer : (xs : CString) → ltb (length xs) (length (xs ++ [])) ≡ false
no_longer [] = refl
no_longer (x ∷ xs) = ground (arith, no_longer xs)

under_split :
    (xs zs ys : CString)
    → ys ≡ xs ++ zs
    → ltb (length xs) (length ys) ≡ true
    → (c : ℕ) × (rest : CString) × (ys ≡ xs ++ c ∷ rest)
under_split xs [] ys e h = absurd (false≢true (sym (no_longer xs) ∙ rw e at h))
under_split xs (c ∷ rest) ys e h = (c, rest, e)

under-append : (xs : CString) (c : ℕ) (rest : CString) → under xs (xs ++ c ∷ rest) ≡ true
under-append xs c rest = ground (arith, is_prefix-append xs (c ∷ rest), length-longer xs c rest)

opposite_sound :
    (d f : Status)
    → opposite d f ≡ true
    → ((d ≡ dir_added) × (f ≡ deleted)) ⊎ ((d ≡ dir_deleted) × (f ≡ added))
opposite_sound dir_added deleted h = inl (refl, refl)
opposite_sound dir_deleted added h = inr (refl, refl)
opposite_sound _ _ h = cc

opposite_iff :
    (d f : Status)
    → (opposite d f ≡ true)
      ↔ (((d ≡ dir_added) × (f ≡ deleted)) ⊎ ((d ≡ dir_deleted) × (f ≡ added)))
opposite_iff d f =
    (opposite_sound d f, λ o. elim o [ inl (a, b) ↦ rw (a, b) refl | inr (a, b) ↦ rw (a, b) refl ])

-- When an empty directory is dropped for a file: the one was added and the other deleted, or the
-- other way round, and the file's path is the directory's followed by at least one character. That
-- character need not be a slash, so a sibling whose name begins with the directory's counts too.
pub is_redundant_empty_dir_iff :
    (de_dir de_file : DiffEntry)
    → (is_redundant_empty_dir de_dir de_file ≡ true) ↔ (
        (((de_dir.status ≡ dir_added) × (de_file.status ≡ deleted))
          ⊎ ((de_dir.status ≡ dir_deleted) × (de_file.status ≡ added)))
        × ((c : ℕ) × (rest : CString) × (de_file.name ≡ de_dir.name ++ c ∷ rest)))
unfolding is_redundant_empty_dir
is_redundant_empty_dir_iff de_dir de_file = (
  λ h.
      let (zs, e) = is_prefix_split de_dir.name de_file.name (ground arith) in
      (
        (opposite_iff de_dir.status de_file.status).0 (ground arith),
        under_split de_dir.name zs de_file.name e (ground arith),
      ),
  λ (o, (c, rest, e)).
      rw ((opposite_iff de_dir.status de_file.status).1 o, e) (under-append de_dir.name c rest),
)
