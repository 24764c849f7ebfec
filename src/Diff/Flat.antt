-- ===== src/Diff/Flat.antt =====
-- The two-way diff of common/diff-simple.c on directories of files: for each path, what it reports.
use mathlib.Core.List.{append-nil}
use seafile_server.Base.{
  ℕ, zero, suc, ◌+◌, ◌≤◌, ◌≡◌, refl, ◌∙◌, Bool, true, Option, none, some, List, [], ◌∷◌, ◌++◌,
  CString, str_eq, str_eq_iff, str_eq_comm, str_lt-ne, arith, length, All, if◌then◌else◌,
}
use seafile_server.Fs.{Dirent, SeafDir, Objects, is_reg, is_reg-is_dir, get_seafdir}
use seafile_server.Fs.Sorted.{Desc, Below, Below-trans}
use seafile_server.Walk.{Three, three, first_name}
use seafile_server.Walk.Names.{hit, miss, Under, Rounds, done, first, second, both, Rounds-of}
use seafile_server.Diff.{
  DiffEnv, DiffEntry, Status, added, deleted, modified, diff_entry_new_from_dirent, Rc, success,
  dirent_same,
}
use seafile_server.Diff.Trees.{diff_name, diff_loop, diff_trees_recursive, diff_trees}
use seafile_server.Diff.Callbacks.{twoway_files, two_way}
use seafile_server.Diff.Same.{diff_loop-round, roots_2}

-- The entry of a name.
abbrev pub lookup : CString → List Dirent → Option Dirent
lookup m [] = none
lookup m (d ∷ ds) = let rest = lookup m ds in if str_eq m d.name then some d else rest

-- The results for a path.
abbrev pub at_path : CString → List DiffEntry → List DiffEntry
at_path path [] = []
at_path path (e ∷ es) = let rest = at_path path es in if str_eq path e.name then e ∷ rest else rest

-- What a diff has to say of one name.
abbrev pub expected : CString → Option Dirent → Option Dirent → List DiffEntry
expected basedir none none = []
expected basedir none (some e) = diff_entry_new_from_dirent added e basedir ∷ []
expected basedir (some d) none = diff_entry_new_from_dirent deleted d basedir ∷ []
expected basedir (some d) (some e) =
    if dirent_same d e
    then []
    else record (diff_entry_new_from_dirent modified e basedir) { origin_size = d.size } ∷ []

str_eq-append : (a b c : CString) → str_eq (a ++ b) (a ++ c) ≡ str_eq b c
unfolding str_eq
str_eq-append [] b c = refl
str_eq-append (x ∷ a) b c = ground (arith, str_eq-append a b c)

lookup-Below : (m : CString) (l : List Dirent) → Below m l → lookup m l ≡ none
lookup-Below m [] h = refl
lookup-Below m (d ∷ ds) (h, hs) =
    ground (arith, lookup-Below m ds hs, str_lt-ne d.name m h, str_eq_comm d.name m)

lookup-absent :
    (m n : CString) (l : List Dirent) → Below n l → str_eq m n ≡ true → lookup m l ≡ none
lookup-absent m n l h e = lookup-Below m l (rw ((str_eq_iff m n).0 e) h)

at_path-cons :
    (basedir m n : CString) (e : DiffEntry) (es : List DiffEntry)
    → e.name ≡ basedir ++ n
    → at_path (basedir ++ m) (e ∷ es)
      ≡ (if str_eq m n then e ∷ at_path (basedir ++ m) es else at_path (basedir ++ m) es)
at_path-cons basedir m n e es q = rw (q, str_eq-append)

Under-Below : (m : CString) (l : List Dirent) → Under m l → Desc l → Below m l
Under-Below m [] h k = tt
Under-Below m (d ∷ ds) h (k, ks) = (h, Below-trans d.name m ds h k)

abbrev pub AllFiles : List Dirent → Type 0
AllFiles = All (λ d. is_reg d.mode ≡ true)

name-diff_entry :
    (s : Status) (d : Dirent) (b : CString) → (diff_entry_new_from_dirent s d b).name ≡ b ++ d.name
unfolding diff_entry_new_from_dirent
name-diff_entry s d b = refl

module _ (objects : Objects) (version : ℕ) (fold : Bool) where
  abbrev D : DiffEnv
  D = two_way objects version fold

  module _ (recurse : Three (Option SeafDir) → CString → List DiffEntry → Rc × List DiffEntry)
      (basedir : CString) where
    only_first :
        (d : Dirent) (acc : List DiffEntry)
        → is_reg d.mode ≡ true
        → diff_name D recurse basedir (three (some d) none none) acc
          ≡ (success, diff_entry_new_from_dirent deleted d basedir ∷ acc)
    unfolding diff_name twoway_files
    only_first d acc h = ground (arith, is_reg-is_dir d.mode)

    only_second :
        (e : Dirent) (acc : List DiffEntry)
        → is_reg e.mode ≡ true
        → diff_name D recurse basedir (three none (some e) none) acc
          ≡ (success, diff_entry_new_from_dirent added e basedir ∷ acc)
    unfolding diff_name twoway_files
    only_second d acc h = ground (arith, is_reg-is_dir d.mode)

    in_both :
        (d e : Dirent) (acc : List DiffEntry)
        → is_reg d.mode ≡ true
        → is_reg e.mode ≡ true
        → diff_name D recurse basedir (three (some d) (some e) none) acc
          ≡ (success, expected basedir (some d) (some e) ++ acc)
    unfolding diff_name twoway_files
    in_both d e acc h k = ground (arith, is_reg-is_dir d.mode, is_reg-is_dir e.mode)

    abbrev Reports : List Dirent → List Dirent → List DiffEntry → List DiffEntry → Type 0
    Reports x y acc res =
        (m : CString)
        → at_path (basedir ++ m) res
          ≡ expected basedir (lookup m x) (lookup m y) ++ at_path (basedir ++ m) acc

    loop-Reports :
        {x y : List Dirent}
        → Rounds x y
        → (left : ℕ) (acc : List DiffEntry) → length x + length y ≤ left
        → AllFiles x
        → AllFiles y
        → Desc x
        → Desc y
        → (res : List DiffEntry) × (diff_loop D recurse left basedir (three x y []) acc
            ≡ (success, res))
          × Reports x y acc res
    unfolding diff_loop first_name
    loop-Reports done zero acc le fx fy dx dy = (acc, refl, λ m. refl)
    loop-Reports done (suc left) acc le fx fy dx dy = (acc, refl, λ m. refl)
    loop-Reports (first d u w) zero acc le fx fy dx dy = absurd (omega arith)
    loop-Reports (first {ds} {ys} d u w) (suc left) acc le fx fy dx dy =
        let e = diff_entry_new_from_dirent deleted d basedir in
        let (res, ends, rep) = loop-Reports w left (e ∷ acc) (omega arith) fx.1 fy dx.1 dy in
        (
          res,
          diff_loop-round D recurse basedir left d.name acc (e ∷ acc) (hit refl) (miss u) (miss tt)
                refl (only_first d acc fx.0)
              ∙ ends,
          λ m.
              rep m
              ∙ ground (
                arith,
                at_path-cons basedir m d.name e acc (name-diff_entry deleted d basedir),
                lookup-absent m d.name ds dx.0,
                lookup-absent m d.name ys (Under-Below d.name ys u dy),
              ),
        )
    loop-Reports (second e u w) zero acc le fx fy dx dy = absurd (omega arith)
    loop-Reports (second {xs} {es} d u w) (suc left) acc le fx fy dx dy =
        let e = diff_entry_new_from_dirent added d basedir in
        let (res, ends, rep) = loop-Reports w left (e ∷ acc) (omega arith) fx fy.1 dx dy.1 in
        (
          res,
          diff_loop-round D recurse basedir left d.name acc (e ∷ acc) (miss u) (hit refl) (miss tt)
                refl (only_second d acc fy.0)
              ∙ ends,
          λ m.
              rep m
              ∙ ground (
                arith,
                at_path-cons basedir m d.name e acc (name-diff_entry added d basedir),
                lookup-absent m d.name es dy.0,
                lookup-absent m d.name xs (Under-Below d.name xs u dx),
              ),
        )
    loop-Reports (both d e q w) zero acc le fx fy dx dy = absurd (omega arith)
    loop-Reports (both {ds} {es} d e q w) (suc left) acc le fx fy dx dy =
        let new : List DiffEntry = expected basedir (some d) (some e) ++ acc in
        let (res, ends, rep) = loop-Reports w left new (omega arith) fx.1 fy.1 dx.1 dy.1 in
        (
          res,
          diff_loop-round D recurse basedir left e.name acc new (hit q) (hit refl) (miss tt) refl
                (in_both d e acc fx.0 fy.0)
              ∙ ends,
          λ m.
              rep m
              ∙ ground (
                arith,
                at_path-cons basedir m e.name
                    (record (diff_entry_new_from_dirent modified e basedir) {
                      origin_size = d.size;
                    })
                    acc (name-diff_entry modified e basedir),
                lookup-absent m d.name ds dx.0,
                lookup-absent m e.name es dy.0,
              ),
        )

-- A two-way diff of directories that hold files alone, in descending order of name: it succeeds,
-- and for each path its results are the one entry that the two directories call for there (added,
-- deleted or modified, with the old size), or none where the path is in neither or unchanged.
pub diff_trees-files :
    (objects : Objects) (version : ℕ) (fold : Bool) (depth : ℕ) (root1 root2 r2 : CString)
    {t1 t2 : SeafDir}
    → get_seafdir objects version root1 ≡ some t1
    → get_seafdir objects version root2 ≡ some t2
    → AllFiles t1.entries
    → AllFiles t2.entries
    → Desc t1.entries
    → Desc t2.entries
    → (results : List DiffEntry) × (diff_trees
          (two_way objects version fold)
          (suc depth)
          (three root1 root2 r2)
          []
        ≡ (success, results))
      × ((m : CString)
          → at_path m results ≡ expected [] (lookup m t1.entries) (lookup m t2.entries))
unfolding diff_trees_recursive
diff_trees-files objects version fold depth root1 root2 r2 {t1} {t2} e1 e2 f1 f2 d1 d2 =
    let env = two_way objects version fold in
    let (res, ends, rep) =
      loop-Reports objects version fold (diff_trees_recursive env depth) []
        (Rounds-of t1.entries t2.entries) (length t1.entries + length t2.entries + 0) []
        (omega arith) f1 f2 d1 d2 in
    (res, roots_2 env (suc depth) root1 root2 r2 [] refl e1 e2 ∙ ends, λ m. rep m ∙ append-nil _)
