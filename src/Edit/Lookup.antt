-- ===== src/Edit/Lookup.antt =====
-- Lookup by path, `seaf_fs_manager_get_seafdir_by_path` of common/fs-mgr.c, against the names that
-- the edits of server/repo-op.c go down.
use seafile_server.Base.{
  ℕ, ◌≡◌, ◌≢◌, refl, sym, ap, ◌∙◌, true, false, some, List, [], ◌∷◌, ◌++◌, CString, arith, All,
  ◌==◌,
}
use seafile_server.Fs.{Dirent, SeafDir, Objects, get_seafdir, is_dir}
use seafile_server.Fs.Paths.{
  tokens_from, tokens, find_dir, walk_down, get_seafdir_by_path, found_dir, add_part, enter,
}
use seafile_server.Edit.Walk.{find_entry, components, drop_slash, add_char}

-- The path of some names: each after a slash.
abbrev pub path_of : List CString → CString
path_of [] = []
path_of (name ∷ names) = b'/' ∷ (name ++ path_of names)

abbrev pub NoSlash : CString → Type 0
NoSlash name = All (λ c. (c == b'/') ≡ false) name

-- The name of a directory entry.
abbrev pub IsName : CString → Type 0
IsName name = (name ≢ []) × NoSlash name

-- The names lead through directories to one.
abbrev pub LeadsTo : Objects → ℕ → CString → List CString → SeafDir → Type 0
LeadsTo objects version id [] t = get_seafdir objects version id ≡ some t
LeadsTo objects version id (name ∷ names) t =
    (u : SeafDir) × (d : Dirent) × (get_seafdir objects version id ≡ some u)
    × (find_entry name u.entries ≡ some d)
    × (is_dir d.mode ≡ true)
    × LeadsTo objects version d.id names t

append_assoc : (a b c : CString) → (a ++ b) ++ c ≡ a ++ (b ++ c)
append_assoc [] b c = refl
append_assoc (x ∷ a) b c = ap (λ (s : CString). x ∷ s) (append_assoc a b c)

append_nil : (a : CString) → a ++ [] ≡ a
append_nil [] = refl
append_nil (x ∷ a) = ap (λ (s : CString). x ∷ s) (append_nil a)

tokens_from-name :
    (part name path : CString)
    → NoSlash name
    → tokens_from part (name ++ path) ≡ tokens_from (part ++ name) path
unfolding tokens_from
tokens_from-name part [] path h = ap (λ (p : CString). tokens_from p path) (sym (append_nil part))
tokens_from-name part (c ∷ name) path (h, hs) = rw h (
    tokens_from-name (part ++ c ∷ []) name path hs
    ∙ ap (λ (p : CString). tokens_from p path) (append_assoc part (c ∷ []) name))

add_part-name :
    (name : CString) (names : List CString) → name ≢ [] → add_part name names ≡ name ∷ names
add_part-name [] names h = absurd (h refl)
add_part-name (c ∷ name) names h = refl

tokens_from-path_of :
    (part : CString) (names : List CString)
    → All IsName names
    → tokens_from part (path_of names) ≡ add_part part names
unfolding tokens_from
tokens_from-path_of part [] h = refl
tokens_from-path_of part (name ∷ names) ((ne, plain), hs) = ap (add_part part) (
    tokens_from-name [] name (path_of names) plain
    ∙ tokens_from-path_of name names hs
    ∙ add_part-name name names ne)

tokens-path_of : (names : List CString) → All IsName names → tokens (path_of names) ≡ names
unfolding tokens
tokens-path_of names h = tokens_from-path_of [] names h

find_dir-find_entry :
    (name : CString) (ds : List Dirent) {d : Dirent}
    → find_entry name ds ≡ some d
    → is_dir d.mode ≡ true
    → find_dir name ds ≡ some d
unfolding find_dir find_entry
find_dir-find_entry name [] h k = cc
find_dir-find_entry name (x ∷ ds) {d} h k = ground (arith, find_dir-find_entry name ds {d = d})

walk_down-LeadsTo :
    (objects : Objects) (version : ℕ) (id : CString) (names : List CString) (t : SeafDir)
    → LeadsTo objects version id names t
    → walk_down objects version names (get_seafdir objects version id) ≡ found_dir t
unfolding walk_down
walk_down-LeadsTo objects version id [] t h = ap (walk_down objects version []) h
walk_down-LeadsTo objects version id (name ∷ names) t (u, d, e, f, k, rest) =
    ap (walk_down objects version (name ∷ names)) e
    ∙ ap (enter objects version (λ dent next. walk_down objects version names next))
        (find_dir-find_entry name u.entries f k)
    ∙ walk_down-LeadsTo objects version d.id names t rest

components-before :
    (name path : CString) (rest : List CString)
    → NoSlash name
    → components path ≡ [] ∷ rest
    → components (name ++ path) ≡ name ∷ rest
unfolding components
components-before [] path rest h e = e
components-before (c ∷ name) path rest (h, hs) e =
    rw h (ap (add_char c) (components-before name path rest hs e))

components-last : (name : CString) → IsName name → components (name ++ []) ≡ name ∷ []
unfolding components
components-last [] (ne, h) = absurd (ne refl)
components-last (c ∷ []) (ne, (h, hs)) = rw h refl
components-last (c ∷ d ∷ name) (ne, (h, hs)) =
    let rest = components-last (d ∷ name) ((λ e. cc), hs) in rw h (ap (add_char c) rest)

components-path_of :
    (name : CString) (names : List CString)
    → All IsName (name ∷ names)
    → components (name ++ path_of names) ≡ name ∷ names
unfolding components
components-path_of name [] (h, hs) = components-last name h
components-path_of name (next ∷ names) (h, hs) =
    components-before name (path_of (next ∷ names)) (next ∷ names) h.1
      (ap (λ (ns : List CString). [] ∷ ns) (components-path_of next names hs))

drop_slash-path_of :
    (names : List CString) → All IsName names → components (drop_slash (path_of names)) ≡ names
unfolding components
drop_slash-path_of [] h = refl
drop_slash-path_of (name ∷ names) h = components-path_of name names h

-- For names that are not empty and have no slash, which lead from the root through directories,
-- each the first entry of its name, to a directory: the lookup by the path of a slash before each
-- name finds that directory, and an edit at that path goes down the same names.
pub get_seafdir_by_path-LeadsTo :
    (objects : Objects) (version : ℕ) (root_id : CString) (names : List CString) (t : SeafDir)
    → All IsName names
    → LeadsTo objects version root_id names t
    → (get_seafdir_by_path objects version root_id (path_of names) ≡ found_dir t)
      × (components (drop_slash (path_of names)) ≡ names)
unfolding get_seafdir_by_path
get_seafdir_by_path-LeadsTo objects version root_id names t h leads = (
  ap (λ (ns : List CString). walk_down objects version ns (get_seafdir objects version root_id))
        (tokens-path_of names h)
      ∙ walk_down-LeadsTo objects version root_id names t leads,
  drop_slash-path_of names h,
)
