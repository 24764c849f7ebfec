-- ===== src/Perm/Dirs.antt =====
-- `get_dir_perm` of server/repo-perm.c: the permission of the nearest shared directory above a path.
use seafile_server.Base.{
  ℕ, zero, suc, ◌≤◌, ◌≡◌, refl, ◌∙◌, false, Option, none, some, List, [], ◌∷◌, ◌++◌, CString,
  str_eq, ◌==◌, if◌then◌else◌, arith, length, All,
}
use seafile_server.Perm.{DirPerms}

-- What the loop finds. Where no shared directory is found and the rest of the path has no slash, the
-- C code writes through a NULL pointer; `out_of_fuel` is no result of the C code.
pub data Found : Type 0 where
  found : CString → Found
  missing null_slash out_of_fuel : Found

abbrev cut_step : ℕ → Option CString → Option CString
cut_step c (some tmp) = some (c ∷ tmp)
cut_step c none = if c == b'/' then some [] else none

-- `slash = g_strrstr (tmp, "/"); *slash = '\0';`
unfoldable pub cut_slash : CString → Option CString
cut_slash [] = none
cut_slash (c ∷ tmp) = cut_step c (cut_slash tmp)

unfoldable pub lookup_perm : DirPerms → CString → Option CString
lookup_perm [] path = none
lookup_perm ((dir, perm) ∷ perms) path =
    let rest = lookup_perm perms path in if str_eq dir path then some perm else rest

-- The body of the loop after `lookup`, on the way the loop goes on.
abbrev one_up : (CString → Found) → Option CString → Option CString → Found
one_up loop (some perm) cut = found perm
one_up loop none none = null_slash
one_up loop none (some tmp) = loop tmp

-- Each round drops a slash at least, so the length of the path is enough.
unfoldable pub dir_perm_loop : ℕ → DirPerms → CString → Found
unfolding cut_slash lookup_perm
dir_perm_loop rounds perms [] = missing
dir_perm_loop zero perms (c ∷ tmp) = out_of_fuel
dir_perm_loop (suc rounds) perms (c ∷ tmp) =
    one_up (λ up. dir_perm_loop rounds perms up) (lookup_perm perms (c ∷ tmp)) (cut_slash (c ∷ tmp))

unfoldable pub get_dir_perm : DirPerms → CString → Found
unfolding dir_perm_loop
get_dir_perm perms path = dir_perm_loop (length path) perms path

-- The path "/a/b" is the names "b", "a".
abbrev pub path_of : List CString → CString
path_of [] = []
path_of (name ∷ above) = path_of above ++ b'/' ∷ name

abbrev pub NoSlash : CString → Type 0
NoSlash = All (λ c. (c == b'/') ≡ false)

abbrev or_above : Option CString → Found → Found
or_above (some perm) rest = found perm
or_above none rest = rest

-- Looking from the directory itself to the root.
abbrev pub nearest : DirPerms → List CString → Found
nearest perms [] = missing
nearest perms (name ∷ above) =
    or_above (lookup_perm perms (path_of (name ∷ above))) (nearest perms above)

cut_slash-NoSlash : (name : CString) → NoSlash name → cut_slash name ≡ none
unfolding cut_slash
cut_slash-NoSlash [] h = refl
cut_slash-NoSlash (c ∷ name) (h, hs) = ground (arith, cut_slash-NoSlash name hs)

cut_slash-append :
    (above name : CString) → NoSlash name → cut_slash (above ++ b'/' ∷ name) ≡ some above
unfolding cut_slash
cut_slash-append [] name h = rw (cut_slash-NoSlash name h) refl
cut_slash-append (c ∷ above) name h = rw (cut_slash-append above name h) refl

length-above : (above name : CString) → suc (length above) ≤ length (above ++ b'/' ∷ name)
length-above [] name = omega arith
length-above (c ∷ above) name = omega (arith, length-above above name)

loop_some :
    (rounds : ℕ) (perms : DirPerms) (above name : CString)
    → NoSlash name
    → dir_perm_loop (suc rounds) perms (above ++ b'/' ∷ name)
      ≡ one_up
          (λ up. dir_perm_loop rounds perms up)
          (lookup_perm perms (above ++ b'/' ∷ name))
          (some above)
unfolding dir_perm_loop
loop_some rounds perms [] name h = rw (cut_slash-append [] name h) refl
loop_some rounds perms (c ∷ above) name h = rw (cut_slash-append (c ∷ above) name h) refl

go_up :
    (loop : CString → Found) (o : Option CString) (up : CString) (rest : Found)
    → loop up ≡ rest
    → one_up loop o (some up) ≡ or_above o rest
go_up loop none up rest h = h
go_up loop (some perm) up rest h = refl

dir_perm_loop-nearest :
    (rounds : ℕ) (perms : DirPerms) (names : List CString)
    → All NoSlash names
    → length (path_of names) ≤ rounds
    → dir_perm_loop rounds perms (path_of names) ≡ nearest perms names
unfolding dir_perm_loop
dir_perm_loop-nearest rounds perms [] h enough = refl
dir_perm_loop-nearest zero perms (name ∷ above) h enough =
    absurd (omega (arith, length-above (path_of above) name))
dir_perm_loop-nearest (suc rounds) perms (name ∷ above) (h, hs) enough =
    loop_some rounds perms (path_of above) name h
    ∙ go_up _ (lookup_perm perms (path_of (name ∷ above))) (path_of above) (nearest perms above) (
        dir_perm_loop-nearest rounds perms above hs
          (omega (arith, enough, length-above (path_of above) name)))

-- The permission found for a path is that of the nearest shared directory: the path itself, or else
-- the directory above it, and so on; none where no such directory is shared. The search ends and
-- never fails to find a slash. The path is a slash and a name, any number of times.
pub get_dir_perm-nearest :
    (perms : DirPerms) (names : List CString)
    → All NoSlash names
    → get_dir_perm perms (path_of names) ≡ nearest perms names
unfolding get_dir_perm
get_dir_perm-nearest perms names h =
    dir_perm_loop-nearest (length (path_of names)) perms names h (omega arith)
