-- ===== src/Perm/Listing.antt =====
-- `seaf_repo_manager_list_dir_with_perm` of server/repo-perm.c: a page of a directory's entries, with
-- the permission of the user.
use seafile_server.Base.{
  ℕ, zero, suc, ◌+◌, ◌%◌, ◌^◌, ◌<◌, Bool, true, false, ◌&&◌, ◌||◌, not, Option, none, some, List,
  [], ◌∷◌, ◌++◌, map, reverse, CString, codes, str_eq, str_lt, if◌then◌else◌, ltb, leb,
}
use seafile_server.Fs.{Dirent, SeafDir, Objects, is_reg, is_dir, get_seafdir}
use seafile_server.Hex.{is_object_id_valid}
use seafile_server.Perm.{PermEnv}
use seafile_server.Perm.Dirs.{Found, found, missing, null_slash, out_of_fuel}
use seafile_server.Perm.Repos.{seaf_repo_manager_check_permission}

-- An `int` argument.
pub data ℤ : Type 0 where
  pos negsuc : ℕ → ℤ

-- The fields of `SeafRepo` that are read.
pub record Repo : Type 0 where
  pub store_id : CString
  pub version : ℕ
  pub is_virtual : Bool

-- What the other managers answer: `seaf_repo_manager_get_repo`, the objects of a store, and
-- `seaf_share_manager_get_shared_sub_dirs` of a store and a path, a set of paths.
pub record ListEnv : Type 0 where
  pub get_repo : CString → Option Repo
  pub objects : CString → Objects
  pub get_shared_sub_dirs : CString → CString → Option (List CString)

-- `tolower` of the C locale, and `strcasecmp (a, b) > 0`.
abbrev to_lower : ℕ → ℕ
to_lower c = if leb b'A' c && leb c b'Z' then c + 32 else c

abbrev case_gt : CString → CString → Bool
case_gt a b = str_lt (map to_lower b) (map to_lower a)

-- `comp_dirent_func (a, b) > 0`
unfoldable pub comes_after : Dirent → Dirent → Bool
comes_after a b =
    if is_dir a.mode && is_reg b.mode
    then false
    else if is_reg a.mode && is_dir b.mode
    then true
    else case_gt a.name b.name

-- `g_list_sort`, a stable sort.
unfoldable pub insert_listed : Dirent → List Dirent → List Dirent
unfolding comes_after
insert_listed d [] = d ∷ []
insert_listed d (e ∷ es) =
    let rest = e ∷ insert_listed d es in if comes_after d e then rest else d ∷ e ∷ es

unfoldable pub sort_listed : List Dirent → List Dirent
unfolding insert_listed
sort_listed [] = []
sort_listed (d ∷ ds) = insert_listed d (sort_listed ds)

-- `SeafileDirent`
pub record Listed : Type 0 where
  pub dirent : Dirent
  pub permission : CString
  pub is_shared : Bool

abbrev any_path : CString → List CString → Bool
any_path path [] = false
any_path path (p ∷ ps) = str_eq p path || any_path path ps

abbrev cur_path : CString → CString → CString
cur_path dir_path name =
    if str_eq dir_path (codes "/") then dir_path ++ name else dir_path ++ (codes "/" ++ name)

abbrev shared_in : Option (List CString) → CString → Dirent → Bool
shared_in none dir_path dent = false
shared_in (some sub_dirs) dir_path dent =
    is_dir dent.mode && any_path (cur_path dir_path dent.name) sub_dirs

unfoldable pub listed_as : CString → Option (List CString) → CString → Dirent → Listed
listed_as perm shared_sub_dirs dir_path dent = record {
  dirent = dent;
  permission = perm;
  is_shared = shared_in shared_sub_dirs dir_path dent;
}

-- `limit > 0` and `index >= offset + limit`, where the sum of the two is of 32 bits and wraps around:
-- one of 2^31 and more is negative, and below every index.
abbrev pub past : ℕ → ℤ → ℕ → Bool
past offset (pos zero) index = false
past offset (pos (suc n)) index =
    let sum = (offset + suc n) % 2 ^ 32 in if ltb sum (2 ^ 31) then leb sum index else true
past offset (negsuc n) index = false

-- The page ends before the largest `int`.
abbrev pub FitsInt : ℕ → ℤ → Type 0
FitsInt offset (pos zero) = Unit
FitsInt offset (pos (suc n)) = offset + suc n < 2 ^ 31
FitsInt offset (negsuc n) = Unit

-- `if (offset < 0) offset = 0;`
abbrev pub clamp : ℤ → ℕ
clamp (pos n) = n
clamp (negsuc n) = 0

module _ (show : Dirent → Listed) (offset : ℕ) (limit : ℤ) where
  abbrev prepend : Dirent → List Listed → List Listed
  prepend dent res = if is_object_id_valid dent.id then show dent ∷ res else res

  -- The loop over the entries, which prepends to `res`.
  unfoldable pub list_loop : ℕ → List Dirent → List Listed → List Listed
  list_loop index [] res = res
  list_loop index (dent ∷ p) res =
      let more = if ltb index offset then res else prepend dent res in
      let rest = list_loop (suc index) p more in
      if not (ltb index offset) && past offset limit index then res else rest

-- What the function returns: NULL with one of three errors, or the entries. The two last results
-- are those of the search for a permission.
pub data Listing : Type 0 where
  access_denied bad_repo_id bad_dir_id : Listing
  listed : List Listed → Listing
  crashes no_fuel : Listing

module _ (P : PermEnv) (L : ListEnv) where
  abbrev is_owner : CString → Option CString → Bool
  is_owner user none = false
  is_owner user (some repo_owner) = str_eq user repo_owner

  abbrev pub sub_dirs : CString → CString → CString → Repo → Option (List CString)
  sub_dirs repo_id dir_path user repo =
      if not repo.is_virtual && is_owner user (P.get_repo_owner repo_id)
      then L.get_shared_sub_dirs repo.store_id dir_path
      else none

  abbrev in_dir : CString → CString → CString → ℤ → ℤ → CString → Repo → Option SeafDir → Listing
  in_dir repo_id dir_path user offset limit perm repo none = bad_dir_id
  in_dir repo_id dir_path user offset limit perm repo (some dir) = listed (
      reverse (
        list_loop (listed_as perm (sub_dirs repo_id dir_path user repo) dir_path) (clamp offset)
          limit 0 (sort_listed dir.entries) []))

  abbrev in_repo : CString → CString → CString → CString → ℤ → ℤ → CString → Option Repo → Listing
  in_repo repo_id dir_path dir_id user offset limit perm none = bad_repo_id
  in_repo repo_id dir_path dir_id user offset limit perm (some repo) =
      in_dir repo_id dir_path user offset limit perm repo
        (get_seafdir (L.objects repo.store_id) repo.version dir_id)

  abbrev with_perm : CString → CString → CString → CString → ℤ → ℤ → Found → Listing
  with_perm repo_id dir_path dir_id user offset limit missing = access_denied
  with_perm repo_id dir_path dir_id user offset limit (found perm) =
      in_repo repo_id dir_path dir_id user offset limit perm (L.get_repo repo_id)
  with_perm repo_id dir_path dir_id user offset limit null_slash = crashes
  with_perm repo_id dir_path dir_id user offset limit out_of_fuel = no_fuel

  unfoldable pub list_dir_with_perm : CString → CString → CString → CString → ℤ → ℤ → Listing
  unfolding seaf_repo_manager_check_permission list_loop listed_as sort_listed get_seafdir
  list_dir_with_perm repo_id dir_path dir_id user offset limit =
      with_perm repo_id dir_path dir_id user offset limit
        (seaf_repo_manager_check_permission P repo_id user)
