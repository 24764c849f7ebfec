-- ===== src/Perm/Pages.antt =====
-- The pages of a listing of server/repo-perm.c.
use mathlib.Core.List.{reverse_aux, reverse-reverse}
use seafile_server.Base.{
  ℕ, zero, suc, ◌+◌, ◌^◌, ◌<◌, leb, ◌≤◌, ◌≡◌, refl, ap, ◌∙◌, false, some, List, [], ◌∷◌, CString,
  if◌then◌else◌, arith, take, drop,
}
use seafile_server.Fs.{Dirent, SeafDir, get_seafdir}
use seafile_server.Hex.{is_object_id_valid}
use seafile_server.Perm.{PermEnv}
use seafile_server.Perm.Dirs.{found}
use seafile_server.Perm.Repos.{seaf_repo_manager_check_permission}
use seafile_server.Perm.Listing.{
  ℤ, pos, negsuc, Repo, ListEnv, Listed, listed, listed_as, list_loop, clamp, past, sort_listed,
  FitsInt, sub_dirs, list_dir_with_perm,
}

-- The entries of a page: a limit that is not positive means all that follow.
abbrev pub page : ℕ → ℤ → List Dirent → List Dirent
page offset (pos zero) ds = drop offset ds
page offset (pos (suc n)) ds = take (suc n) (drop offset ds)
page offset (negsuc n) ds = drop offset ds

-- The entries with a valid id, as they are shown.
abbrev pub shown : (Dirent → Listed) → List Dirent → List Listed
shown show [] = []
shown show (d ∷ ds) =
    let rest = shown show ds in if is_object_id_valid d.id then show d ∷ rest else rest

module _ (show : Dirent → Listed) (offset : ℕ) where
  loop_rest :
      (limit : ℤ) (index : ℕ) (ds : List Dirent) (res : List Listed)
      → ((i : ℕ) → past offset limit i ≡ false)
      → offset ≤ index
      → list_loop show offset limit index ds res ≡ reverse_aux (shown show ds) res
  unfolding list_loop
  loop_rest limit index [] res free reached = refl
  loop_rest limit index (d ∷ ds) res free reached = ground (
    arith,
    free index,
    loop_rest limit (suc index) ds res free (omega (arith, reached)),
    loop_rest limit (suc index) ds (show d ∷ res) free (omega (arith, reached)),
  )

  past_within :
      (n index : ℕ)
      → offset + suc n < 2 ^ 31
      → past offset (pos (suc n)) index ≡ leb (offset + suc n) index
  past_within n index fits = ground arith

  loop_taken :
      (n index left : ℕ) (ds : List Dirent) (res : List Listed)
      → offset + suc n < 2 ^ 31
      → offset ≤ index
      → index + left ≡ offset + suc n
      → list_loop show offset (pos (suc n)) index ds res
        ≡ reverse_aux (shown show (take left ds)) res
  unfolding list_loop
  loop_taken n index zero [] res fits reached ends = refl
  loop_taken n index (suc left) [] res fits reached ends = refl
  loop_taken n index zero (d ∷ ds) res fits reached ends = ground (arith, past_within n index fits)
  loop_taken n index (suc left) (d ∷ ds) res fits reached ends = ground (
    arith,
    past_within n index fits,
    loop_taken n (suc index) left ds res fits (omega (arith, reached)) (omega (arith, ends)),
    loop_taken n (suc index) left ds (show d ∷ res) fits (omega (arith, reached))
        (omega (arith, ends)),
  )

  loop_dropped :
      (limit : ℤ) (index k : ℕ) (ds : List Dirent) (res : List Listed)
      → index + k ≡ offset
      → list_loop show offset limit index ds res
        ≡ list_loop show offset limit offset (drop k ds) res
  unfolding list_loop
  loop_dropped limit index zero ds res e =
      let same : index ≡ offset = omega (arith, e) in
      ap (λ (i : ℕ). list_loop show offset limit i ds res) same
  loop_dropped limit index (suc k) [] res e = refl
  loop_dropped limit index (suc k) (d ∷ ds) res e =
      ground (arith, loop_dropped limit (suc index) k ds res (omega (arith, e)))

  list_loop-page :
      (limit : ℤ) (ds : List Dirent)
      → FitsInt offset limit
      → list_loop show offset limit 0 ds [] ≡ reverse_aux (shown show (page offset limit ds)) []
  list_loop-page (pos zero) ds fits =
      loop_dropped (pos zero) 0 offset ds [] (omega arith)
      ∙ loop_rest (pos zero) offset (drop offset ds) [] (λ i. refl) (omega arith)
  list_loop-page (pos (suc n)) ds fits =
      loop_dropped (pos (suc n)) 0 offset ds [] (omega arith)
      ∙ loop_taken n offset (suc n) (drop offset ds) [] fits (omega arith) refl
  list_loop-page (negsuc n) ds fits =
      loop_dropped (negsuc n) 0 offset ds [] (omega arith)
      ∙ loop_rest (negsuc n) offset (drop offset ds) [] (λ i. refl) (omega arith)

-- For a user who has a permission on a library that exists, and a directory that can be loaded, where offset and limit add up to less than 2^31: the
-- listing is the page of the sorted entries that begins at the offset, or at 0 where that is
-- negative, and is as long as the limit, where the limit is positive; of its entries those with a
-- valid id are shown, in that order and each once, with the permission.
pub list_dir-page :
    (P : PermEnv) (L : ListEnv) (repo_id dir_path dir_id user perm : CString) (offset limit : ℤ)
    {repo : Repo} {dir : SeafDir}
    → seaf_repo_manager_check_permission P repo_id user ≡ found perm
    → L.get_repo repo_id ≡ some repo
    → get_seafdir (L.objects repo.store_id) repo.version dir_id ≡ some dir
    → FitsInt (clamp offset) limit
    → list_dir_with_perm P L repo_id dir_path dir_id user offset limit
      ≡ listed (
          shown
            (listed_as perm (sub_dirs P L repo_id dir_path user repo) dir_path)
            (page (clamp offset) limit (sort_listed dir.entries)))
unfolding list_dir_with_perm
list_dir-page P L repo_id dir_path dir_id user perm offset limit {repo} {dir} allowed there loads
      fits =
    rw (allowed, there, loads, list_loop-page _ (clamp offset) limit _ fits, reverse-reverse) refl
