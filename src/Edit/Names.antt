-- ===== src/Edit/Names.antt =====
-- `split_filename`, `filename_exists` and `generate_unique_filename` of server/repo-op.c.
use seafile_server.Base.{
  ℕ, zero, suc, ◌+◌, ◌/◌, ◌%◌, ◌≡◌, Bool, true, false, ◌||◌, Option, none, some, List, [], ◌∷◌,
  ◌++◌, CString, codes, str_eq, ◌⊎◌, leb, if◌then◌else◌, arith,
}
use seafile_server.Fs.{Dirent}
use seafile_server.Merge.Conflict.{split_dot}

unfoldable pub filename_exists : List Dirent → CString → Bool
filename_exists [] filename = false
filename_exists (dent ∷ ds) filename = str_eq dent.name filename || filename_exists ds filename

-- What `%d` prints, for a number that is not negative: its digits, on a bound for their number.
unfoldable pub digits : ℕ → ℕ → CString → CString
digits zero n rest = rest
digits (suc more) n rest =
    let next = (b'0' + n % 10) ∷ rest in if leb n 9 then next else digits more (n / 10) next

abbrev pub decimal : ℕ → CString
decimal n = digits (suc n) n []

-- `name (i).ext`, or `name (i)`
abbrev pub numbered : Option (CString × CString) → CString → ℕ → CString
numbered (some (name, ext)) file i = name ++ (codes " (" ++ (decimal i ++ (codes ")." ++ ext)))
numbered none file i = file ++ (codes " (" ++ (decimal i ++ codes ")"))

abbrev pub duplicate_names_count : ℕ
duplicate_names_count = 1000

-- The `while` loop with `i` and `left` rounds to go, `i + left` being one more than the count. With
-- no round left the name is given up, although it may be free.
unfoldable pub try_names :
    ℕ → ℕ → List Dirent → Option (CString × CString) → CString → CString → Option CString
unfolding filename_exists digits
try_names zero i entries parts file unique_name = none
try_names (suc left) i entries parts file unique_name =
    let next = try_names left (suc i) entries parts file (numbered parts file i) in
    if filename_exists entries unique_name then next else some unique_name

unfoldable pub generate_unique_filename : CString → List Dirent → Option CString
unfolding try_names split_dot
generate_unique_filename file entries =
    try_names duplicate_names_count 1 entries (split_dot file) file file

try_names_fresh :
    (left i : ℕ) (entries : List Dirent) (parts : Option (CString × CString))
    (file unique_name name : CString)
    → try_names left i entries parts file unique_name ≡ some name
    → filename_exists entries name ≡ false
unfolding try_names
try_names_fresh zero i entries parts file unique_name name h = cc
try_names_fresh (suc left) i entries parts file unique_name name h =
    ground (arith, try_names_fresh left (suc i) entries parts file (numbered parts file i) name)

first_try :
    (left i : ℕ) (entries : List Dirent) (parts : Option (CString × CString)) (file name : CString)
    → try_names (suc left) i entries parts file file ≡ some name
    → (filename_exists entries file ≡ true) ⊎ (name ≡ file)
unfolding try_names
first_try left i entries parts file name h = ground arith

-- The name that is made for a new entry is the name of no entry, and it is the name asked for if
-- that is the name of none.
pub generate_unique_filename_fresh :
    (file : CString) (entries : List Dirent) {name : CString}
    → generate_unique_filename file entries ≡ some name
    → (filename_exists entries name ≡ false)
      × ((filename_exists entries file ≡ true) ⊎ (name ≡ file))
unfolding generate_unique_filename
generate_unique_filename_fresh file entries {name} h = (
  try_names_fresh duplicate_names_count 1 entries (split_dot file) file file name h,
  first_try 999 1 entries (split_dot file) file name h,
)
