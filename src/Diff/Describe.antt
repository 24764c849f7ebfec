-- ===== src/Diff/Describe.antt =====
-- `get_basename` and `diff_results_to_description` of common/diff-simple.c: the description of a
-- commit, made of the entries of a diff.
use seafile_server.Base.{
  ℕ, zero, suc, Option, none, some, List, [], ◌∷◌, ◌++◌, CString, codes, ◌==◌, if◌then◌else◌,
}
use seafile_server.Diff.{
  Status, added, deleted, modified, renamed, unmerged, dir_added, dir_deleted, dir_renamed,
  DiffEntry,
}

abbrev pub base_step : ℕ → CString → Option CString → Option CString
base_step c path (some base) = some base
base_step c path none = if c == b'/' then some path else none

-- `strrchr (path, '/') + 1`
unfoldable pub after_slash : CString → Option CString
after_slash [] = none
after_slash (c ∷ path) = base_step c path (after_slash path)

abbrev pub or_path : CString → Option CString → CString
or_path path none = path
or_path path (some base) = base

unfoldable pub get_basename : CString → CString
unfolding after_slash
get_basename path = or_path path (after_slash path)

-- A counter with the name that was met first: NULL while the count is 0.
pub record Tally : Type 0 where
  pub count : ℕ
  pub first : CString

abbrev pub no_tally : Tally
no_tally = record { count = 0; first = [] }

abbrev pub count_one : Tally → CString → Tally
count_one t name = record {
  count = suc t.count;
  first = if t.count == 0 then get_basename name else t.first;
}

pub record Tallies : Type 0 where
  pub add_mod : Tally
  pub removed : Tally
  pub renamed_files : Tally
  pub new_dir : Tally
  pub removed_dir : Tally

abbrev pub no_tallies : Tallies
no_tallies = record {
  add_mod = no_tally;
  removed = no_tally;
  renamed_files = no_tally;
  new_dir = no_tally;
  removed_dir = no_tally;
}

-- The switch.
abbrev pub count_result : Tallies → Status → CString → Tallies
count_result t added name = record t { add_mod = count_one t.add_mod name }
count_result t deleted name = record t { removed = count_one t.removed name }
count_result t renamed name = record t { renamed_files = count_one t.renamed_files name }
count_result t modified name = record t { add_mod = count_one t.add_mod name }
count_result t dir_added name = record t { new_dir = count_one t.new_dir name }
count_result t dir_deleted name = record t { removed_dir = count_one t.removed_dir name }
count_result t unmerged name = t
count_result t dir_renamed name = t

-- The loop.
unfoldable pub count_results : List DiffEntry → Tallies → Tallies
unfolding get_basename
count_results [] t = t
count_results (de ∷ p) t = count_results p (count_result t de.status de.name)

-- One line: `one "name"` and the end of a line, or `many "name" and so many more things`.
abbrev pub line : (ℕ → CString) → CString → CString → CString → ℕ → CString → CString
line decimal one many things zero name = []
line decimal one many things (suc zero) name = one ++ (codes " \"" ++ (name ++ codes "\".\n"))
line decimal one many things (suc (suc more)) name =
    many
    ++ (codes " \""
        ++ (name
            ++ (codes "\" and "
                ++ (decimal (suc more) ++ (codes " more " ++ (things ++ codes ".\n"))))))

-- `decimal` is what `%d` prints.
unfoldable pub describe : (ℕ → CString) → Tallies → CString
describe decimal t =
    line decimal (codes "Added or modified") (codes "Added or modified") (codes "files")
      t.add_mod.count t.add_mod.first
    ++ (line decimal (codes "Deleted") (codes "Deleted") (codes "files") t.removed.count
          t.removed.first
        ++ (line decimal (codes "Renamed") (codes "Renamed") (codes "files") t.renamed_files.count
              t.renamed_files.first
            ++ (line decimal (codes "Added directory") (codes "Added") (codes "directories")
                  t.new_dir.count t.new_dir.first
                ++ line decimal (codes "Removed directory") (codes "Removed") (codes "directories")
                    t.removed_dir.count t.removed_dir.first)))

-- NULL is `none`.
unfoldable pub diff_results_to_description : (ℕ → CString) → List DiffEntry → Option CString
unfolding count_results describe
diff_results_to_description decimal [] = none
diff_results_to_description decimal (de ∷ p) =
    some (describe decimal (count_results (de ∷ p) no_tallies))
