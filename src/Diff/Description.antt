-- ===== src/Diff/Description.antt =====
-- What `diff_results_to_description` of common/diff-simple.c says, sentence by sentence.
use mathlib.Core.List.{append-nil, append_assoc}
use seafile_server.Base.{
  ℕ, suc, ◌+◌, ◌≡◌, refl, ap, Bool, true, false, Option, none, some, List, [], ◌∷◌, ◌++◌, CString,
  codes, ◌==◌, if◌then◌else◌, arith, length, ◌∙◌, sym, inl, inr, Bool-cases,
}
use seafile_server.Diff.{
  Status, added, deleted, modified, renamed, unmerged, dir_added, dir_deleted, dir_renamed,
  DiffEntry,
}
use seafile_server.Diff.Describe.{
  base_step, after_slash, or_path, get_basename, Tally, no_tally, count_one, Tallies, no_tallies,
  count_result, count_results, line, describe, diff_results_to_description,
}

-- The names of the entries of some statuses, in the order of the diff.
abbrev pub names_with : (Status → Bool) → List DiffEntry → List CString
names_with is_class [] = []
names_with is_class (de ∷ p) =
    let rest = names_with is_class p in if is_class de.status then de.name ∷ rest else rest

abbrev pub first_basename : List CString → CString
first_basename [] = []
first_basename (name ∷ names) = get_basename name

-- How many there are, and the last part of the first one's path.
abbrev pub tally_of : List CString → Tally
tally_of names = record { count = length names; first = first_basename names }

abbrev pub is_add_mod : Status → Bool
is_add_mod added = true
is_add_mod modified = true
is_add_mod _ = false

abbrev pub is_status : Status → Status → Bool
is_status deleted deleted = true
is_status renamed renamed = true
is_status dir_added dir_added = true
is_status dir_deleted dir_deleted = true
is_status _ _ = false

abbrev pub tallies_of : List DiffEntry → Tallies
tallies_of es = record {
  add_mod = tally_of (names_with is_add_mod es);
  removed = tally_of (names_with (is_status deleted) es);
  renamed_files = tally_of (names_with (is_status renamed) es);
  new_dir = tally_of (names_with (is_status dir_added) es);
  removed_dir = tally_of (names_with (is_status dir_deleted) es);
}

abbrev extend : Tally → List CString → Tally
extend t [] = t
extend t (name ∷ names) = extend (count_one t name) names

abbrev extend_all : Tallies → ((Status → Bool) → List CString) → Tallies
extend_all t names = record {
  add_mod = extend t.add_mod (names is_add_mod);
  removed = extend t.removed (names (is_status deleted));
  renamed_files = extend t.renamed_files (names (is_status renamed));
  new_dir = extend t.new_dir (names (is_status dir_added));
  removed_dir = extend t.removed_dir (names (is_status dir_deleted));
}

extend_more :
    (c : ℕ) (first : CString) (names : List CString)
    → extend (record { count = suc c; first = first }) names
      ≡ record { count = suc c + length names; first = first }
extend_more c first [] = ground arith
extend_more c first (name ∷ names) = ground (arith, extend_more (suc c) first names)

extend_from_none : (names : List CString) → extend no_tally names ≡ tally_of names
extend_from_none [] = refl
extend_from_none (name ∷ names) = ground (arith, extend_more 0 (get_basename name) names)

extend_all-count_result :
    (t : Tallies) (s : Status) (name : CString) (names : (Status → Bool) → List CString)
    → extend_all (count_result t s name) names
      ≡ extend_all t (λ is_class. if is_class s then name ∷ names is_class else names is_class)
extend_all-count_result t added name names = refl
extend_all-count_result t deleted name names = refl
extend_all-count_result t modified name names = refl
extend_all-count_result t renamed name names = refl
extend_all-count_result t unmerged name names = refl
extend_all-count_result t dir_added name names = refl
extend_all-count_result t dir_deleted name names = refl
extend_all-count_result t dir_renamed name names = refl

count_results-extend_all :
    (es : List DiffEntry) (t : Tallies)
    → count_results es t ≡ extend_all t (λ is_class. names_with is_class es)
unfolding count_results
count_results-extend_all [] t = refl
count_results-extend_all (de ∷ p) t =
    count_results-extend_all p (count_result t de.status de.name)
    ∙ extend_all-count_result t de.status de.name (λ is_class. names_with is_class p)

count_results-tallies_of : (es : List DiffEntry) → count_results es no_tallies ≡ tallies_of es
count_results-tallies_of es =
    rw
      (
        count_results-extend_all es no_tallies,
        extend_from_none (names_with is_add_mod es),
        extend_from_none (names_with (is_status deleted) es),
        extend_from_none (names_with (is_status renamed) es),
        extend_from_none (names_with (is_status dir_added) es),
        extend_from_none (names_with (is_status dir_deleted) es),
      )
      refl

-- What follows the last slash of a path, or all of it: a part that is read to a slash begins anew.
abbrev part_from : CString → CString → CString
part_from part [] = part
part_from part (c ∷ path) = if c == b'/' then part_from [] path else part_from (part ++ c ∷ []) path

abbrev pub last_part : CString → CString
last_part path = part_from [] path

-- The sentence of a class: none for no name, one name, or the first and how many follow.
abbrev pub files_sentence : (ℕ → CString) → CString → List CString → CString
files_sentence decimal verb [] = []
files_sentence decimal verb (name ∷ []) = verb ++ (codes " \"" ++ (last_part name ++ codes "\".\n"))
files_sentence decimal verb (name ∷ other ∷ names) =
    verb
    ++ (codes " \""
        ++ (last_part name
            ++ (codes "\" and " ++ (decimal (suc (length names)) ++ codes " more files.\n"))))

abbrev pub dirs_sentence : (ℕ → CString) → CString → List CString → CString
dirs_sentence decimal verb [] = []
dirs_sentence decimal verb (name ∷ []) =
    verb ++ (codes " directory \"" ++ (last_part name ++ codes "\".\n"))
dirs_sentence decimal verb (name ∷ other ∷ names) =
    verb
    ++ (codes " \""
        ++ (last_part name
            ++ (codes "\" and " ++ (decimal (suc (length names)) ++ codes " more directories.\n"))))

abbrev pub description : (ℕ → CString) → List DiffEntry → CString
description decimal es =
    files_sentence decimal (codes "Added or modified") (names_with is_add_mod es)
    ++ (files_sentence decimal (codes "Deleted") (names_with (is_status deleted) es)
        ++ (files_sentence decimal (codes "Renamed") (names_with (is_status renamed) es)
            ++ (dirs_sentence decimal (codes "Added") (names_with (is_status dir_added) es)
                ++ dirs_sentence decimal (codes "Removed")
                    (names_with (is_status dir_deleted) es))))

or_path-append : (pre path : CString) → (o : Option CString) → CString
or_path-append pre path none = pre ++ path
or_path-append pre path (some base) = base

restarts :
    (part : CString) (c : ℕ) (path : CString) (o : Option CString)
    → (c == b'/') ≡ true
    → or_path-append [] path o ≡ or_path-append part (c ∷ path) (base_step c path o)
unfolding or_path-append
restarts part c path none h = rw h refl
restarts part c path (some base) h = refl

goes_on :
    (part : CString) (c : ℕ) (path : CString) (o : Option CString)
    → (c == b'/') ≡ false
    → or_path-append (part ++ c ∷ []) path o ≡ or_path-append part (c ∷ path) (base_step c path o)
unfolding or_path-append
goes_on part c path none h = rw h (append_assoc part (c ∷ []) path)
goes_on part c path (some base) h = refl

by_case : (path : CString) (o : Option CString) → or_path path o ≡ or_path-append [] path o
unfolding or_path-append
by_case path none = refl
by_case path (some base) = refl

after_slash-part :
    (part path : CString) → part_from part path ≡ or_path-append part path (after_slash path)
unfolding after_slash or_path-append
after_slash-part part [] = sym (append-nil part)
after_slash-part part (c ∷ path) = elim (Bool-cases (c == b'/')) [
  | inl slash ↦ rw (slash, after_slash-part [] path) (restarts part c path (after_slash path) slash)
  | inr no_slash ↦
      rw (no_slash, after_slash-part (part ++ c ∷ []) path)
        (goes_on part c path (after_slash path) no_slash)
]

get_basename-last_part : (path : CString) → get_basename path ≡ last_part path
unfolding get_basename
get_basename-last_part path = by_case path (after_slash path) ∙ sym (after_slash-part [] path)

says_files :
    (decimal : ℕ → CString) (verb : CString) (names : List CString)
    → line decimal verb verb (codes "files") (length names) (first_basename names)
      ≡ files_sentence decimal verb names
says_files decimal verb [] = refl
says_files decimal verb (name ∷ []) = rw (get_basename-last_part name) refl
says_files decimal verb (name ∷ other ∷ names) = rw (get_basename-last_part name) refl

says_dirs :
    (decimal : ℕ → CString) (verb : CString) (names : List CString)
    → line decimal
        (verb ++ codes " directory")
        verb
        (codes "directories")
        (length names)
        (first_basename names)
      ≡ dirs_sentence decimal verb names
says_dirs decimal verb [] = refl
says_dirs decimal verb (name ∷ []) =
    rw (get_basename-last_part name) (append_assoc verb (codes " directory") _)
says_dirs decimal verb (name ∷ other ∷ names) = rw (get_basename-last_part name) refl

describe-description :
    (decimal : ℕ → CString) (es : List DiffEntry)
    → describe decimal (tallies_of es) ≡ description decimal es
unfolding describe
describe-description decimal es =
    rw
      (
        sym (says_files decimal (codes "Added or modified") (names_with is_add_mod es)),
        sym (says_files decimal (codes "Deleted") (names_with (is_status deleted) es)),
        sym (says_files decimal (codes "Renamed") (names_with (is_status renamed) es)),
        sym (says_dirs decimal (codes "Added") (names_with (is_status dir_added) es)),
        sym (says_dirs decimal (codes "Removed") (names_with (is_status dir_deleted) es)),
      )
      refl

-- The description of a diff with an entry is five sentences: of the files added or modified, of
-- those deleted, of those renamed, of the directories added and of those removed. A sentence is
-- left out where there is none, names the one there is, or names the first in the order of the
-- diff and says how many more there are; a name is what follows the last slash of the path.
-- Renamed directories and unmerged entries are in no sentence.
pub diff_results_to_description-counts :
    (decimal : ℕ → CString) (de : DiffEntry) (results : List DiffEntry)
    → diff_results_to_description decimal (de ∷ results) ≡ some (description decimal (de ∷ results))
unfolding diff_results_to_description
diff_results_to_description-counts decimal de results =
    ap (λ (t : CString). some t)
      (ap (λ (t : Tallies). describe decimal t) (count_results-tallies_of (de ∷ results))
        ∙ describe-description decimal (de ∷ results))
