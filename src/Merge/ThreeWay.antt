-- ===== src/Merge/ThreeWay.antt =====
-- `merge_entries` of common/merge-new.c against the textbook rule of a three-way merge, for a name
-- that is a file in some of the trees and a directory in none.
use seafile_server.Base.{
  ◌≡◌, ◌≢◌, Bool, true, false, Option, none, some, List, [], ◌∷◌, ◌++◌, map, CString, str_eq,
  if◌then◌else◌, arith, ◌||◌, ◌&&◌, not,
}
use seafile_server.Fs.{Dirent, is_reg}
use seafile_server.Walk.{three}
use seafile_server.Merge.{MergeEnv, MergeState, success}
use seafile_server.Merge.Entries.{merge_entries}
use seafile_server.Merge.Names.{Merging}

-- The contents that a side has under the name: one or none.
abbrev pub contents : Option Dirent → List CString
contents none = []
contents (some d) = d.id ∷ []

abbrev pub same_content : Option Dirent → Option Dirent → Bool
same_content none none = true
same_content (some d) (some e) = str_eq d.id e.id
same_content none (some e) = false
same_content (some d) none = false

-- What both sides agree on stays; what one side alone has changed becomes that side's; where both
-- have changed it differently, all that the two sides have is kept.
abbrev pub three_way : Option Dirent → Option Dirent → Option Dirent → List CString
three_way base head remote =
    if same_content head remote
    then contents head
    else if same_content base head
    then contents remote
    else if same_content base remote
    then contents head
    else contents remote ++ contents head

abbrev both_present : Option Dirent → Option Dirent → Bool
both_present (some d) (some e) = true
both_present none e = false
both_present (some d) none = false

-- Two files, of which neither is the other or the base.
abbrev pub in_conflict : Option Dirent → Option Dirent → Option Dirent → Bool
in_conflict base head remote =
    both_present head remote
    && (not (same_content head remote)
        && (not (same_content base head) && not (same_content base remote)))

abbrev pub IsFile : Option Dirent → Type 0
IsFile none = Unit
IsFile (some d) = is_reg d.mode ≡ true

abbrev ids : List Dirent → List CString
ids = map (λ (d : Dirent). d.id)

module _ (E : MergeEnv) (mg : Merging E) (readable : E.head_creator ≢ none) where
  -- In a merging three-way merge whose remote head commit can be read, a name that is no directory
  -- on any side: `merge_entries` succeeds, the contents that it puts out are those of the textbook
  -- rule, and it notes a conflict exactly where head and remote both have the file and all that
  -- differ from one another, the base included.
  pub merge_entries-three_way :
      (basedir : CString) (base head remote : Option Dirent) (out : List Dirent) (s : MergeState E)
      → IsFile base
      → IsFile head
      → IsFile remote
      → let r = merge_entries E basedir (three base head remote) out s in
        (r.0 ≡ success)
        × (ids r.2 ≡ three_way base head remote ++ ids out)
        × (r.3.conflict ≡ (s.conflict || in_conflict base head remote))
  unfolding merge_entries
  merge_entries-three_way basedir (some b) (some h) (some r) out s kb kh kr =
      (ground arith, ground arith, ground arith)
  merge_entries-three_way basedir (some b) (some h) none out s kb kh kr =
      (ground arith, ground arith, ground arith)
  merge_entries-three_way basedir (some b) none (some r) out s kb kh kr =
      (ground arith, ground arith, ground arith)
  merge_entries-three_way basedir none (some h) (some r) out s kb kh kr =
      (ground arith, ground arith, ground arith)
  merge_entries-three_way basedir none (some h) none out s kb kh kr =
      (ground arith, ground arith, ground arith)
  merge_entries-three_way basedir none none (some r) out s kb kh kr =
      (ground arith, ground arith, ground arith)
  merge_entries-three_way basedir b none none out s kb kh kr =
      (ground arith, ground arith, ground arith)
