-- ===== src/Merge/Conflict.antt =====
-- The names given to conflicting copies: `gen_conflict_path` of common/vc-common.c, and the two
-- functions of common/merge-new.c that call it.
use seafile_server.Base.{ℕ, Option, none, some, [], ◌∷◌, ◌++◌, CString, codes, ◌==◌, if◌then◌else◌}
use seafile_server.Merge.{MergeEnv}

abbrev pub dot_step : ℕ → CString → Option (CString × CString) → Option (CString × CString)
dot_step c s (some (copy, ext)) = some (c ∷ copy, ext)
dot_step c s none = if c == b'.' then some ([], s) else none

-- `strrchr (copy, '.')`: the text before the last dot, and the extension after it.
unfoldable pub split_dot : CString → Option (CString × CString)
split_dot [] = none
split_dot (c ∷ s) = dot_step c s (split_dot s)

-- " (SFConflict modifier time)"
unfoldable pub conflict_mark : Option CString → CString → CString
conflict_mark (some modifier) time =
    codes " (SFConflict " ++ (modifier ++ (codes " " ++ (time ++ codes ")")))
conflict_mark none time = codes " (SFConflict " ++ (time ++ codes ")")

abbrev pub mark_name : CString → CString → Option (CString × CString) → CString
mark_name path mark (some (copy, ext)) = copy ++ (mark ++ (b'.' ∷ ext))
mark_name path mark none = path ++ mark

-- The time is given as `strftime` prints it.
unfoldable pub gen_conflict_path : CString → Option CString → CString → CString
unfolding split_dot conflict_mark
gen_conflict_path path modifier time = mark_name path (conflict_mark modifier time) (split_dot path)

module _ (E : MergeEnv) where
  abbrev name_with : CString → Option (Option CString × ℕ) → Option CString
  name_with filename none = none
  name_with filename (some (modifier, mtime)) =
      some (gen_conflict_path filename modifier (E.format_time mtime))

  abbrev by_head : CString → Option (Option CString) → Option (Option CString × ℕ)
  by_head path none = none
  by_head path (some creator) = some (creator, E.now path)

  abbrev or_head : CString → Option (Option CString × ℕ) → Option (Option CString × ℕ)
  or_head path (some found) = some found
  or_head path none = by_head path E.head_creator

  -- `merge_conflict_filename`: `none` is the NULL that it returns.
  unfoldable pub merge_conflict_filename : CString → CString → Option CString
  unfolding gen_conflict_path
  merge_conflict_filename basedir filename =
      name_with filename (or_head (basedir ++ filename) (E.modifier_mtime (basedir ++ filename)))

  -- `merge_conflict_dirname`
  unfoldable pub merge_conflict_dirname : CString → CString → Option CString
  unfolding gen_conflict_path
  merge_conflict_dirname basedir dirname =
      name_with dirname (by_head (basedir ++ dirname) E.head_creator)
