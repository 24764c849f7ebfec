-- ===== src/Merge/Root.antt =====
-- The root that a three-way merge of common/merge-new.c leaves in `merged_tree_root`.
use seafile_server.Base.{ℕ, ◌≢◌, Option, none, some, CString}
use seafile_server.Fs.{SeafDir, Objects, get_seafdir}
use seafile_server.Merge.{MergeEnv, MergeState}

abbrev Loads : Objects → ℕ → CString → Type 0
Loads objects version id = get_seafdir objects version id ≢ none

module _ (E : MergeEnv) where
  -- The tree, if there is one, can be loaded again.
  abbrev Held : Option SeafDir → MergeState E → Type 0
  Held none s = Unit
  Held (some t) s = Loads s.objects E.version t.dir_id

  abbrev pub RootLoads : MergeState E → Type 0
  RootLoads s = Loads s.objects E.version s.merged_tree_root

  abbrev ThirdHeld : Option (Option SeafDir) → MergeState E → Type 0
  ThirdHeld none s = Unit
  ThirdHeld (some t) s = Held t s
