-- ===== src/Tests/Trees.antt =====
-- A small repository: entries, directories, a store, and the environment of a merge.
use seafile_server.Base.{
  ℕ, Bool, true, none, some, List, [], ◌∷◌, ◌++◌, CString, codes, length, str_eq, if◌then◌else◌,
}
use seafile_server.Fs.{Dirent, SeafDir, Objects}
use seafile_server.Merge.{MergeEnv, MergeState}

abbrev entry : ℕ → CString → CString → Dirent
entry mode name id = record {
  version = 1;
  mode = mode;
  id = id;
  name_len = length name;
  name = name;
  mtime = 7;
  modifier = none;
  size = 4;
}

abbrev pub file : CString → CString → Dirent
file = entry 0x81A4

abbrev pub folder : CString → CString → Dirent
folder = entry 0x4000

-- A stand-in for SHA-1: all names and ids.
abbrev pub checksum : ℕ → List Dirent → CString
checksum version [] = []
checksum version (d ∷ ds) = d.name ++ (d.id ++ checksum version ds)

abbrev pub directory : List Dirent → SeafDir
directory l = record { version = 1; dir_id = checksum 1 l; entries = l }

abbrev pub notes : Dirent
notes = file (codes "notes") (codes "1")

abbrev pub plan : Dirent
plan = file (codes "plan.md") (codes "2")

abbrev pub sub_dir : SeafDir
sub_dir = directory (plan ∷ [])

abbrev pub photos : Dirent
photos = folder (codes "photos") sub_dir.dir_id

abbrev pub base_dir : SeafDir
base_dir = directory (photos ∷ notes ∷ [])

abbrev pub head_dir : SeafDir
head_dir = directory (plan ∷ photos ∷ notes ∷ [])

abbrev pub remote_dir : SeafDir
remote_dir = directory (file (codes "todo") (codes "3") ∷ photos ∷ [])

abbrev pub stored : List SeafDir → Objects
stored [] id = none
stored (t ∷ ts) id = let rest = stored ts id in if str_eq t.dir_id id then some t else rest

abbrev pub store : Objects
store = stored (base_dir ∷ head_dir ∷ remote_dir ∷ sub_dir ∷ [])

abbrev pub env : MergeEnv
env = record {
  n = 3;
  do_merge = true;
  version = 1;
  CallbackData = Unit;
  callback = λ path dents unit. (true, unit);
  checksum = checksum;
  write_ok = λ id. true;
  modifier_mtime = λ path. none;
  head_creator = some (some (codes "ann"));
  now = λ path. 5;
  format_time = λ time. codes "2020-01-02-03-04-05";
}

abbrev pub start : MergeState env
start = record {
  conflict = Bool.false;
  visit_dirs = 0;
  merged_tree_root = [];
  data_of_callback = tt;
  objects = store;
}
