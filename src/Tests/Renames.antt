-- ===== src/Tests/Renames.antt =====
-- A rename in a small library.
use seafile_server.Base.{true, none, some, [], ◌∷◌, CString, codes, str_eq, if◌then◌else◌}
use seafile_server.Fs.{Objects}
use seafile_server.Commit.{Commit}
use seafile_server.Commit.Publish.{World}
use seafile_server.Ops.{OpsEnv}
use seafile_server.Tests.Store.{readme}
use seafile_server.Tests.Commits.{first_id, first, branches, publish_env, all_works}

abbrev top : CString
top = codes "t"

abbrev with_readme : Commit
with_readme = record first { root_id = top }

abbrev stored : Objects
stored id =
    if str_eq id top
    then some (record { version = 1; dir_id = top; entries = readme ∷ [] })
    else none

abbrev library_world : World
library_world = record {
  branches = branches;
  commits = λ r i. if str_eq i first_id then some with_readme else none;
  objects = stored;
}

abbrev ops : OpsEnv
ops = record {
  publish = publish_env all_works;
  is_text = λ text. true;
  is_utf8 = λ name. true;
  touched_at = λ names. 9;
  merge_virtual_repo = λ id w. w;
  depth = 3;
}
