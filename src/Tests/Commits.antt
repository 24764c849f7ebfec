-- ===== src/Tests/Commits.antt =====
-- A new commit for a small library.
use seafile_server.Base.{
  arith, ◌≡◌, refl, Bool, true, false, none, some, [], CString, codes, str_eq, if◌then◌else◌, take,
  replicate, ◌&&◌,
}
use seafile_server.Fs.{empty_sha1}
use seafile_server.Branch.{Branch, BranchState, Trans, branch_new, test_and_update_branch, put_row}
use seafile_server.Branch.Swap.{Heads, works, test_and_update_branch_swaps}
use seafile_server.Commit.{Commit, Repo, no_attributes, repo_from_commit}
use seafile_server.Commit.Publish.{
  World, PublishEnv, Change, committed, refused, concurrent_upload, get_repo, new_commit_of,
  gen_new_commit,
}
use seafile_server.Commit.Publish.Landing.{gen_new_commit_lands}
use seafile_server.Commit.Publish.Attempts.{Landed}
use seafile_server.Commit.Publish.Saves.{HeadStored}
use seafile_server.Commit.Publish.Stored.{gen_new_commit-HeadStored}
use seafile_server.Commit.Publish.Refused.{gen_new_commit_refused}
use seafile_server.Commit.Publish.Uncontended.{gen_new_commit_uncontended}
use seafile_server.Tests.Store.{env}

abbrev pub library : CString
library = codes "r"

abbrev pub first_id : CString
first_id = replicate 40 b'a'

abbrev pub first : Commit
first = record {
  commit_id = first_id;
  repo_id = library;
  root_id = empty_sha1;
  desc = codes "first";
  creator_name = codes "ann";
  creator_id = empty_sha1;
  ctime = 5;
  parent_id = none;
  second_parent_id = none;
  attributes = no_attributes;
  new_merge = false;
  conflict = false;
}

abbrev pub branches : BranchState
branches = record {
  heads = λ r n. if str_eq r library && str_eq n (codes "master") then some first_id else none;
  infos = [];
  events = [];
}

abbrev world : World
world = record {
  branches = branches;
  commits = λ r i. if str_eq r library && str_eq i first_id then some first else none;
  objects = λ id. none;
}

abbrev pub all_works : Trans
all_works = record { begins = true; selects = true; updates = true; commits = true }

abbrev never_begins : Trans
never_begins = record all_works { begins = false }

abbrev pub publish_env : Trans → PublishEnv
publish_env trans = record {
  sha1 = λ bytes. replicate 20 0xBC;
  others = λ k w. w;
  sleeps = λ k w. w;
  trans = λ k. trans;
  is_virtual_repo = λ id. false;
  store_of = λ id. some id;
  now = λ k. 6;
  commit_write_ok = λ id. true;
  checksum = env.checksum;
  write_ok = env.write_ok;
  modifier_mtime = λ head path. none;
  merged_at = λ path. 7;
  format_time = λ t. [];
}

abbrev repo : Repo
repo = record {
  id = library;
  store_id = library;
  head = record { name = codes "master"; repo_id = library; commit_id = first_id };
  root_id = empty_sha1;
  last_modify = 5;
  last_modifier = codes "ann";
  attributes = no_attributes;
}

abbrev change : Change
change = record {
  depth = 3;
  base = first;
  new_root = empty_sha1;
  user = codes "bob";
  retry_on_conflict = true;
}

abbrev once : Change
once = record change { retry_on_conflict = false }

loads : get_repo (publish_env all_works) world library ≡ some repo
unfolding get_repo str_eq repo_from_commit branch_new
loads = refl

at_head : first.commit_id ≡ repo.head.commit_id
at_head = refl

abbrev new_commit : Commit
new_commit = new_commit_of (publish_env all_works) change repo (codes "second")

gen_new_commit_uncontended_example :
    (gen_new_commit (publish_env all_works) change library (codes "second") world).0
    ≡ committed new_commit.commit_id
gen_new_commit_uncontended_example =
    gen_new_commit_uncontended (publish_env all_works) change library (codes "second") world repo
      loads at_head refl refl (λ v. refl)

gen_new_commit_lands_example :
    (found : Repo) × (get_repo (publish_env all_works) world library ≡ some found)
    × Landed
        (publish_env all_works)
        change
        (new_commit_of (publish_env all_works) change found (codes "second"))
        library
        world
        new_commit.commit_id
        (gen_new_commit (publish_env all_works) change library (codes "second") world).1
gen_new_commit_lands_example =
    gen_new_commit_lands (publish_env all_works) change library (codes "second")
      new_commit.commit_id world gen_new_commit_uncontended_example

is_refused :
    (gen_new_commit (publish_env never_begins) once library (codes "second") world).0
    ≡ refused concurrent_upload
unfolding gen_new_commit str_eq
is_refused = refl

abbrev HeadIsFirst : BranchState → Type 0
HeadIsFirst b = b.heads library (codes "master") ≡ some first_id

head_is_first : HeadIsFirst branches
unfolding str_eq
head_is_first = refl

gen_new_commit_refused_example :
    HeadIsFirst
      (gen_new_commit (publish_env never_begins) once library (codes "second") world).1.branches
gen_new_commit_refused_example =
    gen_new_commit_refused (publish_env never_begins) once HeadIsFirst (λ k w h. h) (λ k w h. h)
      concurrent_upload library (codes "second") world head_is_first is_refused

abbrev to_second : Branch
to_second = record { name = codes "master"; repo_id = library; commit_id = codes "second" }

not_virtual : CString → Bool
not_virtual id = false

updated : (test_and_update_branch not_virtual all_works to_second first_id branches).0 ≡ true
unfolding test_and_update_branch str_eq
updated = refl

test_and_update_branch_swaps_example :
    (works all_works ≡ true)
    × (head : CString) × Heads branches to_second head
    × (take 40 head ≡ first_id)
    × ((test_and_update_branch not_virtual all_works to_second first_id branches).1.heads
        ≡ put_row to_second branches.heads)
test_and_update_branch_swaps_example =
    test_and_update_branch_swaps not_virtual all_works to_second first_id branches (λ e. cc) updated

world-HeadStored : HeadStored library world
unfolding str_eq
world-HeadStored = (first_id, refl, (first, refl))

gen_new_commit-HeadStored_example :
    HeadStored library
      (gen_new_commit (publish_env all_works) change library (codes "second") world).1
gen_new_commit-HeadStored_example =
    gen_new_commit-HeadStored (publish_env all_works) change library (omega arith) (λ bytes. refl)
      (λ k w h. h) (λ k w i h. h) (λ k w h. h) (λ k w i h. h) (codes "second") world
      world-HeadStored
