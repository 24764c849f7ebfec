-- ===== src/Commit.antt =====
-- Commits of a library: `SeafCommit` of common/commit-mgr.c with `seaf_commit_new` and the store of
-- commits, and what server/repo-mgr.c copies between a commit and a library.
pub mod Stores
pub mod Publish
use Prim.Native.Nat.{ℕ}
use seafile_server.Base.{
  Bool, true, false, Option, none, some, List, [], ◌∷◌, ◌++◌, CString, take, length, ◌*◌, ◌/◌, ◌%◌,
  ◌^◌, ◌==◌, ◌||◌, str_eq, ◌&&◌, if◌then◌else◌,
}
use seafile_server.Hex.{rawdata_to_hex}
use seafile_server.Fs.{empty_sha1}
use seafile_server.Branch.{Branch}

-- The encryption of a library; which fields are set depends on its version.
pub record Encryption : Type 0 where
  pub enc_version : ℕ
  pub magic : Option CString
  pub random_key : Option CString
  pub salt : Option CString

-- What a commit and a library both record.
pub record Attributes : Type 0 where
  pub repo_name : CString
  pub repo_desc : CString
  pub encrypted : Bool
  pub repaired : Bool
  pub encryption : Encryption
  pub no_local_history : Bool
  pub version : ℕ

pub record Commit : Type 0 where
  pub commit_id : CString
  pub repo_id : CString
  pub root_id : CString
  pub desc : CString
  pub creator_name : CString
  pub creator_id : CString
  pub ctime : ℕ
  pub parent_id : Option CString
  pub second_parent_id : Option CString
  pub attributes : Attributes
  pub new_merge : Bool
  pub conflict : Bool

-- `SeafRepo`, of which the head is a branch.
pub record Repo : Type 0 where
  pub id : CString
  pub store_id : CString
  pub head : Branch
  pub root_id : CString
  pub last_modify : ℕ
  pub last_modifier : CString
  pub attributes : Attributes

abbrev no_encryption : Encryption
no_encryption = record { enc_version = 0; magic = none; random_key = none; salt = none }

abbrev pub no_attributes : Attributes
no_attributes = record {
  repo_name = [];
  repo_desc = [];
  encrypted = false;
  repaired = false;
  encryption = no_encryption;
  no_local_history = false;
  version = 0;
}

-- The fields of a version of the encryption.
unfoldable pub copy_encryption : Bool → Encryption → Encryption
copy_encryption encrypted e =
    if encrypted
    then (if e.enc_version == 1
        then record { enc_version = 1; magic = e.magic; random_key = none; salt = none }
        else if e.enc_version == 2
        then record { enc_version = 2; magic = e.magic; random_key = e.random_key; salt = none }
        else if e.enc_version == 3 || e.enc_version == 4
        then record {
          enc_version = e.enc_version;
          magic = e.magic;
          random_key = e.random_key;
          salt = e.salt;
        }
        else record { enc_version = e.enc_version; magic = none; random_key = none; salt = none })
    else no_encryption

abbrev copied : Attributes → Attributes
copied a = record a { encryption = copy_encryption a.encrypted a.encryption }

-- On a commit that `seaf_commit_new` made, and on a library without these fields.
unfoldable pub repo_to_commit : Repo → Commit → Commit
unfolding copy_encryption
repo_to_commit repo commit = record commit { attributes = copied repo.attributes }

unfoldable pub repo_from_commit : Repo → Commit → Repo
unfolding copy_encryption
repo_from_commit repo commit = record repo {
  root_id = take 40 commit.root_id;
  last_modify = commit.ctime;
  last_modifier = commit.creator_name;
  attributes = copied commit.attributes;
}

-- The eight bytes of `hton64`.
abbrev big_endian : ℕ → ℕ → List ℕ
big_endian ℕ.zero n = []
big_endian (ℕ.suc k) n = (n / 2 ^ (8 * k)) % 256 ∷ big_endian k n

abbrev terminated : CString → List ℕ
terminated s = s ++ 0 ∷ []

-- Ids of 40 bytes and a zero are hashed as they are. The parents of a commit are no part of its id.
unfoldable pub compute_commit_id : (List ℕ → List ℕ) → Commit → CString
unfolding rawdata_to_hex
compute_commit_id sha1 commit = rawdata_to_hex (
    sha1 (
      terminated commit.root_id
      ++ terminated commit.creator_id
      ++ terminated commit.creator_name
      ++ terminated commit.desc
      ++ big_endian 8 commit.ctime))

abbrev with_id : (List ℕ → List ℕ) → Commit → Commit
with_id sha1 commit = record commit { commit_id = compute_commit_id sha1 commit }

-- `seaf_commit_new` with no id, EMPTY_SHA1 as the creator's id, and the time 0, for which it takes
-- the time `now`.
unfoldable pub commit_new : (List ℕ → List ℕ) → ℕ → CString → CString → CString → CString → Commit
unfolding compute_commit_id
commit_new sha1 now repo_id root_id creator_name desc = with_id sha1 record {
  commit_id = [];
  repo_id = take 36 repo_id;
  root_id = take 40 root_id;
  desc = desc;
  creator_name = creator_name;
  creator_id = empty_sha1;
  ctime = now;
  parent_id = none;
  second_parent_id = none;
  attributes = no_attributes;
  new_merge = false;
  conflict = false;
}

-- The commits of each library by id.
abbrev pub Commits : Type 0
Commits = CString → CString → Option Commit

abbrev with_own_id : CString → Option Commit → Option Commit
with_own_id id none = none
with_own_id id (some commit) = some (record commit { commit_id = id })

-- `load_commit`: the commit is given the id that it was asked for.
unfoldable pub get_commit : Commits → CString → CString → Option Commit
get_commit commits repo_id id =
    if length id == 40 then with_own_id id (commits repo_id id) else none

abbrev pub add_new : Bool → Commit → Option Commit → Commits → Bool × Commits
add_new ok commit (some old) commits = (true, commits)
add_new true commit none commits = (
  true,
  λ r i. if str_eq r commit.repo_id && str_eq i commit.commit_id then some commit else commits r i,
)
add_new false commit none commits = (false, commits)

-- `seaf_commit_manager_add_commit` with `save_commit`: a commit whose id is there is not written
-- again. The flag is false for -1.
unfoldable pub add_commit : Bool → Commit → Commits → Bool × Commits
add_commit ok commit commits = add_new ok commit (commits commit.repo_id commit.commit_id) commits
