-- ===== src/Tests/Store.antt =====
-- A store for edits of a small library, in which every entry can be read back.
use seafile_server.Base.{
  ℕ, ◌+◌, ◌*◌, ◌%◌, ◌≡◌, ◌≢◌, refl, sym, ◌∙◌, ◌⊎◌, inl, inr, true, false, Option, none, some, List,
  [], ◌∷◌, ◌++◌, CString, codes, length, replicate, str_eq, str_eq_iff, arith, if◌then◌else◌,
}
use mathlib.Core.Path.{subst}
use mathlib.Core.Bool.{false≢true}
use seafile_server.Fs.{Dirent, SeafDir, Objects, empty_sha1}
use seafile_server.Fs.Reading.{read_back}
use seafile_server.Hex.{hex_digit}
use seafile_server.Merge.Trees.{dir_version_from_repo_version}
use seafile_server.Edit.{EditEnv}
use seafile_server.Edit.Paths.{Works}

-- The last character of an id.
abbrev last_of : CString → ℕ
last_of [] = 0
last_of (c ∷ []) = c
last_of (c ∷ d ∷ id) = last_of (d ∷ id)

abbrev weigh : List Dirent → ℕ
weigh [] = 0
weigh (d ∷ ds) = (length d.name + 5 * last_of d.id) + weigh ds

-- An id of 40 digits, of which the last varies.
abbrev pub id_of_digit : ℕ → CString
id_of_digit c = replicate 39 b'a' ++ c ∷ []

abbrev pub env : EditEnv
env = record {
  version = 1;
  checksum = λ version entries. id_of_digit (hex_digit (weigh entries % 16));
  write_ok = λ id. true;
  is_text = λ text. true;
  now = λ names. 99;
}

abbrev pub file : CString → CString → Dirent
file name id = record {
  version = 1;
  mode = 0x81A4;
  id = id;
  name_len = length name;
  name = name;
  mtime = 7;
  modifier = some (codes "ann");
  size = 4;
}

abbrev pub folder : CString → CString → Dirent
folder name id = record {
  version = 1;
  mode = 0x4000;
  id = id;
  name_len = length name;
  name = name;
  mtime = 7;
  modifier = none;
  size = 0;
}

abbrev pub readme : Dirent
readme = file (codes "readme") (id_of_digit b'1')

abbrev pub draft : Dirent
draft = file (codes "a.txt") (id_of_digit b'2')

abbrev pub docs_entries : List Dirent
docs_entries = readme ∷ draft ∷ []

abbrev pub docs_id : CString
docs_id = env.checksum 1 docs_entries

abbrev pub root_entries : List Dirent
root_entries = folder (codes "docs") docs_id ∷ folder (codes "alias") docs_id ∷ []

abbrev pub top_id : CString
top_id = env.checksum 1 root_entries

abbrev pub dir_at : CString → List Dirent → SeafDir
dir_at id entries = record { version = 1; dir_id = id; entries = entries }

-- Two directories with the same contents, under one id.
abbrev pub objects : Objects
objects id =
    if str_eq id docs_id
    then some (dir_at docs_id docs_entries)
    else if str_eq id top_id
    then some (dir_at top_id root_entries)
    else none

-- One of two directories.
abbrev pub OneOf : List Dirent → List Dirent → List Dirent → Type 0
OneOf one two entries = (entries ≡ one) ⊎ (entries ≡ two)

abbrev pub id_in : List Dirent → CString
id_in entries = env.checksum (dir_version_from_repo_version 1) entries

-- What is evaluated of a directory that is made.
abbrev pub IsNew : List Dirent → Type 0
IsNew entries =
    (objects (id_in entries) ≡ none)
    × (str_eq (id_in entries) empty_sha1 ≡ false)
    × (read_back env.is_text (dir_version_from_repo_version 1) entries ≡ some entries)

differ : (a b : CString) → str_eq a b ≡ false → a ≢ b
differ a b h = λ e. absurd (false≢true (sym h ∙ (str_eq_iff a b).1 e))

of_each :
    (P : List Dirent → Type 0) (one two : List Dirent)
    → P one
    → P two
    → (entries : List Dirent) → OneOf one two entries
    → P entries
of_each P one two h k entries (inl e) = subst P (sym e) h
of_each P one two h k entries (inr e) = subst P (sym e) k

absent :
    (o : Option SeafDir) (a : List Dirent) {t : SeafDir} → o ≡ none → o ≡ some t → t.entries ≡ a
absent o a h k = cc

pub OneOf-Works :
    (one two : List Dirent)
    → IsNew one
    → IsNew two
    → str_eq (id_in one) (id_in two) ≡ false
    → Works env (OneOf one two) objects
OneOf-Works one two (free1, named1, read1) (free2, named2, read2) apart = record {
  distinct = λ a b in_a in_b.
      of_each (λ x. id_in x ≡ id_in b → x ≡ b) one two
        (of_each (λ y. id_in one ≡ id_in y → one ≡ y) one two (λ h. refl)
          (λ h. absurd (differ (id_in one) (id_in two) apart h)) b in_b)
        (of_each (λ y. id_in two ≡ id_in y → two ≡ y) one two
          (λ h. absurd (differ (id_in one) (id_in two) apart (sym h))) (λ h. refl) b in_b)
        a in_a;
  held = λ a t in_a h.
      absent (objects (id_in a)) a
        (of_each (λ x. objects (id_in x) ≡ none) one two free1 free2 a in_a) h;
  not_empty = λ d ds in_d.
      of_each (λ x. id_in x ≢ empty_sha1) one two (differ (id_in one) empty_sha1 named1)
        (differ (id_in two) empty_sha1 named2) (d ∷ ds) in_d;
  takes = λ a in_a. refl;
  readable = λ a in_a.
      of_each (λ x. read_back env.is_text (dir_version_from_repo_version 1) x ≡ some x) one two
        read1 read2 a in_a;
  keeps_times = omega arith;
}
