-- ===== src/Fs/Reading.antt =====
-- What is read back of a directory that is written, of common/fs-mgr.c: `seaf_dir_save` with what
-- `seaf_dir_to_data` keeps of the entries and `seaf_dir_from_data` accepts.
use seafile_server.Base.{
  ℕ, Bool, true, false, Option, none, some, List, [], ◌∷◌, CString, str_eq, ◌==◌, ◌&&◌, length, map,
  if◌then◌else◌,
}
use seafile_server.Fs.{Dirent, SeafDir, Objects, is_reg, write_obj, empty_sha1}
use seafile_server.Hex.{is_object_id_valid}

-- `is_text` says which strings Jansson takes for a JSON string.
module _ (is_text : CString → Bool) (version : ℕ) where
  -- A file is written with its modifier and size, and is refused without a modifier.
  abbrev reread_file : Dirent → Option CString → Option Dirent
  reread_file dirent none = none
  reread_file dirent (some modifier) =
      if is_text modifier
      then some (record dirent { version = version; name_len = length dirent.name })
      else none

  -- `add_to_dirent_array`, then `parse_dirent`.
  unfoldable pub reread : Dirent → Option Dirent
  unfolding is_reg is_object_id_valid
  reread dirent =
      if is_object_id_valid dirent.id && is_text dirent.name
      then (if is_reg dirent.mode
          then reread_file dirent dirent.modifier
          else some (record dirent {
            version = version;
            name_len = length dirent.name;
            modifier = none;
            size = 0;
          }))
      else none

  abbrev reread_cons : Option Dirent → Option (List Dirent) → Option (List Dirent)
  reread_cons none rest = none
  reread_cons (some dirent) none = none
  reread_cons (some dirent) (some rest) = some (dirent ∷ rest)

  -- The loop: an entry that is refused makes the directory unreadable.
  unfoldable pub reread_all : List Dirent → Option (List Dirent)
  unfolding reread
  reread_all [] = some []
  reread_all (dirent ∷ ds) = reread_cons (reread dirent) (reread_all ds)

-- An entry of the first format, which keeps the mode, the id and the name, for names of 1 to 255
-- bytes: the C code does not read longer ones back.
abbrev plain_entry : Dirent → Dirent
plain_entry dirent = record dirent {
  version = 0;
  name_len = length dirent.name;
  mtime = 0;
  modifier = none;
  size = 0;
}

unfoldable pub read_back : (CString → Bool) → ℕ → List Dirent → Option (List Dirent)
unfolding reread_all
read_back is_text version entries =
    if version == 0 then some (map plain_entry entries) else reread_all is_text version entries

-- An object that cannot be read is as none.
abbrev pub write_new :
    Bool → Option SeafDir → Objects → SeafDir → Option (List Dirent) → Bool × Objects
write_new ok (some old) objects dir readable = (true, objects)
write_new false none objects dir readable = (false, objects)
write_new true none objects dir none = (true, objects)
write_new true none objects dir (some entries) =
    (true, write_obj objects (record dir { entries = entries }))

-- `seaf_dir_save`, where what is stored is what will be read.
unfoldable pub dir_write : (CString → Bool) → (CString → Bool) → Objects → SeafDir → Bool × Objects
unfolding read_back
dir_write write_ok is_text objects dir =
    if str_eq dir.dir_id empty_sha1
    then (true, objects)
    else write_new (write_ok dir.dir_id) (objects dir.dir_id) objects dir
        (read_back is_text dir.version dir.entries)
