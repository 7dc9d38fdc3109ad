-- ===== src/Scan/Host.antt =====
-- filesystem.py: what the operating system answers, and the entry that is made of an answer.
use Prim.Native.Nat.{◌/◌, ◌%◌}
use steward_public.Base.{
  ℕ, Bool, true, false, Option, none, some, List, [], ◌∷◌, ◌++◌, ◌==◌, nat_eq, if◌then◌else◌,
  Result,
}
use steward_public.Base.Int.{ℤ, pos}
use steward_public.Base.Text.{Text, text, encode_strict}
use steward_public.Models.Status.{
  FilesystemObjectType, regular_file, directory, symlink, fifo, socket, character_device,
  block_device, unknown, FilesystemObservationStatus, observed,
}
use steward_public.Models.Entry.{FilesystemEntry}
use steward_public.Models.Config.{FilePath}

-- An `os.stat_result`, with what `os.readlink` and `os.access` say of the same path.
pub record Stat : Type 0 where
  pub st_mode : ℕ
  pub st_dev : ℤ
  pub st_ino : ℤ
  pub st_uid : ℤ
  pub st_gid : ℤ
  pub st_size : ℤ
  pub st_mtime_ns : ℤ
  pub st_ctime_ns : ℤ
  pub st_birthtime_ns : Option ℤ
  pub st_nlink : ℤ
  pub link_target : Option Text
  pub can_read : Bool
  pub can_write : Bool
  pub can_execute : Bool

-- An OSError: its number, that number as text, and its message.
pub record OsError : Type 0 where
  pub errno : ℕ
  pub errno_text : Text
  pub message : Text

-- The answer to `child.stat`, by the class of the exception.
pub data ChildStat : Type 0 where
  found : Stat → ChildStat
  file_not_found permission_error other_error : OsError → ChildStat

-- What `scan` raises: the strict `.encode()` of an entry's key refuses a lone surrogate, and
-- `root.is_dir()` raises an OSError that does not say that the root is missing.
pub data ScanError : Type 0 where
  unicode_encode_error : ScanError
  root_refused : OsError → ScanError

-- The file system and the clock: `late n` says whether the time is over at the n-th look at it.
pub record Host : Type 0 where
  pub is_dir : FilePath → Result OsError Bool
  pub lstat : FilePath → Result OsError Stat
  pub scandir : FilePath → Option (List Text)
  pub stat_child : FilePath → ChildStat
  pub late : ℕ → Bool

-- `stat.S_IFMT(mode)`, in units of 0o10000
abbrev pub format_of : ℕ → ℕ
format_of mode = mode / 4096 % 16

abbrev pub is_regular_mode : ℕ → Bool
is_regular_mode mode = format_of mode == 8

abbrev pub is_directory_mode : ℕ → Bool
is_directory_mode mode = format_of mode == 4

abbrev pub is_link_mode : ℕ → Bool
is_link_mode mode = format_of mode == 10

-- `_kind`
unfoldable pub kind : ℕ → FilesystemObjectType
kind mode =
    if is_regular_mode mode
    then regular_file
    else if is_directory_mode mode
    then directory
    else if is_link_mode mode
    then symlink
    else if format_of mode == 1
    then fifo
    else if format_of mode == 12
    then socket
    else if format_of mode == 2
    then character_device
    else if format_of mode == 6
    then block_device
    else unknown

-- the components below a root, joined by "/"; the root itself is "."
unfoldable pub as_posix : FilePath → Text
as_posix [] = text "."
as_posix (name ∷ []) = name
as_posix (name ∷ next ∷ rest) = name ++ b'/' ∷ as_posix (next ∷ rest)

abbrev is_none : Option (List ℕ) → Bool
is_none none = true
is_none (some bytes) = false

-- The key of an entry: `f"{snapshot_id}\0{scope_id}\0{relative}"`. Its bytes are hashed by the
-- argument `hash`, and the scan is ended where it has none.
abbrev pub entry_key : Text → Text → Text → Text
entry_key snapshot_id scope_id relative = snapshot_id ++ 0 ∷ scope_id ++ 0 ∷ relative

-- whether `.encode()` raises in the `_entry` call that makes the entry
abbrev pub is_unencodable : Text → FilesystemEntry → Bool
is_unencodable snapshot_id e =
    is_none (encode_strict (entry_key snapshot_id e.scope_id e.relative_path))

module _ (hash : Text → Text) (snapshot_id scope_id relative : Text) where
  -- `_entry` without a stat result, where `is_unencodable` does not say that it raises
  unfoldable pub entry_of_error : FilesystemObservationStatus → OsError → FilesystemEntry
  entry_of_error status error = record {
    entry_id = hash (entry_key snapshot_id scope_id relative);
    snapshot_id = snapshot_id;
    scope_id = scope_id;
    relative_path = relative;
    object_type = unknown;
    device_id = none;
    inode = none;
    mode = none;
    uid = none;
    gid = none;
    size_bytes = none;
    mtime_ns = none;
    ctime_ns = none;
    birthtime_ns = none;
    link_count = none;
    symlink_target_raw = none;
    readable = false;
    writable = false;
    executable = false;
    observation_status = status;
    error_code = some error.errno_text;
    error_message = some error.message;
    excluded = false;
    version_two = none;
  }

  -- `_entry` of a stat result, where `is_unencodable` does not say that it raises
  unfoldable pub entry_of_stat : Stat → Bool → FilesystemEntry
  entry_of_stat st excluded = record {
    entry_id = hash (entry_key snapshot_id scope_id relative);
    snapshot_id = snapshot_id;
    scope_id = scope_id;
    relative_path = relative;
    object_type = kind st.st_mode;
    device_id = some st.st_dev;
    inode = some st.st_ino;
    mode = some (pos st.st_mode);
    uid = some st.st_uid;
    gid = some st.st_gid;
    size_bytes = some st.st_size;
    mtime_ns = some st.st_mtime_ns;
    ctime_ns = some st.st_ctime_ns;
    birthtime_ns = st.st_birthtime_ns;
    link_count = some st.st_nlink;
    symlink_target_raw = if is_link_mode st.st_mode then st.link_target else none;
    readable = st.can_read;
    writable = st.can_write;
    executable = st.can_execute;
    observation_status = observed;
    error_code = none;
    error_message = none;
    excluded = excluded;
    version_two = none;
  }
