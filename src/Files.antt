-- ===== src/Files.antt =====
-- The calls of `os` by which the daemon reads and replaces its files: devices_save_unix.go
-- (`atomicWrite0600`), devices_store_*.go, keys.go and migrate_devices_store_unix.go of cmd/novakey.
pub mod Laws
use nova_key_daemon.Common.{
  Bool, true, false, not, ◌||◌, Option, none, some, [], ◌++◌, if◌then◌else◌, Bytes, codes, ◌=?◌,
  bytes_dec, Result, ok, err,
}
use nova_key_daemon.Common.Dict.{Dict, lookup, insert, erase}

-- How the operating system answers. `partial` is what a write that fails leaves of the file: `none`
-- where it could not be opened. `dir` is `filepath.Dir`.
pub record Os : Type 0 where
  pub readable : Bytes → Bool
  pub writable : Bytes → Bool
  pub partial : Bytes → Option Bytes
  pub renames : Bytes → Bool
  pub removes : Bytes → Bool
  pub makes_dir : Bytes → Bool
  pub dir : Bytes → Bytes

pub data ReadError : Type 0 where
  not_exist unreadable : ReadError

pub data FileError : Type 0 where
  mkdir_failed write_failed rename_failed : FileError

abbrev read_found : Os → Bytes → Option Bytes → Result ReadError Bytes
read_found os path none = err not_exist
read_found os path (some b) = if os.readable path then ok b else err unreadable

-- `os.ReadFile`
unfoldable pub read_file : Os → Dict Bytes → Bytes → Result ReadError Bytes
unfolding lookup
read_file os files path = read_found os path (lookup path files)

abbrev left_behind : Option Bytes → Bytes → Dict Bytes → Dict Bytes
left_behind none path files = files
left_behind (some b) path files = insert path b files

-- `os.WriteFile`: whether it succeeds, and the files.
unfoldable pub write_file : Os → Bytes → Bytes → Dict Bytes → Bool × Dict Bytes
unfolding insert
write_file os path b files =
    if os.writable path
    then (true, insert path b files)
    else (false, left_behind (os.partial path) path files)

-- `os.Remove`, whose error the source drops.
unfoldable pub remove_file : Os → Bytes → Dict Bytes → Dict Bytes
unfolding erase
remove_file os path files = if os.removes path then erase path files else files

abbrev moved : Option Bytes → Bytes → Bytes → Dict Bytes → Bool × Dict Bytes
moved none from to files = (false, files)
moved (some b) from to files = (true, insert to b (erase from files))

-- `os.Rename`, which replaces the target.
unfoldable pub rename_file : Os → Bytes → Bytes → Dict Bytes → Bool × Dict Bytes
unfolding insert erase lookup
rename_file os from to files =
    if os.renames to then moved (lookup from files) from to files else (false, files)

abbrev pub tmp_of : Bytes → Bytes
tmp_of path = path ++ codes ".tmp"

abbrev renamed : Os → Bytes → Bool × Dict Bytes → Result FileError (Unit {0}) × Dict Bytes
renamed os path (true, files) = (ok tt, files)
renamed os path (false, files) = (err rename_failed, remove_file os (tmp_of path) files)

abbrev written : Os → Bytes → Bool × Dict Bytes → Result FileError (Unit {0}) × Dict Bytes
written os path (true, files) = renamed os path (rename_file os (tmp_of path) path files)
written os path (false, files) = (err write_failed, files)

-- Whether the directory is there, or is made.
abbrev pub dir_ready : Os → Bytes → Bool
dir_ready os path = (path =? []) || (path =? codes ".") || os.makes_dir path

unfoldable pub atomic_write_0600 :
    Os → Bytes → Bytes → Dict Bytes → Result FileError (Unit {0}) × Dict Bytes
unfolding write_file rename_file remove_file bytes_dec
atomic_write_0600 os path b files =
    if not (dir_ready os (os.dir path))
    then (err mkdir_failed, files)
    else written os path (write_file os (tmp_of path) b files)
