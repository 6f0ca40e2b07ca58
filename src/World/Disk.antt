-- ===== src/World/Disk.antt =====
-- The files by their paths, and what `std::fs` says of them. A path is a text; the cache folder is
-- configured without a slash at its end, so `Path::join` and `format!("{}/{}")` agree. No directory
-- stands where the proxy looks for a file.
use local_cache_proxy.Base.{
  ◌≡◌, ℕ, ◌≢◌, Option, none, some, Bool, true, false, List, ◌∷◌, ◌++◌, arith, length, if◌then◌else◌,
}
use local_cache_proxy.Base.Text.{Text, text_eq, text_eq_iff, text_eq_refl}

abbrev pub Bytes : Type 0
Bytes = List ℕ

-- `denied` and `unreadable`: `fs::metadata` fails with `PermissionDenied`, or with an error that is
-- neither this nor `NotFound`.
pub data FileState : Type 0 where
  absent : FileState
  file : Bytes → FileState
  denied : FileState
  unreadable : FileState

abbrev pub Files : Type 0
Files = Text → FileState

unfoldable pub write : Files → Text → FileState → Files
write files path content p = if text_eq p path then content else files p

unfoldable pub join : Text → Text → Text
join folder name = folder ++ (b'/' ∷ name)

abbrev pub size_of : FileState → Option ℕ
size_of (file b) = some (length b)
size_of _ = none

-- `current_file_size`
unfoldable pub current_file_size : Files → Text → Option ℕ
current_file_size files path = size_of (files path)

abbrev pub is_file : FileState → Bool
is_file (file b) = true
is_file _ = false

-- `path_exists` of client.rs
unfoldable pub path_exists : Files → Text → Bool
path_exists files path = is_file (files path)

pub write_self :
    (files : Files) (path : Text) (content : FileState) → write files path content path ≡ content
unfolding write
write_self files path content = rw text_eq_refl

pub write_other :
    (files : Files) (path p : Text) (content : FileState)
    → p ≢ path
    → write files path content p ≡ files p
unfolding write
write_other files path p content h = ground (arith, text_eq_iff p path)
