-- ===== src/World.antt =====
-- What the proxy acts on: the files of the machine, the upstream behind the HTTP client, the LRU
-- cache of the crate `lru_disk_cache`, the queue of the background uploader, the clock, and the
-- steps of a future. `Env` holds what is not in this repository.
pub mod Disk
pub mod Step
pub mod Keeps
use local_cache_proxy.Base.{ℕ, Option, Bool, List}
use local_cache_proxy.Base.Result.{Result}
use local_cache_proxy.Base.Text.{Text}
use local_cache_proxy.Config.{State}
use local_cache_proxy.Message.{Wire, MergeError}
use local_cache_proxy.World.Disk.{Files, Bytes, FileState}

-- What `HeaderValue::to_str` gives: the text, or an error.
pub data HeaderValue : Type 0 where
  visible : Text → HeaderValue
  opaque : HeaderValue

-- One poll of a body: a chunk, or not ready yet. `fired` is the answer of the timer that the
-- previous poll of a `BodyStreamer` set up.
pub record BodyPoll : Type 0 where
  pub fired : Bool
  pub chunk : Option Bytes

pub data Ending : Type 0 where
  complete : Ending
  broken : Text → Ending

-- The polls of a body up to its end.
pub record Body : Type 0 where
  pub polls : List BodyPoll
  pub end_fired : Bool
  pub ending : Ending

pub record Reply : Type 0 where
  pub status : ℕ
  pub content_length : Option HeaderValue
  pub body : Body

-- The upstream's answer to a request: when it comes, and the response or the error's description.
pub record Exchange : Type 0 where
  pub after : ℕ
  pub outcome : Result Text Reply

pub data Method : Type 0 where
  get head put other : Method

pub record Sent : Type 0 where
  pub method : Method
  pub uri : Text
  pub payload : Bytes

-- `UploadRequest`; the boxed closure reads the files when it is called.
pub record UploadRequest : Type 0 where
  pub uri : Text
  pub path : Text
  pub should_upload : Files → Bool

pub record World (C : Type 0) : Type 0 where
  pub files : Files
  pub lru_cache : C
  -- A panic while the lock on the cache is held poisons the lock.
  pub poisoned : Bool
  -- The requests sent so far, the last one first.
  pub sent : List Sent
  pub now : ℕ
  pub queue : List UploadRequest
  pub state : State

-- What `LruDiskCache::insert_file` does to the cache and to the files.
pub record Inserted (C : Type 0) : Type 0 where
  pub outcome : Result Text (Unit {0})
  pub cache : C
  pub files : Files

pub record Env : Type 1 where
  -- The coded streams of the crate `protobuf`, and what `to_string` makes of their errors.
  pub wire : Wire
  pub wire_error : MergeError wire.Error → Text
  -- What `to_string` makes of the error of opening a file in such a state.
  pub io_error : FileState → Text
  -- Whether the file system lets a file be created at a path where there is none.
  pub can_create : Text → Bool
  pub Cache : Type 0
  -- The cache, the files, the key and the path of the file to move in.
  pub insert_file : Cache → Files → Text → Text → Inserted Cache
  -- The answer to the last of the requests sent.
  pub answer : List Sent → Exchange
  -- The decimal text of `rand::random::<u64>()`.
  pub random : List Sent → Text
  -- `str::parse::<Uri>`, up to the text of the URI.
  pub parse_uri : Text → Result Text Text
  -- The folder of the `TempDir`.
  pub tmp_download_root : Text
  -- Whether the receiving half of the uploader's channel is still there.
  pub uploader_listens : Bool
