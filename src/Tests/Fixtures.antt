-- ===== src/Tests/Fixtures.antt =====
-- A small wire format, an environment and a configuration for the tests.
use local_cache_proxy.Base.{
  ℕ, zero, suc, ◌+◌, ◌≤◌, none, some, Bool, true, false, [], ◌∷◌, arith, length, ◌==◌,
  if◌then◌else◌, not,
}
use local_cache_proxy.Base.Int.{ℤ, pos, negsuc}
use local_cache_proxy.Base.Result.{Result, ok, err}
use local_cache_proxy.Base.Text.{Text, codes}
use local_cache_proxy.Config.{AppConfig}
use local_cache_proxy.Downloader.Fetch.{Inserts}
use local_cache_proxy.Message.{Wire, WireType, varint, length_delimited}
use local_cache_proxy.Message.Lawful.{IsLawful, Leaves}
use local_cache_proxy.SendStream.{take, drop}
use local_cache_proxy.World.{Env, World, Reply, Body, complete, broken, visible, Inserted}
use local_cache_proxy.World.Disk.{Bytes, Files, absent, write, write_self, join}

-- A tag is a number of which the last binary digit tells the wire type, a length is a number.
abbrev pub tag_number : ℕ → ℕ
tag_number zero = 0
tag_number (suc zero) = 0
tag_number (suc (suc t)) = suc (tag_number t)

abbrev pub tag_type : ℕ → WireType
tag_type zero = varint
tag_type (suc zero) = length_delimited
tag_type (suc (suc t)) = tag_type t

abbrev pub double : ℕ → ℕ
double zero = 0
double (suc n) = suc (suc (double n))

abbrev read_tag : Bytes → Result Text ((ℕ × WireType) × Bytes)
read_tag [] = err (codes "tag")
read_tag (t ∷ s) = ok ((tag_number t, tag_type t), s)

abbrev read_byte : {A : Type 0} → (ℕ → A) → Bytes → Result Text (A × Bytes)
read_byte f [] = err (codes "byte")
read_byte f (b ∷ s) = ok (f b, s)

abbrev read_many : Bytes → Result Text (Bytes × Bytes)
read_many [] = err (codes "length")
read_many (n ∷ s) = ok (take n s, drop n s)

abbrev skip_many : Bytes → Result Text (Unit {0} × Bytes)
skip_many [] = err (codes "unknown")
skip_many (n ∷ s) = ok (tt, drop n s)

-- A sign and a number.
abbrev read_int : Bytes → Result Text (ℤ × Bytes)
read_int (zero ∷ n ∷ s) = ok (pos n, s)
read_int (suc k ∷ n ∷ s) = ok (negsuc n, s)
read_int _ = err (codes "int")

abbrev int_bytes : ℤ → Bytes
int_bytes (pos n) = 0 ∷ n ∷ []
int_bytes (negsuc n) = 1 ∷ n ∷ []

abbrev pub small_wire : Wire
small_wire = record {
  Error = Text;
  UnknownFields = Unit {0};
  no_unknown = tt;
  unexpected_wire_type = λ _. codes "type";
  read_tag_unpack = read_tag;
  read_bool = read_byte (λ b. not (b == 0));
  read_int32 = read_int;
  read_int64 = read_int;
  read_string = λ _. read_many;
  read_bytes = λ _. read_many;
  read_message = λ _. read_many;
  read_unknown = λ _ _ _. skip_many;
  write_tag = λ n _. suc (double n) ∷ [];
  write_raw_varint32 = λ n. n ∷ [];
  write_string = λ n v. suc (double n) ∷ length v ∷ v;
  write_bytes = λ n v. suc (double n) ∷ length v ∷ v;
  write_bool = λ n v. double n ∷ (if v then 1 else 0) ∷ [];
  write_int32 = λ n v. double n ∷ int_bytes v;
  write_int64 = λ n v. double n ∷ int_bytes v;
  write_unknown_fields = λ _. [];
  string_size = λ _ v. 2 + length v;
  bytes_size = λ _ v. 2 + length v;
  value_size32 = λ _ _. 3;
  value_size64 = λ _ _. 3;
  compute_raw_varint32_size = λ _. 1;
  unknown_fields_size = λ _. 0;
}

pub length-drop : (n : ℕ) (s : Bytes) → length (drop n s) ≤ length s
length-drop zero s = omega arith
length-drop (suc n) [] = omega arith
length-drop (suc n) (b ∷ s) = omega (arith, length-drop n s)

read_many_lem : (n : ℕ) (s : Bytes) → length (drop n s) ≤ suc (length s)
read_many_lem n s = omega (arith, length-drop n s)

pub small_wire-IsLawful : IsLawful small_wire
small_wire-IsLawful = record {
  tag = λ b bs. tag b bs;
  bool = λ s. byte _ s;
  int32 = int;
  int64 = int;
  string = λ _ s. many s;
  bytes = λ _ s. many s;
  message = λ _ s. many s;
  unknown = λ _ _ _ s. skip s;
}
  where
    tag : (b : ℕ) (bs : Bytes) → Leaves small_wire (length bs) (read_tag (b ∷ bs))
    tag b s = omega arith

    byte : {A : Type 0} (f : ℕ → A) (s : Bytes) → Leaves small_wire (length s) (read_byte f s)
    byte f [] = tt
    byte f (b ∷ s) = omega arith

    int : (s : Bytes) → Leaves small_wire (length s) (read_int s)
    int [] = tt
    int (zero ∷ []) = tt
    int (suc k ∷ []) = tt
    int (zero ∷ n ∷ s) = omega arith
    int (suc k ∷ n ∷ s) = omega arith

    many : (s : Bytes) → Leaves small_wire (length s) (read_many s)
    many [] = tt
    many (n ∷ s) = read_many_lem n s

    skip : (s : Bytes) → Leaves small_wire (length s) (skip_many s)
    skip [] = tt
    skip (n ∷ s) = read_many_lem n s

-- A cache that is full, or moves the file in.
abbrev pub folder : Text
folder = codes "/c"

abbrev move_in : Bool → Files → Text → Text → Inserted Bool
move_in true files name path = record { outcome = err (codes "full"); cache = true; files = files }
move_in false files name path = record {
  outcome = ok tt;
  cache = false;
  files = write (write files path absent) (join folder name) (files path);
}

-- The upstream gives the same reply to every request.
abbrev pub env_of : Reply → Env
env_of reply = record {
  wire = small_wire;
  wire_error = λ _. codes "wire";
  io_error = λ _. codes "io";
  can_create = λ _. true;
  Cache = Bool;
  insert_file = move_in;
  answer = λ _. record { after = 7; outcome = ok reply };
  random = λ _. codes "4711";
  parse_uri = λ t. ok t;
  tmp_download_root = codes "/tmp";
  uploader_listens = true;
}

abbrev pub config : AppConfig
config = record {
  upstream = codes "http://up/";
  proxy = none;
  bind_target = codes "http://localhost:10487";
  cache_folder = folder;
  cache_folder_size = 1000;
  maximum_download_size = 100;
  maximum_upload_size = 100;
  idle_time_terminate = some 600000;
}

pub move_in-Inserts : (reply : Reply) → Inserts (env_of reply) folder
move_in-Inserts reply true files name path o = absurd (cc)
move_in-Inserts reply false files name path o =
    write_self (write files path absent) (join folder name) (files path)

abbrev pub world_with : Bool → Files → World Bool
world_with full files = record {
  files = files;
  lru_cache = full;
  poisoned = false;
  sent = [];
  now = 1000000;
  queue = [];
  state = record { last_user_facing_request = 0; last_background_upload = 0 };
}

abbrev pub no_files : Files
no_files = λ _. absent

abbrev pub abc : Bytes
abc = codes "abc"

abbrev pub whole_body : Body
whole_body = record {
  polls = record { fired = false; chunk = some abc } ∷ [];
  end_fired = false;
  ending = complete;
}

abbrev pub broken_body : Body
broken_body = record {
  polls = whole_body.polls;
  end_fired = false;
  ending = broken (codes "reset");
}

abbrev pub found_reply : Reply
found_reply = record {
  status = 200;
  content_length = some (visible (codes "3"));
  body = whole_body;
}

abbrev pub unsized_reply : Reply
unsized_reply = record { status = 200; content_length = none; body = whole_body }
