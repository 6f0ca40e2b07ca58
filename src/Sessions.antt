-- ===== src/Sessions.antt =====
-- src/net/downloader.rs: `save_file` in the small, for several clients at once. A step is one that
-- the executor makes of one client's future; between two steps of a client the others run. An open
-- file is its inode with an offset, so that two that are open for one path share what they write.
pub mod Files
pub mod Receiving
pub mod Alone
pub mod Race
pub mod Kept
pub mod Fine
pub mod Apart
use local_cache_proxy.Base.{
  ℕ, zero, suc, ◌+◌, Option, none, some, Bool, true, false, List, [], ◌∷◌, length, ◌==◌,
  if◌then◌else◌,
}
use local_cache_proxy.Base.Result.{Result, ok, err}
use local_cache_proxy.Base.Text.{Text, text_eq}
use local_cache_proxy.Config.{AppConfig}
use local_cache_proxy.Downloader.{creates}
use local_cache_proxy.World.{Env, Body, BodyPoll, Ending, complete, broken}
use local_cache_proxy.World.Disk as Disks
use local_cache_proxy.World.Disk.{Bytes, FileState, absent, file, join, path_exists}
use local_cache_proxy.World.Step.{Out, done, fail, panic}

pub record Handle : Type 0 where
  pub inode : ℕ
  pub offset : ℕ

-- The contents of the inodes, the inode at each path, and the next inode that is free.
pub record Disk : Type 0 where
  pub contents : ℕ → Bytes
  pub directory : Text → Option ℕ
  pub free : ℕ

abbrev pub content_at : Disk → Option ℕ → FileState
content_at d none = absent
content_at d (some i) = file (d.contents i)

-- The files by their paths.
unfoldable pub view : Disk → Disks.Files
view d p = content_at d (d.directory p)

unfoldable pub put_content : ℕ → Bytes → Disk → Disk
put_content i b d = record d { contents = λ j. if j == i then b else d.contents j }

unfoldable pub link : Text → ℕ → Disk → Disk
link path i d = record d { directory = λ p. if text_eq p path then some i else d.directory p }

create_at : Option ℕ → Text → Disk → Handle × Disk
create_at (some i) path d = (record { inode = i; offset = 0 }, put_content i [] d)
create_at none path d = (
  record { inode = d.free; offset = 0 },
  record (link path d.free (put_content d.free [] d)) { free = suc d.free },
)

-- `File::create`, of a path at which it can be opened.
unfoldable pub create : Text → Disk → Handle × Disk
unfolding create_at put_content link
create path d = create_at (d.directory path) path d

abbrev overwrite : Bytes → Bytes → Bytes
overwrite old [] = old
overwrite [] (c ∷ cs) = c ∷ cs
overwrite (b ∷ old) (c ∷ cs) = c ∷ overwrite old cs

-- The bytes go over what is at the offset; a gap before it is filled with zeros.
abbrev write_at : Bytes → ℕ → Bytes → Bytes
write_at old zero chunk = overwrite old chunk
write_at [] (suc n) [] = []
write_at [] (suc n) (c ∷ cs) = 0 ∷ write_at [] n (c ∷ cs)
write_at (b ∷ old) (suc n) chunk = b ∷ write_at old n chunk

-- `write_all`
unfoldable pub write_all : Handle → Bytes → Disk → Handle × Disk
unfolding put_content
write_all h chunk d = (
  record h { offset = h.offset + length chunk },
  put_content h.inode (write_at (d.contents h.inode) h.offset chunk) d,
)

-- A client's `PUT`, and how far it has come.
pub record Client : Type 0 where
  pub name : Text
  pub body : Body

pub data Phase : Type 0 where
  waiting : Phase
  receiving : Handle → List BodyPoll → Phase
  finished : Out Text (Option Text) → Phase

pub record Saves (C : Type 0) : Type 0 where
  pub disk : Disk
  pub lru_cache : C
  pub poisoned : Bool
  pub phases : ℕ → Phase

-- What `LruDiskCache::insert_file` does to the cache and to the disk.
pub record Inserting (C : Type 0) : Type 0 where
  pub outcome : Result Text (Unit {0})
  pub cache : C
  pub disk : Disk

abbrev pub to_phase : {C : Type 0} → ℕ → Phase → Saves C → Saves C
to_phase k x s = record s { phases = λ j. if j == k then x else s.phases j }

abbrev pub chunk_of : BodyPoll → Bytes
chunk_of p = elim p.chunk [ none ↦ [] | some b ↦ b ]

module _ (env : Env) (config : AppConfig)
    (insert : env.Cache → Disk → Text → Text → Inserting env.Cache) (clients : ℕ → Client) where
  begin : ℕ → Saves env.Cache → Saves env.Cache
  begin k s =
      let path = join env.tmp_download_root (clients k).name in
      if creates (env.can_create path) (view s.disk path)
      then (let x = create path s.disk in
          to_phase k (receiving x.0 (clients k).body.polls) (record s { disk = x.1 }))
      else to_phase k (finished panic) s

  inserted : ℕ → Result Text (Unit {0}) → Inserting env.Cache → Saves env.Cache → Saves env.Cache
  inserted k (ok _) i s =
      to_phase k (finished (done (some (clients k).name)))
        (record s { disk = i.disk; lru_cache = i.cache })
  inserted k (err e) i s =
      to_phase k (finished panic) (record s { disk = i.disk; lru_cache = i.cache; poisoned = true })

  -- The lock on the cache is held for the whole of this step.
  keep : ℕ → Saves env.Cache → Saves env.Cache
  keep k s =
      let name = (clients k).name in
      if s.poisoned
      then to_phase k (finished panic) s
      else if path_exists (view s.disk) (join config.cache_folder name)
      then to_phase k (finished (done none)) s
      else (let i = insert s.lru_cache s.disk name (join env.tmp_download_root name) in
          inserted k i.outcome i s)

  end_of : ℕ → Ending → Saves env.Cache → Saves env.Cache
  end_of k complete s = keep k s
  end_of k (broken e) s = to_phase k (finished (fail e)) s

  step_from : ℕ → Phase → Saves env.Cache → Saves env.Cache
  step_from k waiting s = begin k s
  step_from k (receiving h (p ∷ ps)) s =
      let x = write_all h (chunk_of p) s.disk in
      to_phase k (receiving x.0 ps) (record s { disk = x.1 })
  step_from k (receiving h []) s = end_of k (clients k).body.ending s
  step_from k (finished o) s = s

  -- The next step of one client.
  unfoldable pub step : ℕ → Saves env.Cache → Saves env.Cache
  unfolding step_from begin end_of keep inserted
  step k s = step_from k (s.phases k) s

  -- The steps of the clients in the order of the list.
  unfoldable pub run : List ℕ → Saves env.Cache → Saves env.Cache
  run [] s = s
  run (k ∷ ks) s = run ks (step k s)
