-- ===== src/SendStream.antt =====
-- src/net/buffered_send_stream.rs: the task that streams an open file into the body of a response.
pub mod Chunks
use local_cache_proxy.Base.{
  ℕ, zero, suc, ◌+◌, Bool, true, false, List, [], ◌∷◌, ◌++◌, if◌then◌else◌,
}
use local_cache_proxy.World.Disk.{Bytes}

abbrev pub take : ℕ → Bytes → Bytes
take zero s = []
take (suc n) [] = []
take (suc n) (b ∷ s) = b ∷ take n s

abbrev pub drop : ℕ → Bytes → Bytes
drop zero s = s
drop (suc n) [] = []
drop (suc n) (b ∷ s) = drop n s

-- One turn of the loop, as its environment answers: `poll_ready` of the sender, then `read` of the
-- file, which gives up to as many bytes as it is told to and at least one before the end of the
-- file, then `send_data`.
pub data Turn : Type 0 where
  not_ready : Turn
  closed : Turn
  read_fails : Turn
  reads : (count : ℕ) (send_ok : Bool) → Turn

pub data Poll : Type 0 where
  pending : Poll
  finished : Poll
  send_error : Poll

-- The part of the file that is not read yet, and the chunks sent.
pub record BufferedSendStream : Type 0 where
  pub unread : Bytes
  pub chunks : List Bytes

-- The bytes that one read gives: `count + 1`, but 4096 at most, and what there is.
unfoldable pub read_size : ℕ → ℕ
read_size count = Prim.Native.Nat.min (count + 1) 4096

after_read :
    Bytes
    → Bytes
    → Bool
    → BufferedSendStream
    → (BufferedSendStream → Poll × BufferedSendStream)
    → Poll × BufferedSendStream
after_read [] rest send_ok s more = (finished, s)
after_read (b ∷ bs) rest true s more =
    more (record { unread = rest; chunks = s.chunks ++ ((b ∷ bs) ∷ []) })
after_read (b ∷ bs) rest false s more = (send_error, record s { unread = rest })

-- `BufferedSendStream::poll`, over the turns of one poll.
unfoldable pub poll : List Turn → BufferedSendStream → Poll × BufferedSendStream
unfolding after_read read_size
poll [] s = (pending, s)
poll (not_ready ∷ ts) s = (pending, s)
poll (closed ∷ ts) s = (finished, s)
poll (read_fails ∷ ts) s = (finished, s)
poll (reads count send_ok ∷ ts) s =
    after_read (take (read_size count) s.unread) (drop (read_size count) s.unread) send_ok s
      (poll ts)
