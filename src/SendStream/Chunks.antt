-- ===== src/SendStream/Chunks.antt =====
-- src/net/buffered_send_stream.rs: the chunks of a file.
use mathlib.Core.List.{append_assoc, append-nil}
use local_cache_proxy.Base.{
  ◌≡◌, ◌≢◌, refl, sym, ap, ◌∙◌, ◌⊎◌, inl, inr, ℕ, zero, suc, ◌+◌, ◌≤◌, ◌<◌, true, false, List, [],
  ◌∷◌, ◌++◌, arith, length,
}
use local_cache_proxy.World.Disk.{Bytes}
use local_cache_proxy.SendStream.{
  Turn, not_ready, closed, read_fails, reads, finished, send_error, BufferedSendStream, take, drop,
  poll, read_size,
}

abbrev pub joined : List Bytes → Bytes
joined [] = []
joined (c ∷ cs) = c ++ joined cs

joined-append : (cs : List Bytes) (c : Bytes) → joined (cs ++ (c ∷ [])) ≡ joined cs ++ c
joined-append [] c = append-nil c
joined-append (b ∷ cs) c = rw (joined-append cs c) (sym (append_assoc b (joined cs) c))

take-append-drop : (n : ℕ) (s : Bytes) → take n s ++ drop n s ≡ s
take-append-drop zero s = refl
take-append-drop (suc n) [] = refl
take-append-drop (suc n) (b ∷ s) = rw (take-append-drop n s)

length-drop : (n : ℕ) (s : Bytes) → length s ≤ length (drop n s) + n
length-drop zero s = omega arith
length-drop (suc n) [] = omega arith
length-drop (suc n) (b ∷ s) = omega (arith, length-drop n s)

-- The file, as far as it is sent and as far as it is not read.
abbrev pub whole : BufferedSendStream → Bytes
whole s = joined s.chunks ++ s.unread

whole_after :
    (n : ℕ) (s : BufferedSendStream)
    → joined (s.chunks ++ (take n s.unread ∷ [])) ++ drop n s.unread ≡ whole s
whole_after n s = rw (joined-append s.chunks (take n s.unread)) (
    append_assoc (joined s.chunks) (take n s.unread) (drop n s.unread)
    ∙ ap (◌++◌ (joined s.chunks)) (take-append-drop n s.unread))

-- Unless the receiver refuses a chunk, a poll of the stream of a file keeps the chunks sent
-- followed by the bytes not read yet.
poll-whole :
    (ts : List Turn) (s : BufferedSendStream)
    → (poll ts s).0 ≢ send_error
    → whole (poll ts s).1 ≡ whole s
unfolding poll
poll-whole [] s h = refl
poll-whole (not_ready ∷ ts) s h = refl
poll-whole (closed ∷ ts) s h = refl
poll-whole (read_fails ∷ ts) s h = refl
poll-whole (reads count false ∷ ts) s h = ground arith
poll-whole (reads count true ∷ ts) s h = ground (
  arith,
  whole_after (read_size count) s,
  poll-whole ts (record {
    unread = drop (read_size count) s.unread;
    chunks = s.chunks ++ (take (read_size count) s.unread ∷ []);
  }),
)

-- The sender and the file never fail nor wait.
abbrev pub Smooth : List Turn → Type 0
Smooth [] = Unit
Smooth (reads count send_ok ∷ ts) = (send_ok ≡ true) × Smooth ts
Smooth (_ ∷ ts) = ⊥

read_size_pos : (count : ℕ) → 0 < read_size count
unfolding read_size
read_size_pos count = omega arith

drop_shorter :
    (n : ℕ) (s : Bytes)
    → 0 < n
    → (take n s ≡ []) × (s ≡ []) ⊎ (take n s ≢ []) × (length (drop n s) < length s)
drop_shorter zero s h = absurd (omega arith)
drop_shorter (suc n) [] h = inl (refl, refl)
drop_shorter (suc n) (b ∷ s) h = inr ((λ e. cc), omega (arith, length-drop_le n s))
  where
    length-drop_le : (k : ℕ) (t : Bytes) → length (drop k t) ≤ length t
    length-drop_le zero t = omega arith
    length-drop_le (suc k) [] = omega arith
    length-drop_le (suc k) (c ∷ t) = omega (arith, length-drop_le k t)

poll-Smooth :
    (ts : List Turn) (s : BufferedSendStream)
    → Smooth ts
    → length s.unread < length ts
    → ((poll ts s).0 ≡ finished) × ((poll ts s).1.unread ≡ [])
unfolding poll
poll-Smooth [] s m h = absurd (omega arith)
poll-Smooth (not_ready ∷ ts) s m h = absurd m
poll-Smooth (closed ∷ ts) s m h = absurd m
poll-Smooth (read_fails ∷ ts) s m h = absurd m
poll-Smooth (reads count send_ok ∷ ts) s m h = ground (
  arith,
  drop_shorter (read_size count) s.unread (read_size_pos count),
  poll-Smooth ts (record {
    unread = drop (read_size count) s.unread;
    chunks = s.chunks ++ (take (read_size count) s.unread ∷ []);
  }),
)

-- With a sender and a file that never fail nor wait, and more turns than the file has bytes, the
-- stream of a file ends and its chunks are the file.
pub poll_all :
    (ts : List Turn) (b : Bytes)
    → Smooth ts
    → length b < length ts
    → let (p, s) = poll ts (record { unread = b; chunks = [] }) in
      (p ≡ finished) × (joined s.chunks ≡ b)
poll_all ts b m h =
    let s : BufferedSendStream = record { unread = b; chunks = [] } in
    let (p, e) = poll-Smooth ts s m h in
    let sent = poll-whole ts s (λ x. cc) in
    (p, sym (append-nil (joined (poll ts s).1.chunks)) ∙ (rw e at sent))
