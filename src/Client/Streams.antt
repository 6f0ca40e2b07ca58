-- ===== src/Client/Streams.antt =====
-- src/net/client.rs: the bytes that the consumer of a `BodyStreamer` writes.
use mathlib.Core.List.{append_assoc, append-nil}
use local_cache_proxy.Base.{◌≡◌, Option, none, some, Bool, true, false, List, [], ◌∷◌, ◌++◌, arith}
use local_cache_proxy.Base.Result.{Result, ok, err}
use local_cache_proxy.World.{Body, BodyPoll, Ending, complete, broken}
use local_cache_proxy.World.Disk.{Bytes}
use local_cache_proxy.Client.{
  BodyStreamer, BodyStreamerError, hyper_error, poll, stream_onto, stream_body,
}

abbrev pub chunk_bytes : Option Bytes → Bytes
chunk_bytes none = []
chunk_bytes (some b) = b

-- All that the upstream sends.
abbrev pub chunks : List BodyPoll → Bytes
chunks [] = []
chunks (p ∷ ps) = chunk_bytes p.chunk ++ chunks ps

stream_onto_sound :
    (ps : List BodyPoll) (s : BodyStreamer) (fired : Bool) (ending : Ending) (acc : Bytes)
    → (stream_onto s ps fired ending acc).0 ≡ ok tt
    → (ending ≡ complete) × ((stream_onto s ps fired ending acc).1 ≡ acc ++ chunks ps)
unfolding stream_onto poll
stream_onto_sound [] s fired ending acc h = ground (arith, append-nil acc)
stream_onto_sound (p ∷ ps) s fired ending acc h = ground (
  arith,
  stream_onto_sound ps (record { timeout_future = true }) fired ending acc,
  stream_onto_sound ps (record { timeout_future = true }) fired ending (acc ++ chunk_bytes p.chunk),
  append_assoc acc (chunk_bytes p.chunk) (chunks ps),
)

-- A streaming of a body that succeeds has reached the end of the body and has written all of its
-- bytes.
pub stream_body_sound :
    (b : Body)
    → (stream_body b).0 ≡ ok tt
    → (b.ending ≡ complete) × ((stream_body b).1 ≡ chunks b.polls)
unfolding stream_body
stream_body_sound b h = stream_onto_sound b.polls _ b.end_fired b.ending [] h

abbrev pub Quiet : List BodyPoll → Type 0
Quiet [] = Unit
Quiet (p ∷ ps) = (p.fired ≡ false) × Quiet ps

abbrev pub ended : Ending → Result BodyStreamerError (Unit {0})
ended complete = ok tt
ended (broken e) = err (hyper_error e)

stream_onto-Quiet :
    (ps : List BodyPoll) (s : BodyStreamer) (ending : Ending) (acc : Bytes)
    → Quiet ps
    → stream_onto s ps false ending acc ≡ (ended ending, acc ++ chunks ps)
unfolding stream_onto poll
stream_onto-Quiet [] s ending acc q = ground (arith, append-nil acc)
stream_onto-Quiet (p ∷ ps) s ending acc q = ground (
  arith,
  stream_onto-Quiet ps (record { timeout_future = true }) ending acc q.1,
  stream_onto-Quiet ps (record { timeout_future = true }) ending (acc ++ chunk_bytes p.chunk) q.1,
  append_assoc acc (chunk_bytes p.chunk) (chunks ps),
)

-- Where no timer fires, every byte of the body is written and the outcome is that of the body.
stream_body-Quiet :
    (b : Body)
    → Quiet b.polls
    → b.end_fired ≡ false
    → stream_body b ≡ (ended b.ending, chunks b.polls)
unfolding stream_body
stream_body-Quiet b q e = rw e (stream_onto-Quiet b.polls _ b.ending [] q)
