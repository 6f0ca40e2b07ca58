-- ===== src/Client.antt =====
-- src/net/client.rs: requests with a time limit and retries, and `BodyStreamer`. The two functions
-- that ask share the loop that the source writes out in each of them. Times are milliseconds.
pub mod Retries
pub mod Kept
pub mod Asking
pub mod Streams
use local_cache_proxy.Base.{
  ℕ, zero, suc, ◌+◌, ◌*◌, Option, none, some, Bool, true, false, ◌&&◌, List, [], ◌∷◌, ◌++◌, leb,
  if◌then◌else◌, ◌==◌, ◌>>=?◌,
}
use local_cache_proxy.Base.Result.{Result, ok, err}
use local_cache_proxy.Base.Text.{Text, codes, parse_u64}
use local_cache_proxy.World.{
  Env, World, Reply, Exchange, Sent, Method, get, head, HeaderValue, visible, opaque, Body,
  BodyPoll, Ending, complete, broken,
}
use local_cache_proxy.World.Disk.{Bytes}
use local_cache_proxy.World.Step.{Out, done, fail, Act, or_else, or_else_from, ◌>>=◌, return}

-- `Delay::new(Instant::now() + d)`, run to its end. Its own error is not modelled.
unfoldable pub delay {ℓ} :
    {C : Type 0} {A : Type ℓ} → ℕ → Act (World C) Text A → Act (World C) Text A
delay d next w = next (record w { now = w.now + d })

-- `if tries > 0 { ret.or_else(delay, then the same call with one try less) } else { ret }`
unfoldable pub with_retries {ℓ} :
    {C : Type 0} {A : Type ℓ}
    → Act (World C) Text A
    → (tries sleep_duration multiplier : ℕ) → Act (World C) Text A
unfolding delay
with_retries once zero sleep multiplier w = once w
with_retries once (suc tries) sleep multiplier w =
    or_else once (λ _. delay sleep (with_retries once tries (sleep * multiplier) multiplier)) w

-- `http_response.select(timeout)` with five seconds: the answer is polled first.
unfoldable pub select_answer : Exchange → Out Text Reply × ℕ
select_answer x = elim (leb x.after 5000) [
  | true ↦ (elim x.outcome [ ok r ↦ done r | err e ↦ fail e ], x.after)
  | false ↦ (fail (codes "Request timeout"), 5000)
]

module _ (env : Env) where
  unfoldable pub request : Method → Text → Bytes → Act (World env.Cache) Text Reply
  unfolding select_answer
  request method uri payload w =
      let asked = record { method = method; uri = uri; payload = payload } ∷ w.sent in
      let (out, elapsed) = select_answer (env.answer asked) in
      (out, record w { sent = asked; now = w.now + elapsed })

  unfoldable pub connect_for_file :
      Text → (tries sleep_duration multiplier : ℕ) → Act (World env.Cache) Text Reply
  unfolding with_retries request
  connect_for_file uri = with_retries (request get uri [])

-- The length of a present file, as the `HEAD` answer tells it.
unfoldable pub head_length : Reply → Option ℕ
head_length r =
    if r.status == 200
    then elim r.content_length [
      | none ↦ none
      | some h ↦ elim h [ visible t ↦ parse_u64 t | opaque ↦ none ]
    ]
    else none

module _ (env : Env) where
  unfoldable pub head_once : Text → Act (World env.Cache) Text (Option ℕ)
  unfolding request head_length
  head_once uri = request env head uri [] >>= λ r. return (head_length r)

  unfoldable pub connect_for_head :
      Text → (tries sleep_duration multiplier : ℕ) → Act (World env.Cache) Text (Option ℕ)
  unfolding with_retries head_once
  connect_for_head uri = with_retries (head_once uri)

-- `BodyStreamerError`
pub data BodyStreamerError : Type 0 where
  timeout_error : BodyStreamerError
  hyper_error : Text → BodyStreamerError

unfoldable pub description : BodyStreamerError → Text
description timeout_error = codes "Timeout making request"
description (hyper_error e) = e

-- `BodyStreamer`, up to its body: whether a timer has been set up.
pub record BodyStreamer : Type 0 where
  pub timeout_future : Bool

pub data Polled (A : Type 0) : Type 0 where
  ready : A → Polled A
  not_ready : Polled A
  failed : BodyStreamerError → Polled A

-- `BodyStreamer::poll`, given the timer's answer and the poll of the inner body.
unfoldable pub poll : {A : Type 0} → BodyStreamer → Bool → Polled A → Polled A × BodyStreamer
poll s fired inner =
    if s.timeout_future && fired
    then (failed timeout_error, s)
    else (inner, record s { timeout_future = true })

abbrev chunk_poll : Option Bytes → Polled (Option Bytes)
chunk_poll none = not_ready
chunk_poll (some b) = ready (some b)

abbrev end_poll : Ending → Polled (Option Bytes)
end_poll complete = ready none
end_poll (broken e) = failed (hyper_error e)

-- The consumer `for_each`: the bytes that it has written, and how the stream ended. A poll that
-- gives nothing is followed by the next one.
abbrev consumed :
    Polled (Option Bytes)
    → Bytes
    → Result BodyStreamerError (Unit {0}) × Bytes
    → Result BodyStreamerError (Unit {0}) × Bytes
consumed (ready none) acc later = (ok tt, acc)
consumed (ready (some b)) acc later = later
consumed not_ready acc later = later
consumed (failed e) acc later = (err e, acc)

abbrev appended : Polled (Option Bytes) → Bytes → Bytes
appended (ready (some b)) acc = acc ++ b
appended _ acc = acc

unfoldable pub stream_onto :
    BodyStreamer
    → List BodyPoll
    → Bool
    → Ending
    → Bytes
    → Result BodyStreamerError (Unit {0}) × Bytes
unfolding poll
stream_onto s [] end_fired ending acc =
    let (p, s') = poll s end_fired (end_poll ending) in consumed p acc (ok tt, acc)
stream_onto s (b ∷ bs) end_fired ending acc =
    let (p, s') = poll s b.fired (chunk_poll b.chunk) in
    consumed p acc (stream_onto s' bs end_fired ending (appended p acc))

-- `BodyStreamer::new(body).for_each(write_all)`
unfoldable pub stream_body : Body → Result BodyStreamerError (Unit {0}) × Bytes
unfolding stream_onto
stream_body b = stream_onto (record { timeout_future = false }) b.polls b.end_fired b.ending []
