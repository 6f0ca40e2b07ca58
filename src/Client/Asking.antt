-- ===== src/Client/Asking.antt =====
-- src/net/client.rs: what `connect_for_file` and `connect_for_head` ask of the upstream.
use local_cache_proxy.Base.{◌≡◌, refl, ℕ, zero, suc, ◌+◌, ◌*◌, ◌≤◌, [], ◌∷◌, arith, length}
use local_cache_proxy.Base.Text.{Text}
use local_cache_proxy.Base.Result.{ok}
use local_cache_proxy.World.{Env, World, Reply, Method, get}
use local_cache_proxy.World.Disk.{Bytes}
use local_cache_proxy.World.Step.{Out, done, fail, panic, Act}
use local_cache_proxy.Client.{
  with_retries, request, select_answer, connect_for_file, connect_for_head, head_once,
}
use local_cache_proxy.Client.Retries.{Attempt, backoff, with_retries-Attempt, with_retries_failed}

module _ (env : Env) where
  pub request-Attempt :
      (method : Method) (uri : Text) (payload : Bytes) (w : World env.Cache)
      → Attempt (request env method uri payload) 1 5000 w
  unfolding request
  request-Attempt method uri payload w = ground arith

  -- A request touches nothing but the log of requests and the clock.
  pub request_world :
      (method : Method) (uri : Text) (payload : Bytes) (w : World env.Cache)
      → let asked = record { method = method; uri = uri; payload = payload } ∷ w.sent in
        (request env method uri payload w).1
        ≡ record w { sent = asked; now = w.now + (select_answer (env.answer asked)).1 }
  unfolding request
  request_world method uri payload w = refl

  pub connect_for_file-Attempt :
      (uri : Text) (tries sleep multiplier : ℕ) (w : World env.Cache)
      → Attempt
          (connect_for_file env uri tries sleep multiplier)
          (suc tries * 1)
          (suc tries * 5000 + backoff tries sleep multiplier)
          w
  unfolding connect_for_file
  connect_for_file-Attempt uri =
      with_retries-Attempt (request env get uri []) 1 5000 (request-Attempt get uri [])

  -- `connect_for_file` sends between one and `tries + 1` requests, and takes at most five seconds
  -- for each and the time of its sleeps.
  pub connect_for_file_cost :
      (uri : Text) (tries sleep multiplier : ℕ) (w : World env.Cache)
      → let w' = (connect_for_file env uri tries sleep multiplier w).1 in
        (suc (length w.sent) ≤ length w'.sent)
        × (length w'.sent ≤ length w.sent + suc tries)
        × (w'.now ≤ w.now + (suc tries * 5000 + backoff tries sleep multiplier))
  connect_for_file_cost uri tries sleep multiplier w =
      omega (arith, connect_for_file-Attempt uri tries sleep multiplier w)

  -- A `connect_for_file` that fails has sent all of its `tries + 1` requests and has slept before
  -- each retry.
  connect_for_file_failed :
      (uri : Text) (tries sleep multiplier : ℕ) (w : World env.Cache) (e : Text)
      → (connect_for_file env uri tries sleep multiplier w).0 ≡ fail e
      → let w' = (connect_for_file env uri tries sleep multiplier w).1 in
        (length w'.sent ≡ length w.sent + suc tries)
        × (w.now + backoff tries sleep multiplier ≤ w'.now)
  unfolding connect_for_file
  connect_for_file_failed uri tries sleep multiplier w e h =
      with_retries_failed (request env get uri []) (request-Attempt get uri []) e tries sleep
        multiplier w h

  head_once-Attempt : (uri : Text) (w : World env.Cache) → Attempt (head_once env uri) 1 5000 w
  unfolding head_once
  head_once-Attempt uri w = ground arith

  pub connect_for_head-Attempt :
      (uri : Text) (tries sleep multiplier : ℕ) (w : World env.Cache)
      → Attempt
          (connect_for_head env uri tries sleep multiplier)
          (suc tries * 1)
          (suc tries * 5000 + backoff tries sleep multiplier)
          w
  unfolding connect_for_head
  connect_for_head-Attempt uri =
      with_retries-Attempt (head_once env uri) 1 5000 (head_once-Attempt uri)

  -- The last request was answered in time with this reply.
  abbrev pub Answered : Out Text Reply × World env.Cache → Type 0
  Answered (done r, w) = (env.answer w.sent).outcome ≡ ok r
  Answered (fail e, w) = Unit
  Answered (panic, w) = ⊥

  request-Answered :
      (method : Method) (uri : Text) (payload : Bytes) (w : World env.Cache)
      → Answered (request env method uri payload w)
  unfolding request
  request-Answered method uri payload w = ground arith

  with_retries-Answered :
      (once : Act (World env.Cache) Text Reply)
      → ((w : World env.Cache) → Answered (once w))
      → (tries sleep multiplier : ℕ) (w : World env.Cache)
      → Answered (with_retries once tries sleep multiplier w)
  unfolding with_retries
  with_retries-Answered once each zero sleep multiplier w = each w
  with_retries-Answered once each (suc tries) sleep multiplier w = ground (
    arith,
    each w,
    with_retries-Answered once each tries (sleep * multiplier) multiplier
        (record (once w).1 { now = (once w).1.now + sleep }),
  )

  -- A reply that `connect_for_file` returns is the upstream's answer to its last request.
  pub connect_for_file_answer :
      (uri : Text) (tries sleep multiplier : ℕ) (w : World env.Cache)
      → Answered (connect_for_file env uri tries sleep multiplier w)
  unfolding connect_for_file
  connect_for_file_answer uri =
      with_retries-Answered (request env get uri []) (request-Answered get uri [])
