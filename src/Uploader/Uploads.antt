-- ===== src/Uploader/Uploads.antt =====
-- src/net/background_uploader.rs: what one upload asks of the upstream.
use local_cache_proxy.Base.{
  ◌≡◌, refl, ◌∙◌, ap, ℕ, ◌+◌, ◌≤◌, Option, none, some, List, [], ◌∷◌, le→leb, ltb, Bool-cases, inl,
  inr,
}
use local_cache_proxy.Base.Result.{ok}
use local_cache_proxy.Base.Text.{Text, codes}
use local_cache_proxy.Client.{
  request, select_answer, connect_for_head, head_once, head_length, with_retries,
}
use local_cache_proxy.Client.Retries.{with_retries-keeps}
use local_cache_proxy.Uploader.{
  Job, timer, asks, raw_upload_file, put_state, upload_unless, run_upload_file, answered,
  start_upload, go_on, poll_future,
}
use local_cache_proxy.World.{Env, World, head, put, Reply, Exchange, Sent, UploadRequest}
use local_cache_proxy.World.Disk.{Bytes, FileState, file}
use local_cache_proxy.World.Step.{Out, done, fail, panic, and_then_from, or_else_from}

select_in_time :
    (x : Exchange) (res : Reply)
    → x.outcome ≡ ok res
    → x.after ≤ 5000
    → select_answer x ≡ (done res, x.after)
unfolding select_answer
select_in_time x res a t = rw (le→leb x.after 5000 t, select_answer) (rw a refl)

module _ (env : Env) where
  returned :
      {A B : Type 0} (x : Out Text A × World env.Cache) (f : A → B)
      → (and_then_from x (λ a v. (done (f a), v))).1 ≡ x.1
  returned (done a, v) f = refl
  returned (fail e, v) f = refl
  returned (panic, v) f = refl

  handled :
      {A : Type 0} (x : Out Text A × World env.Cache) (d : Text)
      → (or_else_from {F = Text} x (λ _ v. (fail d, v))).1 ≡ x.1
  handled (done a, v) d = refl
  handled (fail e, v) d = refl
  handled (panic, v) d = refl

  raw_upload_sent :
      (uri path : Text) (b : Bytes) (w : World env.Cache)
      → w.files path ≡ file b
      → (raw_upload_file env uri path w).1.sent
        ≡ record { method = put; uri = uri; payload = b } ∷ w.sent
  unfolding raw_upload_file put_state
  raw_upload_sent uri path b w f = rw f refl

module _ (env : Env) (uri path : Text) (w : World env.Cache) where
  -- The reply to the first `HEAD`.
  abbrev pub asked_head : List Sent
  asked_head = record { method = head; uri = uri; payload = [] } ∷ w.sent

  -- The world once that reply is there.
  abbrev told_head : World env.Cache
  told_head = record w { sent = asked_head; now = w.now + (env.answer asked_head).after }

  request_in_time :
      (res : Reply)
      → (env.answer asked_head).outcome ≡ ok res
      → (env.answer asked_head).after ≤ 5000
      → request env head uri [] w ≡ (done res, told_head)
  unfolding request
  request_in_time res a t = rw (select_in_time (env.answer asked_head) res a t) refl

  head_unsized :
      (res : Reply)
      → (env.answer asked_head).outcome ≡ ok res
      → (env.answer asked_head).after ≤ 5000
      → res.status ≡ 200
      → res.content_length ≡ none
      → head_once env uri w ≡ (done none, told_head)
  unfolding head_once head_length
  head_unsized res a t s c = rw (request_in_time res a t) (rw (s, c) refl)

  connect_unsized :
      head_once env uri w ≡ (done none, told_head)
      → connect_for_head env uri 10 500 4 w ≡ (done none, told_head)
  unfolding connect_for_head with_retries
  connect_unsized h = rw h refl

  -- If the upstream answers the first `HEAD` within five seconds with 200 but without a content
  -- length, the file is sent all the same: the upload's requests are that `HEAD` and a `PUT` with
  -- the file's bytes.
  pub upload_unsized :
      (b : Bytes) (res : Reply)
      → (env.answer asked_head).outcome ≡ ok res
      → (env.answer asked_head).after ≤ 5000
      → res.status ≡ 200
      → res.content_length ≡ none
      → w.files path ≡ file b
      → (run_upload_file env uri path w).1.sent
        ≡ record { method = put; uri = uri; payload = b } ∷ asked_head
  unfolding run_upload_file upload_unless raw_upload_file
  upload_unsized b res a t s c f = rw (connect_unsized (head_unsized res a t s c)) (
      ap (λ (x : World env.Cache). x.sent) (handled env (raw_upload_file env uri path told_head) _)
      ∙ raw_upload_sent env uri path b told_head f)

module _ (env : Env) where
  -- The world without the log of requests and the clock.
  abbrev pub standing : World env.Cache → World env.Cache
  standing w = record w { sent = []; now = 0 }

  abbrev pub Quiet : World env.Cache → World env.Cache → Type 0
  Quiet w w' = standing w' ≡ standing w

  raw_upload_file-Quiet :
      (uri path : Text) (w : World env.Cache) → Quiet w (raw_upload_file env uri path w).1
  unfolding raw_upload_file put_state answered
  raw_upload_file-Quiet uri path w = by_state (w.files path)
    where
      by_state : (st : FileState) → Quiet w (put_state env st uri w).1
      by_state (file b) = refl
      by_state _ = refl

  connect_for_head-Quiet :
      (uri : Text) (n s m : ℕ) (w : World env.Cache) → Quiet w (connect_for_head env uri n s m w).1
  unfolding connect_for_head head_once request
  connect_for_head-Quiet uri n s m w =
      with_retries-keeps (head_once env uri) standing
        (λ v. ap standing (returned env (request env head uri [] v) _)) (λ _ _. refl) n s m w

  pub run_upload_file-Quiet :
      (uri path : Text) (w : World env.Cache) → Quiet w (run_upload_file env uri path w).1
  unfolding run_upload_file upload_unless
  run_upload_file-Quiet uri path w =
      then_upload (connect_for_head env uri 10 500 4 w) (connect_for_head-Quiet uri 10 500 4 w)
    where
      then_upload :
          (x : Out Text (Option ℕ) × World env.Cache)
          → Quiet w x.1
          → Quiet w
              (or_else_from {F = Text}
                (and_then_from x (λ resp. upload_unless env resp uri path))
                (λ _ v. (fail (codes "None"), v))).1
      then_upload (done (some len), v) q = q
      then_upload (done none, v) q =
          ap standing (handled env (raw_upload_file env uri path v) _)
          ∙ raw_upload_file-Quiet uri path v
          ∙ q
      then_upload (fail e, v) q = q
      then_upload (panic, v) q = q

  upload_unless-Quiet :
      (len : Option ℕ) (uri path : Text) (w : World env.Cache)
      → Quiet w (upload_unless env len uri path w).1
  unfolding upload_unless
  upload_unless-Quiet none uri path w = raw_upload_file-Quiet uri path w
  upload_unless-Quiet (some n) uri path w = refl

  -- Seen without the log, a poll of the active future changes nothing.
  pub poll_future-Quiet :
      (job : Option Job) (w : World env.Cache) → Quiet w (poll_future env job w).1
  unfolding poll_future go_on
  poll_future-Quiet none w = refl
  poll_future-Quiet (some (timer at)) w = refl
  poll_future-Quiet (some (asks at len uri path)) w = elim (Bool-cases (ltb w.now at)) [
    | inl b ↦ rw b refl
    | inr b ↦ rw b (ap (λ x. x) (upload_unless-Quiet len uri path w))
  ]

  pub poll_future_now :
      (job : Option Job) (w : World env.Cache) → (poll_future env job w).1.now ≡ w.now
  unfolding poll_future go_on
  poll_future_now none w = refl
  poll_future_now (some (timer at)) w = refl
  poll_future_now (some (asks at len uri path)) w = elim (Bool-cases (ltb w.now at)) [
    | inl b ↦ rw b refl
    | inr b ↦ rw b refl
  ]

  pub start_upload-Quiet :
      (r : UploadRequest) (w : World env.Cache)
      → Quiet
          (record w { state = record (w.state) { last_background_upload = w.now } })
          (start_upload env r w).1
  unfolding start_upload
  start_upload-Quiet r w =
      connect_for_head-Quiet r.uri 10 500 4
        (record w { state = record (w.state) { last_background_upload = w.now } })

-- The time at which the future is ready, or goes on.
abbrev pub ready_at : Option Job → ℕ
ready_at none = 0
ready_at (some (timer at)) = at
ready_at (some (asks at len uri path)) = at
