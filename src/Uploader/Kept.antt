-- ===== src/Uploader/Kept.antt =====
-- src/net/background_uploader.rs: what a poll of the uploader keeps.
use local_cache_proxy.Base.{
  ◌≡◌, refl, ℕ, zero, suc, Option, none, some, Bool, List, [], ◌∷◌, Bool-cases, inl, inr,
  if◌then◌else◌, ltb,
}
use local_cache_proxy.Base.Text.{Text}
use local_cache_proxy.Client.{request, connect_for_head, head_once}
use local_cache_proxy.Client.Kept.{with_retries-Keeps, request-Keeps}
use local_cache_proxy.Config.{AppConfig}
use local_cache_proxy.Uploader.{
  Uploader, Job, timer, asks, Poll, pending, terminated, answered, put_state, raw_upload_file,
  upload_unless, start_upload, go_on, poll_future, take_request, is_allowed, is_recent, poll,
}
use local_cache_proxy.Uploader.Polls.{after_future, poll_on}
use local_cache_proxy.World.{Env, World, head, put, UploadRequest}
use local_cache_proxy.World.Disk.{Bytes, FileState, absent, file, denied, unreadable}
use local_cache_proxy.World.Keeps.{Keeps, then-Keeps}

-- Every single effect of the uploader keeps `I`. A `PUT` has the bytes of a file.
pub record IsUploadStable (env : Env) (config : AppConfig) (I : World env.Cache → Type 0)
    : Type 0 where
  pub clock : (w : World env.Cache) (t : ℕ) → I w → I (record w { now = t })
  pub heads :
      (uri : Text) (w : World env.Cache)
      → I w
      → I (record w { sent = record { method = head; uri = uri; payload = [] } ∷ w.sent })
  pub puts :
      (uri path : Text) (b : Bytes) (w : World env.Cache)
      → w.files path ≡ file b
      → I w
      → I (record w { sent = record { method = put; uri = uri; payload = b } ∷ w.sent })
  pub pops :
      (r : UploadRequest) (rs : List UploadRequest) (w : World env.Cache)
      → w.queue ≡ r ∷ rs
      → I w
      → I (record w { queue = rs })
  pub stamps :
      (t : ℕ) (w : World env.Cache)
      → I w
      → I (record w { state = record (w.state) { last_background_upload = t } })

module _ (env : Env) (config : AppConfig) (I : World env.Cache → Type 0)
    (s : IsUploadStable env config I) where
  head_once-Keeps : (uri : Text) → Keeps I (head_once env uri)
  unfolding head_once
  head_once-Keeps uri =
      then-Keeps {E = Text} I (request env head uri []) _
        (request-Keeps env I (λ w t i. s.clock w t i) head uri [] (λ w i. s.heads uri w i))
        (λ _ w i. i)

  put_state-I :
      (st : FileState) (uri path : Text) (w : World env.Cache)
      → w.files path ≡ st
      → I w
      → I (put_state env st uri w).1
  unfolding put_state answered
  put_state-I (file b) uri path w e i = s.clock _ _ (s.puts uri path b w e i)
  put_state-I absent uri path w e i = i
  put_state-I denied uri path w e i = i
  put_state-I unreadable uri path w e i = i

  upload_unless-Keeps :
      (len : Option ℕ) (uri path : Text) → Keeps I (upload_unless env len uri path)
  unfolding upload_unless raw_upload_file
  upload_unless-Keeps none uri path w i = put_state-I _ uri path w refl i
  upload_unless-Keeps (some n) uri path w i = i

  start_upload-I : (r : UploadRequest) (w : World env.Cache) → I w → I (start_upload env r w).1
  unfolding start_upload connect_for_head
  start_upload-I r w i = s.clock _ _ (
      with_retries-Keeps I (head_once env r.uri) s.clock (head_once-Keeps r.uri) 10 500 4 _
        (s.stamps _ w i))

  poll_future-I : (job : Option Job) (w : World env.Cache) → I w → I (poll_future env job w).1
  unfolding poll_future go_on
  poll_future-I none w i = i
  poll_future-I (some (timer at)) w i = i
  poll_future-I (some (asks at len uri path)) w i = elim (Bool-cases (ltb w.now at)) [
    | inl b ↦ rw b i
    | inr b ↦ rw b (s.clock _ _ (upload_unless-Keeps len uri path w i))
  ]

  take_request-I :
      (r : UploadRequest) (w : World env.Cache) → I w → I (take_request env config r w).1
  unfolding take_request
  take_request-I r w i = elim (Bool-cases (is_allowed env config r w)) [
    | inl e ↦ rw e (start_upload-I r w i)
    | inr e ↦ rw e i
  ]

  pub poll-I :
      (is_open : Bool) (fuel : ℕ) (u : Uploader) (w : World env.Cache)
      → I w
      → I (poll env config is_open fuel u w).2
  unfolding poll
  poll-I is_open zero u w i = i
  poll-I is_open (suc fuel) u w i = rw (poll_on env config is_open fuel u w) (
      left (poll-I is_open fuel) (poll_future env u.active_future w)
        (poll_future-I u.active_future w i))
    where
      next :
          ((u' : Uploader) (v : World env.Cache) → I v → I (poll env config is_open fuel u' v).2)
          → (v : World env.Cache) (q : List UploadRequest) → v.queue ≡ q
          → I v
          → I
              (elim q as (λ _. Poll × Uploader × World env.Cache) [
                | [] ↦ (if is_open then pending else terminated, record { active_future = none }, v)
                | r ∷ rs ↦
                    let (u', w') = take_request env config r (record v { queue = rs }) in
                    poll env config is_open fuel u' w'
              ]).2
      next again v [] e j = j
      next again v (r ∷ rs) e j = again _ _ (take_request-I r _ (s.pops r rs v e j))

      left :
          ((u' : Uploader) (v : World env.Cache) → I v → I (poll env config is_open fuel u' v).2)
          → (x : Option Job × World env.Cache) → I x.1
          → I (after_future env config is_open fuel x).2
      left again (some job, v) j = j
      left again (none, v) j = elim (Bool-cases (is_recent env v)) [
        | inl r ↦ rw (r, after_future) (again _ v j)
        | inr r ↦ rw (r, after_future) (next again v v.queue refl j)
      ]
