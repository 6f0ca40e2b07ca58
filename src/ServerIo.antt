-- ===== src/ServerIo.antt =====
-- src/net/server_io.rs and src/net/server_error.rs: responses, and the sending of a file.
use local_cache_proxy.Base.{ℕ, Option, none, some, length}
use local_cache_proxy.Base.Text.{Text}
use local_cache_proxy.World.{Env, World}
use local_cache_proxy.World.Disk.{Bytes, FileState, absent, file, denied, unreadable}
use local_cache_proxy.World.Step.{done, fail, panic, Act}

-- `ServerError`; an error of another crate is what its `description` says.
pub data ServerError : Type 0 where
  io_error : Text → ServerError
  hyper_error : Text → ServerError
  streaming_error : Text → ServerError
  string_error : Text → ServerError
  http_error : Text → ServerError
  invalid_uri : Text → ServerError
  invalid_uri_parts : Text → ServerError

unfoldable pub description : ServerError → Text
description (io_error e) = e
description (hyper_error e) = e
description (streaming_error e) = e
description (string_error e) = e
description (http_error e) = e
description (invalid_uri e) = e
description (invalid_uri_parts e) = e

-- `report` is the text that `format!` makes of a URI and an error.
pub data Content : Type 0 where
  empty : Content
  contents : Bytes → Content
  report : Text → ServerError → Content

pub record Response : Type 0 where
  pub status : ℕ
  pub content_length : Option ℕ
  pub body : Content

unfoldable pub empty_with_status_code : ℕ → Response
empty_with_status_code code = record { status = code; content_length = none; body = empty }

module _ (env : Env) where
  unfoldable pub send_state : FileState → Act (World env.Cache) ServerError Response
  send_state (file b) w =
      (done (record { status = 200; content_length = some (length b); body = contents b }), w)
  send_state absent w = (panic, w)
  send_state denied w = (done (empty_with_status_code 403), w)
  send_state unreadable w = (fail (io_error (env.io_error unreadable)), w)

  -- The number of bytes is always a valid header value. The body is streamed from the open file.
  unfoldable pub send_file : Text → Act (World env.Cache) ServerError Response
  unfolding send_state empty_with_status_code
  send_file path w = send_state (w.files path) w
