-- ===== src/Programs/Copies.antt =====
-- src/bin/upload_to_s3.rs: what is uploaded comes back.
use local_cache_proxy.Base.{◌≡◌, refl, ap, ◌∙◌, ℕ, Option, some, true, false, List, [], ◌∷◌}
use local_cache_proxy.Base.Text.{Text}
use local_cache_proxy.Downloader.{creates, body_bytes}
use local_cache_proxy.Programs.{
  object_uri, put_object_with_file_name, get_object_with_file_name, copy,
}
use local_cache_proxy.Remote.{S3, found}
use local_cache_proxy.World.{Env, World, Body, complete, Sent, get, put}
use local_cache_proxy.World.Disk.{Bytes, file, write_self}
use local_cache_proxy.World.Step.{done}

module _ (env : Env) (s3 : S3) (bucket key : Text) where
  -- The requests of an upload of the bytes, and of a download after it.
  abbrev pub upload_sent : Bytes → List Sent → List Sent
  upload_sent b sent =
      record { method = put; uri = object_uri env s3 bucket key; payload = b } ∷ sent

  abbrev pub download_sent : List Sent → List Sent
  download_sent sent =
      record { method = get; uri = object_uri env s3 bucket key; payload = [] } ∷ sent

  -- The bucket answers a `GET` for the object with what the upload has put there.
  pub record IsKept (b : Bytes) (sent : List Sent) : Type 0 where
    pub accepted : s3.put_object (upload_sent b sent) ≡ true
    pub len : Option ℕ
    pub body : Body
    pub answered : s3.get_object (download_sent (upload_sent b sent)) ≡ found len (some body)
    pub whole : body.ending ≡ complete
    pub same : body_bytes body.polls ≡ b

  -- `upload_to_s3` with `--upload` and then with `--download` succeeds and gives a file with the
  -- same bytes, if the first file can be read, the second can be made, and the bucket takes the
  -- object and answers with the bytes that it has been given.
  pub copy_back :
      (source target : Text) (b : Bytes) (w : World env.Cache)
      → w.files source ≡ file b
      → creates (env.can_create target) (w.files target) ≡ true
      → IsKept b w.sent
      → let up = copy env s3 true false bucket key source w in
        let down = copy env s3 false true bucket key target up.1 in
        (up.0 ≡ done tt)
        × (down.0 ≡ done tt)
        × (down.1.files target ≡ file b)
        × (down.1.sent ≡ download_sent (upload_sent b w.sent))
  unfolding copy put_object_with_file_name get_object_with_file_name
  copy_back source target b w f c k = rw f (
      rw (k.accepted) (
        rw (c, k.answered)
          (rw (k.whole) (
            refl,
            refl,
            write_self _ target (file (body_bytes k.body.polls)) ∙ ap file k.same,
            refl,
          ))))
