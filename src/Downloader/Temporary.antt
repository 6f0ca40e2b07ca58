-- ===== src/Downloader/Temporary.antt =====
-- src/net/downloader.rs: where downloads are put.
use local_cache_proxy.Base.{◌≡◌, refl, ℕ, Option, none, some, ◌&&◌, Bool-cases, inl, inr, ◌==◌}
use local_cache_proxy.Base.Result.{Result, ok, err}
use local_cache_proxy.Base.Text.{Text}
use local_cache_proxy.Client.{connect_for_file, BodyStreamerError}
use local_cache_proxy.Client.Retries.{with_retries-holds}
use local_cache_proxy.Downloader.{
  get_content_length, should_download, creates, save_body, saved_as, receive, fetch_once,
  internal_fetch_file_with_retries,
}
use local_cache_proxy.World.{Env, World, Reply}
use local_cache_proxy.World.Disk.{join}
use local_cache_proxy.World.Step.{Out, done, fail, panic, and_then_from}

module _ (env : Env) where
  -- A path in the temporary folder.
  abbrev pub IsTemporary : Text → Type 0
  IsTemporary path = (a : Text) × (path ≡ join env.tmp_download_root a)

  -- The file of an outcome, if it has one, is in the temporary folder.
  abbrev pub IntoTemporary : Out Text (Option (ℕ × Text)) × World env.Cache → Type 0
  IntoTemporary (done (some (len, path)), w) = IsTemporary path
  IntoTemporary (done none, w) = Unit
  IntoTemporary (fail e, w) = Unit
  IntoTemporary (panic, w) = Unit

  saved_as-IntoTemporary :
      (path : Text) (len : ℕ) (r : Result BodyStreamerError (Unit {0})) (w : World env.Cache)
      → IsTemporary path
      → IntoTemporary (saved_as path len r, w)
  unfolding saved_as
  saved_as-IntoTemporary path len (ok _) w i = i
  saved_as-IntoTemporary path len (err e) w i = tt

  receive-IntoTemporary :
      (maximum : ℕ) (len : Option ℕ) (res : Reply) (w : World env.Cache)
      → IntoTemporary (receive env env.tmp_download_root maximum len res w)
  unfolding receive save_body
  receive-IntoTemporary maximum none res w = tt
  receive-IntoTemporary maximum (some len) res w =
      let path = join env.tmp_download_root (env.random w.sent) in
      elim (Bool-cases (should_download maximum (some len) && res.status == 200)) [
        | inl e ↦ elim (Bool-cases (creates (env.can_create path) (w.files path))) [
          | inl c ↦ rw (e, c) (saved_as-IntoTemporary path len _ _ (env.random w.sent, refl))
          | inr c ↦ rw (e, c) tt
        ]
        | inr e ↦ rw e tt
      ]

  received-IntoTemporary :
      (maximum : ℕ) (x : Out Text Reply × World env.Cache)
      → IntoTemporary (
          and_then_from x (λ res.
            receive env env.tmp_download_root maximum (get_content_length res.content_length) res))
  received-IntoTemporary maximum (done res, w) = receive-IntoTemporary maximum _ res w
  received-IntoTemporary maximum (fail e, w) = tt
  received-IntoTemporary maximum (panic, w) = tt

  pub internal_fetch-IntoTemporary :
      (maximum : ℕ) (uri : Text) (tries sleep multiplier : ℕ) (w : World env.Cache)
      → IntoTemporary (
          internal_fetch_file_with_retries env maximum env.tmp_download_root uri tries sleep
            multiplier w)
  unfolding internal_fetch_file_with_retries fetch_once
  internal_fetch-IntoTemporary maximum uri =
      with_retries-holds (fetch_once env maximum env.tmp_download_root uri) IntoTemporary
        (λ w. received-IntoTemporary maximum (connect_for_file env uri 1 500 1 w))
