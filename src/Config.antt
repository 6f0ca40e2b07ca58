-- ===== src/Config.antt =====
-- src/config/app_config.rs and src/net/state.rs. A URI is its text; a `Duration` is its
-- milliseconds.
use local_cache_proxy.Base.{ℕ, Option}
use local_cache_proxy.Base.Text.{Text, parse_u64}

pub record S3Config : Type 0 where
  pub bucket : Text
  pub prefix : Text

pub record AppConfig : Type 0 where
  pub upstream : Text
  pub proxy : Option Text
  pub bind_target : Text
  pub cache_folder : Text
  pub cache_folder_size : ℕ
  pub maximum_download_size : ℕ
  pub maximum_upload_size : ℕ
  pub idle_time_terminate : Option ℕ

-- `AppConfig::str_to_ms`; `none` is a `ParseIntError`.
unfoldable pub str_to_ms : Text → Option ℕ
unfolding parse_u64
str_to_ms s = parse_u64 s

-- `State`: the instants, in milliseconds.
pub record State : Type 0 where
  pub last_user_facing_request : ℕ
  pub last_background_upload : ℕ
