-- ===== src/Tests/Requests.antt =====
-- Requests, and the messages and streams behind them, on concrete texts.
use local_cache_proxy.Base.Text.{trim_right_matches}
use local_cache_proxy.Base.Text.{text_eq}
use local_cache_proxy.Base.Text.{starts_with}
use local_cache_proxy.Base.Text.{trim_matches}
use local_cache_proxy.Base.Text.{split}
use local_cache_proxy.Base.{◌≡◌, ◌≢◌, refl, some, true, List, [], ◌∷◌, arith}
use local_cache_proxy.Base.Result.{err}
use local_cache_proxy.Base.Text.{codes, contains, replace}
use local_cache_proxy.Client.{stream_body}
use local_cache_proxy.Client.Streams.{chunks, stream_body_sound}
use local_cache_proxy.Message.{out_of_fuel}
use local_cache_proxy.Message.ActionResult
use local_cache_proxy.Message.Directory
use local_cache_proxy.Message.Endings.{merge_from_ends}
use local_cache_proxy.Request
use local_cache_proxy.Request.{ProxyRequest, file_name, unknown}
use local_cache_proxy.Request.Forms.{ac, query_path, new-repo, new-query_path, new-bazel-cache}
use local_cache_proxy.Request.Safe.{Free, file_name-new}
use local_cache_proxy.SendStream
use local_cache_proxy.SendStream.{BufferedSendStream, reads, not_ready, send_error, finished, Turn}
use local_cache_proxy.SendStream.Chunks.{joined, poll_all}
use local_cache_proxy.Tests.Fixtures.{small_wire, small_wire-IsLawful, whole_body}
use local_cache_proxy.World.{complete}

abbrev some_request : ProxyRequest
some_request = record { repo = unknown; tpe = codes "ac"; digest = codes "12" }

some_request_read : Request.new (codes "/ac/12/") ≡ some some_request
unfolding Request.new contains split trim_matches starts_with text_eq
some_request_read = refl

abbrev under_prefix : ProxyRequest
under_prefix = record { repo = unknown; tpe = unknown; digest = codes "bazel-cache__ac__12" }

-- One element is dropped from the end, not the prefix from the beginning.
other_read : Request.new (codes "/bazel-cache/ac/12") ≡ some under_prefix
unfolding Request.new contains split trim_matches starts_with text_eq replace
other_read = refl

file_name-new_example : Free b'/' (file_name some_request)
file_name-new_example = file_name-new (codes "/ac/12/") some_request_read

new-repo_example :
    Request.new (codes "/repo=r/cas/ab")
    ≡ some (record { repo = codes "r"; tpe = codes "cas"; digest = codes "ab" })
unfolding contains
new-repo_example = new-repo (codes "r") (codes "cas") (codes "ab") refl refl refl refl (λ h. cc)

new-query_path_example :
    Request.new (b'/' ∷ query_path (codes "ac") (codes "r") (codes "12"))
    ≡ some (record { repo = unknown; tpe = unknown; digest = codes "ac__repo=r__12" })
unfolding contains
new-query_path_example =
    new-query_path (codes "ac") (codes "r") (codes "12") (ac refl) refl refl (λ h. cc)

new-bazel-cache_example : under_prefix ≡ record {
  repo = unknown;
  tpe = unknown;
  digest = replace b'/' (codes "__") (codes "bazel-cache/ac/12");
}
unfolding contains trim_right_matches
new-bazel-cache_example = new-bazel-cache (codes "/ac/12") other_read

stream_body_sound_example :
    (whole_body.ending ≡ complete) × ((stream_body whole_body).1 ≡ chunks whole_body.polls)
unfolding stream_body
stream_body_sound_example = stream_body_sound whole_body refl

merge_from_ends_example :
    (ActionResult.merge_from small_wire (ActionResult.new small_wire) (codes "no message")
      ≢ err out_of_fuel)
    × (Directory.merge_from small_wire (Directory.new small_wire) (codes "no message")
        ≢ err out_of_fuel)
merge_from_ends_example =
    merge_from_ends small_wire small_wire-IsLawful (ActionResult.new small_wire)
      (Directory.new small_wire) (codes "no message")

abbrev turns : List Turn
turns = reads 1 true ∷ reads 9 true ∷ reads 9 true ∷ reads 9 true ∷ []

abbrev fresh : BufferedSendStream
fresh = record { unread = codes "abc"; chunks = [] }

poll_all_example :
    let (p, s) = SendStream.poll turns fresh in (p ≡ finished) × (joined s.chunks ≡ codes "abc")
poll_all_example = poll_all turns (codes "abc") (refl, (refl, (refl, (refl, tt)))) (omega arith)
