-- ===== src/Lib.antt =====
-- Verification of local_cache_proxy, a caching proxy for the remote cache of Bazel.
--
-- The program. `client_side_proxy` runs beside Bazel: a `GET` is served from a folder of cached
-- files, or downloaded from the upstream into it; a `PUT` goes to the folder and, later, upstream.
-- A blob (`cas__<hash>`) is served or sent upstream only once an action result (`ac__<hash>`) that
-- the proxy has seen names it: its gate, an empty file `enable_cas__<hash>`, is then in the folder.
-- Two tasks run beside the server: an uploader, while no client asks for anything, and a terminator
-- that ends an idle process. `server_side_proxy` serves the same requests in front of S3.
--
-- The files, with the code that they model:
--   Base         lists, texts (code points), integers and results that the other files share
--   Config       src/config/app_config.rs, src/net/state.rs
--   Request      src/net/proxy_request.rs: `ProxyRequest::new`, `file_name`, `build_query_uri`
--   World        the state: the files, the LRU cache, the requests sent, the clock, the queue of
--                uploads, `State`; World/Disk has `current_file_size` and `path_exists`
--   Client       src/net/client.rs: the retries of `connect_for_file` and `connect_for_head`,
--                `BodyStreamer`
--   Message      src/action_result/action_result.rs: its seven messages, read and written
--   ActionCache  src/net/process_action_cache.rs
--   Downloader   src/net/downloader.rs: `fetch_file`, `save_file`
--   Sessions     src/net/downloader.rs: `save_file` in steps, for several clients at once
--   ServerIo     src/net/server_io.rs, src/net/server_error.rs
--   SendStream   src/net/buffered_send_stream.rs: the poll of `BufferedSendStream`
--   Server       src/net/client_proxy_server.rs: `get_request`, `put_request`, `upstream_upload`,
--                the service function
--   Uploader     src/net/background_uploader.rs: `Uploader::poll`, `run_upload_file`
--   Terminator   src/net/terminator.rs
--   Remote       src/net/remote_cache_server.rs
--   System       the client-side server with its uploader: steps in any order and what they reach
--   Start        src/net/server_start.rs, and the ends of `start_server` in
--                src/net/client_proxy_server.rs and src/net/remote_cache_server.rs
--   Programs     src/bin: the configurations of the two proxies, `upload_to_s3`,
--                `dump_actionresult`
--   Tests        concrete runs
--
-- The model. A future is a function from a world to an outcome and a world: a value, an error or a
-- panic (World/Step). An upload is a future in two stages, so that other steps come between its
-- requests `HEAD` and the opening of its file (`Uploader.Job`). Except in Sessions, a handler runs
-- to its end before the next one starts, so that a download that overlaps a `PUT` of the same file
-- is not seen, and the requests `HEAD` of an upload are sent together. A run of the proxy is a
-- sequence of steps (`System.Step`): a handler, a poll of the uploader, the scan of the cache
-- folder or the passing of time. The modules called Kept say which single effects a handler is made
-- of, so that what each effect keeps is kept by every run. What the crates do is in the record
-- `World.Env`, with the S3 client in `Remote.S3`: the upstream's answer is any function of the
-- requests sent so far, `insert_file` any function of the cache and the files, the coded streams of
-- protobuf any functions of the bytes. What a theorem needs of them is among its hypotheses:
-- `Downloader.Fetch.Inserts` (the cache keeps a file that it accepts at its path),
-- `Downloader.Kept.AreApart` (the temporary folder is not the cache folder),
-- `ActionCache.Done.CanOpen` (gates can be made) and `Message.Lawful.IsLawful` (a coded input
-- stream goes forward) with `Message.RoundTrip.IsFaithful` (it reads what an output stream has
-- written) and `Message.Sizes.HasSizes` (the sizes of what is written), both for the numbers and
-- the values that the fields of the seven messages have (Message/Ranges).
--
-- Numbers are unbounded but for the sizes of messages, which wrap around at 2^32, and the parsing
-- of `u64`; where it matters that a field is an `i64` or an `i32`, a hypothesis says so. Three
-- functions run on fuel: `Message.merge_loop`, with one unit for each byte of the input,
-- `Uploader.poll`, with any number of rounds, and `Terminator.poll`, with two.
--
-- In Sessions the steps of several `PUT`s are taken in any order, on a disk of inodes and open
-- files, which `view` shows as files by their paths; `Sessions.Fine.IsMove` and
-- `Sessions.Alone.IsInsert` say what the cache does to it: it may remove files, as an LRU cache of
-- limited size does.
--
-- Not modelled: interleavings of the other handlers, threads and the listing of the cache folder; a
-- full disk, where the source panics; a file that is there but cannot be opened although its
-- metadata can be read, or cannot be opened for writing; how long a body takes to stream; logging
-- and the timing that is only logged; sockets, proxies and TLS; the declarations of the command
-- lines; the accessors and the reflection of the generated messages. The cache folder is configured
-- without a slash at its end, and the paths are valid UTF-8.
pub mod Base
pub mod Config
pub mod World
pub mod Client
pub mod Message
pub mod ActionCache
pub mod Downloader
pub mod Sessions
pub mod ServerIo
pub mod Server
pub mod System
pub mod Uploader
pub mod Terminator
pub mod Remote
pub mod Start
pub mod Programs
pub mod SendStream
pub mod Request
pub mod Tests
