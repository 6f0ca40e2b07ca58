-- ===== src/Tests/Messages.antt =====
-- An action result on the wire of bytes.
use local_cache_proxy.Base.{arith, ◌≡◌, refl, some, true, inl, [], ◌∷◌}
use local_cache_proxy.Base.Int.{negsuc, pos}
use local_cache_proxy.Base.Result.{ok}
use local_cache_proxy.Base.Text.{codes}
use local_cache_proxy.Message.ActionResult
use local_cache_proxy.Message.ActionResult.{ActionResult}
use local_cache_proxy.Message.Digest
use local_cache_proxy.Message.Digest.{Digest}
use local_cache_proxy.Message.OutputFile
use local_cache_proxy.Message.OutputFile.{OutputFile}
use local_cache_proxy.Message.RoundTrip.{IsPlain}
use local_cache_proxy.Message.RoundTrip.Whole.{bare_result}
use local_cache_proxy.Message.Written.{Fits, FitsFile, merge_from-compute_size}
use local_cache_proxy.Tests.Faithful.{byte_wire-IsFaithful, byte_wire-HasSizes}
use local_cache_proxy.Tests.Wire.{byte_wire}

abbrev stdout : Digest byte_wire
stdout = record (Digest.new byte_wire) { hash = codes "h"; size_bytes = pos 7 }

abbrev output : OutputFile byte_wire
output = record (OutputFile.new byte_wire) {
  path = codes "f";
  digest = some stdout;
  is_executable = true;
}

abbrev result : ActionResult byte_wire
result = record (ActionResult.new byte_wire) {
  output_files = output ∷ output ∷ [];
  exit_code = negsuc 0;
  stdout_digest = some stdout;
}

stdout-IsPlain : IsPlain byte_wire stdout
stdout-IsPlain = (refl, ((inl (omega arith), tt), omega arith), omega arith)

output-Fits : FitsFile byte_wire output
unfolding Digest.write_to_with_cached_sizes OutputFile.write_to_with_cached_sizes
    OutputFile.compute_size Digest.compute_size
output-Fits = (
  (refl, ((inl (omega arith), tt), omega arith), (tt, omega arith)),
  (stdout-IsPlain, omega arith),
  omega arith,
)

result-Fits : Fits byte_wire result
unfolding Digest.write_to_with_cached_sizes OutputFile.write_to_with_cached_sizes
    OutputFile.compute_size Digest.compute_size
result-Fits = record {
  files = (output-Fits, (output-Fits, tt));
  directories = tt;
  stdout = (stdout-IsPlain, omega arith);
  stderr = tt;
  exit_code = omega arith;
  stdout_raw = (tt, omega arith);
  stderr_raw = (tt, omega arith);
  known = refl;
}

merge_from-compute_size_example :
    ActionResult.merge_from byte_wire (ActionResult.new byte_wire) (
      ActionResult.write_to_with_cached_sizes byte_wire
        (ActionResult.compute_size byte_wire result))
    ≡ ok (bare_result byte_wire byte_wire-IsFaithful result)
merge_from-compute_size_example =
    merge_from-compute_size byte_wire byte_wire-IsFaithful byte_wire-HasSizes result result-Fits
