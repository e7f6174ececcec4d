-- ===== src/Paths/Collisions.antt =====
-- Which paths of the mounted tree share a file of the cache directory.
use mathlib.Core.List.{append_cancel_left}
use afs_like_file_system.Common.{
  ◌+◌, ◌<◌, ◌≡◌, ◌↔◌, ◌∙◌, ◌++◌, sym, arith, length, take_all, append_assoc, length-append,
}
use afs_like_file_system.Machine.{Bytes}
use afs_like_file_system.Paths.{
  strncat, max_path_length, tmp_suffix, get_local_path, get_local_tmp_path,
}
use afs_like_file_system.Paths.Bounds.{get_local_path_fits}

get_local_tmp_path_fits :
    (file cache : Bytes)
    → length cache + length file < max_path_length
    → get_local_tmp_path file cache ≡ cache ++ file ++ tmp_suffix
unfolding get_local_tmp_path strncat
get_local_tmp_path_fits file cache h =
    rw (take_all max_path_length cache (omega arith), take_all max_path_length file (omega arith))

-- Two paths that fit their buffers are kept in the same file of the cache only if they are equal.
pub get_local_path-injective :
    (p q cache : Bytes)
    → length cache + length p < max_path_length
    → length cache + length q < max_path_length
    → get_local_path p cache ≡ get_local_path q cache
    → p ≡ q
get_local_path-injective p q cache hp hq e =
    append_cancel_left cache p q
      (sym (get_local_path_fits p cache hp) ∙ e ∙ get_local_path_fits q cache hq)

-- The temporary file of a write to `p` is the cached file of exactly one path of the mounted tree,
-- `p` with `_tmp` behind it, where all of these fit their buffers.
pub tmp_path_shared :
    (p q cache : Bytes)
    → length cache + length p + 4 < max_path_length
    → length cache + length q < max_path_length
    → (get_local_tmp_path p cache ≡ get_local_path q cache) ↔ (q ≡ p ++ tmp_suffix)
tmp_path_shared p q cache hp hq = (
  λ e.
      let both =
        sym (get_local_path_fits q cache hq)
        ∙ sym e
        ∙ get_local_tmp_path_fits p cache (omega arith)
        ∙ append_assoc cache p tmp_suffix in
      append_cancel_left cache q (p ++ tmp_suffix) both,
  λ e. rw e (
      get_local_tmp_path_fits p cache (omega arith)
      ∙ append_assoc cache p tmp_suffix
      ∙ sym (
          get_local_path_fits (p ++ tmp_suffix) cache (omega (arith, length-append p tmp_suffix)))),
)
