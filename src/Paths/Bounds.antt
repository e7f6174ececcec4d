-- ===== src/Paths/Bounds.antt =====
-- How far the path builders write into their buffers of MAX_PATH_LENGTH bytes.
use afs_like_file_system.Common.{
  ℕ, ◌+◌, ◌<◌, ◌≡◌, ◌↔◌, arith, length, min, length-append, length-take, take, ◌++◌, [], take_all,
}
use afs_like_file_system.Machine.{Bytes}
use afs_like_file_system.Paths.{
  strncat, max_path_length, tmp_suffix, get_server_path, get_local_path, get_local_tmp_path,
}

-- The final zero of a string of this length still lies inside the buffer.
abbrev pub FitsBuffer : Bytes → Type 0
FitsBuffer path = length path < max_path_length

length-strncat :
    (dst src : Bytes) (n : ℕ) → length (strncat dst src n) ≡ length dst + min n (length src)
unfolding strncat
length-strncat dst src n = omega (arith, length-append dst (take n src), length-take n src)

pub length-get_local_path :
    (file cache : Bytes)
    → length (get_local_path file cache)
      ≡ min max_path_length (length cache) + min max_path_length (length file)
unfolding get_local_path
length-get_local_path file cache = omega (
  arith,
  length-strncat (strncat [] cache max_path_length) file max_path_length,
  length-strncat [] cache max_path_length,
)

pub length-get_server_path :
    (file root : Bytes)
    → length (get_server_path file root)
      ≡ min max_path_length (length root) + min max_path_length (length file)
unfolding get_server_path
length-get_server_path file root = omega (
  arith,
  length-strncat (strncat [] root max_path_length) file max_path_length,
  length-strncat [] root max_path_length,
)

pub length-get_local_tmp_path :
    (file cache : Bytes)
    → length (get_local_tmp_path file cache) ≡ length (get_local_path file cache) + 4
unfolding get_local_tmp_path get_local_path
length-get_local_tmp_path file cache = omega (
  arith,
  length-strncat (strncat (strncat [] cache max_path_length) file max_path_length) tmp_suffix
      max_path_length,
)

-- The path in the server's root fits its buffer, final zero included, exactly when the two given
-- paths together do; so do the path in the cache and, with four bytes more, the temporary path.
pub path_buffers_fit :
    (file base : Bytes)
    → (FitsBuffer (get_server_path file base) ↔ (length base + length file < max_path_length))
      × (FitsBuffer (get_local_path file base) ↔ (length base + length file < max_path_length))
      × (FitsBuffer (get_local_tmp_path file base)
          ↔ (length base + length file + 4 < max_path_length))
path_buffers_fit file base =
    let s = length-get_server_path file base in
    let l = length-get_local_path file base in
    let t = length-get_local_tmp_path file base in
    (
      (λ h. omega arith, λ h. omega arith),
      (λ h. omega arith, λ h. omega arith),
      (λ h. omega arith, λ h. omega arith),
    )

-- Of paths that fit, nothing is cut off.
pub get_local_path_fits :
    (file cache : Bytes)
    → length cache + length file < max_path_length
    → get_local_path file cache ≡ cache ++ file
unfolding get_local_path strncat
get_local_path_fits file cache h =
    rw (take_all max_path_length cache (omega arith), take_all max_path_length file (omega arith))
