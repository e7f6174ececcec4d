-- ===== src/Tests/CacheRuns.antt =====
-- Paths, hashes, the table and its file on concrete data.
use afs_like_file_system.Common.{
  ◌+◌, ◌<◌, ◌≡◌, ◌↔◌, refl, [], ◌∷◌, ◌++◌, some, ℤ, pos, negsuc, arith, length, ◌==ℤ◌,
  if◌then◌else◌,
}
use afs_like_file_system.Machine.{Bytes, to_long-InLong}
use afs_like_file_system.Paths.{
  max_path_length, tmp_suffix, get_server_path, get_local_path, get_local_tmp_path,
}
use afs_like_file_system.Paths.Bounds.{FitsBuffer, path_buffers_fit}
use afs_like_file_system.Paths.Collisions.{tmp_path_shared}
use afs_like_file_system.Cache.Hash.{hashfilename, hashfilename_collides, index_of_key}
use afs_like_file_system.Cache.Table.{Table, init_ht, key_of, get, put}
use afs_like_file_system.Cache.Valid.{IsValid, view}
use afs_like_file_system.Cache.Lookup.{get-put}
use afs_like_file_system.Cache.Invariant.{init_ht-IsValid, put-IsValid}
use afs_like_file_system.Cache.Decimal.{format_long}
use afs_like_file_system.Cache.Database.{dump_text, load_text, record_text}
use afs_like_file_system.Cache.Database.RoundTrip.{load_text-dump_text}

-- "/cache", "/a", "/ab", "/bA"
abbrev cache_dir : Bytes
cache_dir = b'/' ∷ b'c' ∷ b'a' ∷ b'c' ∷ b'h' ∷ b'e' ∷ []

abbrev file_a : Bytes
file_a = b'/' ∷ b'a' ∷ []

abbrev file_a_tmp : Bytes
file_a_tmp = b'/' ∷ b'a' ∷ b'_' ∷ b't' ∷ b'm' ∷ b'p' ∷ []

path_buffers_fit_example :
    (FitsBuffer (get_server_path file_a cache_dir)
      ↔ (length cache_dir + length file_a < max_path_length))
    × (FitsBuffer (get_local_path file_a cache_dir)
        ↔ (length cache_dir + length file_a < max_path_length))
    × (FitsBuffer (get_local_tmp_path file_a cache_dir)
        ↔ (length cache_dir + length file_a + 4 < max_path_length))
path_buffers_fit_example = path_buffers_fit file_a cache_dir

tmp_path_shared_example :
    (get_local_tmp_path file_a cache_dir ≡ get_local_path file_a_tmp cache_dir)
    ↔ (file_a_tmp ≡ file_a ++ tmp_suffix)
tmp_path_shared_example = tmp_path_shared file_a file_a_tmp cache_dir (omega arith) (omega arith)

-- "/aB" and "/b!"
hashfilename_collides_example :
    hashfilename ((b'/' ∷ []) ++ (b'a' ∷ (b'!' + 33) ∷ []))
    ≡ hashfilename ((b'/' ∷ []) ++ ((b'a' + 1) ∷ b'!' ∷ []))
hashfilename_collides_example =
    hashfilename_collides (b'/' ∷ []) [] b'a' b'!' (omega arith) (omega arith)

get-put_example :
    get (put init_ht (key_of file_a) (pos 7)) file_a_tmp
    ≡ (if key_of file_a_tmp ==ℤ key_of file_a then pos 7 else get init_ht file_a_tmp)
get-put_example = get-put init_ht file_a file_a_tmp (pos 7) init_ht-IsValid.wide

abbrev sample : Table
sample = put (put init_ht (key_of file_a) (pos 7)) (key_of file_a_tmp) (negsuc 12345677)

one_entry-IsValid : IsValid (put init_ht (key_of file_a) (pos 7))
one_entry-IsValid =
    put-IsValid init_ht init_ht-IsValid (key_of file_a) (pos 7)
      (to_long-InLong (hashfilename file_a)) (omega arith)

sample-IsValid : IsValid sample
sample-IsValid =
    put-IsValid (put init_ht (key_of file_a) (pos 7)) one_entry-IsValid (key_of file_a_tmp)
      (negsuc 12345677) (to_long-InLong (hashfilename file_a_tmp)) (omega arith)

load_text-dump_text_example :
    (ht' : Table) × (load_text (dump_text sample) init_ht ≡ some ht')
    × IsValid ht'
    × ((q : ℤ) → view ht' q ≡ view sample q)
load_text-dump_text_example = load_text-dump_text sample sample-IsValid

-- The text of the table, and what `get` finds in it.
dump_text-one_entry :
    dump_text (put init_ht (pos 42) (negsuc 4)) ≡ b'4' ∷ b'2' ∷ b',' ∷ b'-' ∷ b'5' ∷ b'\n' ∷ []
unfolding dump_text put init_ht index_of_key record_text format_long
dump_text-one_entry = refl

get-sample : get sample file_a_tmp ≡ negsuc 12345677
unfolding get put init_ht hashfilename index_of_key
get-sample = refl
