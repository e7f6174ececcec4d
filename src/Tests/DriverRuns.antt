-- ===== src/Tests/DriverRuns.antt =====
-- The drivers on a disk with "/s/a".
use afs_like_file_system.Common.{◌≡◌, refl, [], ◌++◌, some}
use afs_like_file_system.Paths.{get_server_path}
use afs_like_file_system.Posix.{mode_770}
use afs_like_file_system.Posix.Laws.{same_bytes}
use afs_like_file_system.Server.Process.{Host}
use afs_like_file_system.Drivers.{
  append_text, stars, stars_1, protocol_perf_2, write_performance, scale_test_write,
}
use afs_like_file_system.Drivers.Appends.{times, Holds, drivers_append}
use afs_like_file_system.Tests.Memory.{Memory, memory, view, memory-IsHealthy, zeroed}
use afs_like_file_system.Tests.Stage.{root, file_a, older, server_disk}

abbrev host : Host Memory
host = record { os = server_disk; error_number = 0 }

argument_there : (view server_disk).entry (get_server_path [] (root ++ file_a)) ≡ some 1
unfolding get_server_path same_bytes
argument_there = refl

drivers_append_example :
    let path = get_server_path [] (root ++ file_a) in
    (s1 s2 s3 : Memory) × (write_performance memory zeroed mode_770 (root ++ file_a) host
      ≡ (tt, record host { os = s1 }))
    × Holds memory view memory-IsHealthy zeroed mode_770 s1 path 1 (older ++ times 4 stars)
    × (scale_test_write memory zeroed mode_770 (root ++ file_a) host
        ≡ (tt, record host { os = s2 }))
    × Holds memory view memory-IsHealthy zeroed mode_770 s2 path 1 (older ++ append_text)
    × (protocol_perf_2 memory zeroed mode_770 (root ++ file_a) host ≡ (tt, record host { os = s3 }))
    × Holds memory view memory-IsHealthy zeroed mode_770 s3 path 1 stars_1
drivers_append_example =
    drivers_append memory view memory-IsHealthy zeroed mode_770 host (root ++ file_a) 1 older
      (argument_there, refl)
