-- ===== src/Cache/Database.antt =====
-- The text of `database.txt`: what `dump` prints, and how `read_from_database` takes it in.
-- `strdup`, `strsep` and the lines of `getline` are those of the C library.
pub mod Lines
pub mod RoundTrip
pub mod Tail
use afs_like_file_system.Common.{ℕ, List, [], ◌∷◌, ◌++◌, Option, none, some, ◌==◌, if◌then◌else◌}
use afs_like_file_system.Machine.{Bytes}
use afs_like_file_system.Cache.Table.{HashNode, Chain, Table, put}
use afs_like_file_system.Cache.Decimal.{format_long, atol}

-- `fprintf(fptr, "%ld,%ld\n", temp_hn->key, temp_hn->value)`, without the line's end.
unfoldable pub record_text : HashNode → Bytes
record_text n = format_long n.key ++ (b',' ∷ format_long n.value)

unfoldable pub dump_chain : Chain → Bytes
dump_chain [] = []
dump_chain (temp_hn ∷ next) = record_text temp_hn ++ (b'\n' ∷ dump_chain next)

-- The two nested loops of `dump`. A null slot prints nothing.
unfoldable pub dump_text : Table → Bytes
unfolding dump_chain
dump_text [] = []
dump_text (chain ∷ ht) = dump_chain chain ++ dump_text ht

abbrev first_byte : ℕ → List Bytes → List Bytes
first_byte c [] = (c ∷ []) ∷ []
first_byte c (line ∷ lines) = (c ∷ line) ∷ lines

-- The lines that `getline` returns one after the other, each with its newline if it has one.
unfoldable pub get_lines : Bytes → List Bytes
get_lines [] = []
get_lines (c ∷ s) =
    let rest = get_lines s in if c == b'\n' then (c ∷ []) ∷ rest else first_byte c rest

-- A C string ends at its first zero byte: `strdup(line)`.
unfoldable pub strdup : Bytes → Bytes
strdup [] = []
strdup (c ∷ s) = let rest = strdup s in if c == 0 then [] else c ∷ rest

-- `strsep(&s, ",")`: the token in front of the first comma, and what `s` points to afterwards,
-- which is nothing (a null pointer) where there was no comma.
unfoldable pub strsep : Bytes → Bytes × Option Bytes
strsep [] = ([], none)
strsep (c ∷ s) = let rest = strsep s in if c == b',' then ([], some s) else (c ∷ rest.0, rest.1)

-- `free(tempstr)`, after two calls of `strsep`: a null pointer is freed without effect. Where a
-- second comma is left, `tempstr` points behind it into the buffer of `strdup`, and `free` aborts.
unfoldable pub free_rest : Option Bytes → Table → Option Table
free_rest none ht = some ht
free_rest (some rest) ht = none

-- `put(atol(k), atol(v))` for the first two tokens `k` and `v` of the line, and the `free` behind it.
-- `none` is the end of the process: the crash of `atol` on the null pointer that stands for `v` where
-- the line has no comma, or the abort of `free`.
unfoldable pub put_tokens : Bytes × Option Bytes → Table → Option Table
put_tokens (k, none) ht = none
put_tokens (k, some after_k) ht =
    let (v, rest) = strsep after_k in free_rest rest (put ht (atol k) (atol v))

-- One round of the loop.
unfoldable pub load_line : Bytes → Table → Option Table
load_line line ht = let tempstr = strdup line in put_tokens (strsep tempstr) ht

unfoldable pub load_lines : List Bytes → Table → Option Table
load_lines [] ht = some ht
load_lines (line ∷ lines) ht = elim (load_line line ht) [
  | none ↦ none
  | some ht' ↦ load_lines lines ht'
]

unfoldable pub load_text : Bytes → Table → Option Table
load_text content ht = load_lines (get_lines content) ht
