-- ===== src/Cache/Table.antt =====
-- The table itself: `ht`, an array of chains, with `init_ht`, `get` and `put`. A chain of
-- `hash_node`s linked by `next` is the list of the nodes; a null pointer is the empty list.
use afs_like_file_system.Common.{
  List, [], ◌∷◌, ℤ, negsuc, ◌==ℤ◌, get_or, set, replicate, if◌then◌else◌,
}
use afs_like_file_system.Machine.{Bytes, to_long}
use afs_like_file_system.Cache.Hash.{htablesize, hashfilename, index_of_key}

pub record HashNode : Type 0 where
  pub key : ℤ
  pub value : ℤ

abbrev pub Chain : Type 0
Chain = List HashNode

abbrev pub Table : Type 0
Table = List Chain

unfoldable pub init_ht : Table
init_ht = replicate htablesize []

abbrev pub create_hash_node : ℤ → ℤ → HashNode
create_hash_node key value = record { key = key; value = value }

-- What `get` answers for a key that is not there.
abbrev pub not_found : ℤ
not_found = negsuc 0

-- The loop of `get` over a chain.
unfoldable pub scan_chain : ℤ → Chain → ℤ
scan_chain key [] = not_found
scan_chain key (temp_hn ∷ next) = if key ==ℤ temp_hn.key then temp_hn.value else scan_chain key next

-- The key of a path: the `unsigned long` hash held in a `long`.
abbrev pub key_of : Bytes → ℤ
key_of filename = to_long (hashfilename filename)

unfoldable pub get : Table → Bytes → ℤ
unfolding scan_chain
get ht filename =
    let hashfile = key_of filename in
    let hash_index = index_of_key hashfile in scan_chain hashfile (get_or ht hash_index [])

-- The loop of `put`: the node of the key is written to, or a new node stands at the end.
unfoldable pub put_chain : ℤ → ℤ → Chain → Chain
put_chain key timestamp [] = create_hash_node key timestamp ∷ []
put_chain key timestamp (temp_hn ∷ next) =
    if key ==ℤ temp_hn.key
    then record temp_hn { value = timestamp } ∷ next
    else temp_hn ∷ put_chain key timestamp next

unfoldable pub put : Table → ℤ → ℤ → Table
unfolding put_chain
put ht key timestamp =
    let hash_key = index_of_key key in
    elim (get_or ht hash_key []) [
      | [] ↦ set ht hash_key (create_hash_node key timestamp ∷ [])
      | h ∷ next ↦ set ht hash_key (put_chain key timestamp (h ∷ next))
    ]
