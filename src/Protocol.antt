-- ===== src/Protocol.antt =====
-- protos/afs.proto: the messages of the calls that client and server implement. A fresh message has
-- 0 and empty texts in its fields (proto3), and a signed field holds a ℤ of its width.
use afs_like_file_system.Common.{ℕ, ℤ, pos, []}
use afs_like_file_system.Machine.{Bytes}

-- The status of a call, as far as the server chooses it.
pub data Status : Type 0 where
  status_ok unavailable : Status

pub record PathReq : Type 0 where
  pub path : Bytes

pub record ModeReq : Type 0 where
  pub path : Bytes
  pub mode : ℕ

pub record StoreReq : Type 0 where
  pub path : Bytes
  pub size : ℤ
  pub buf : Bytes

pub record CreateRes : Type 0 where
  pub ack : ℤ
  pub time : ℤ

pub record StoreRes : Type 0 where
  pub error : ℤ
  pub time : ℤ

-- UnlinkRes, ChmodRes, MkdirRes and RmdirRes.
pub record ErrorRes : Type 0 where
  pub error : ℤ

pub record FetchReply : Type 0 where
  pub error : ℤ
  pub size : ℤ
  pub buf : Bytes
  pub time : ℤ

pub record LsRes : Type 0 where
  pub error : ℤ
  pub name : Bytes

pub record GetattrRes : Type 0 where
  pub ino : ℕ
  pub mode : ℤ
  pub nlink : ℕ
  pub uid : ℕ
  pub gid : ℕ
  pub size : ℤ
  pub blksize : ℤ
  pub blocks : ℤ
  pub atime : ℤ
  pub mtime : ℤ
  pub ctime : ℤ
  pub err : ℤ

abbrev pub create_res : CreateRes
create_res = record { ack = pos 0; time = pos 0 }

abbrev pub store_res : StoreRes
store_res = record { error = pos 0; time = pos 0 }

abbrev pub error_res : ErrorRes
error_res = record { error = pos 0 }

abbrev pub fetch_reply : FetchReply
fetch_reply = record { error = pos 0; size = pos 0; buf = []; time = pos 0 }

abbrev pub ls_res : LsRes
ls_res = record { error = pos 0; name = [] }

abbrev pub getattr_res : GetattrRes
getattr_res = record {
  ino = 0;
  mode = pos 0;
  nlink = 0;
  uid = 0;
  gid = 0;
  size = pos 0;
  blksize = pos 0;
  blocks = pos 0;
  atime = pos 0;
  mtime = pos 0;
  ctime = pos 0;
  err = pos 0;
}
