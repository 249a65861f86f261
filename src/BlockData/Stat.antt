-- ===== src/BlockData/Stat.antt =====
-- lib/src/block/block_data/stat.cc: what `stat` reports of a file or a directory. Times are the
-- 64-bit patterns of a `time_t`.
use pingfs.Base.{
  ℕ, ◌==◌, ==-self, Bool, true, ◌&&◌, ◌≡◌, ◌↔◌, beq_self, Option, some, none, Result, ok, ◌>>=◌,
  arith,
}
use mathlib.Core.Option
use pingfs.BlockData.FileType
use pingfs.BlockData.FileType.{FileType}
use pingfs.BlockData.Mode
use pingfs.BlockData.Mode.{Mode, ModeProto, mode_beq, mode_eq, mode_beq_iff}

pub record Stat : Type 0 where
  pub mode : Mode
  pub uid : ℕ
  pub gid : ℕ
  pub size : ℕ
  pub access_time : ℕ
  pub mod_time : ℕ
  pub status_change_time : ℕ

-- The constructor that copies another `Stat` and sets its size and times.
unfoldable pub with_size_times : Stat → ℕ → ℕ → ℕ → ℕ → Stat
with_size_times stat size access_time mod_time status_change_time = record stat {
  size = size;
  access_time = access_time;
  mod_time = mod_time;
  status_change_time = status_change_time;
}

-- `struct stat` of the system. `update_stat` leaves the last three fields as they were.
pub record StatBuffer : Type 0 where
  pub st_ino : ℕ
  pub st_dev : ℕ
  pub st_mode : ℕ
  pub st_uid : ℕ
  pub st_gid : ℕ
  pub st_size : ℕ
  pub st_atime : ℕ
  pub st_mtime : ℕ
  pub st_ctime : ℕ
  pub st_nlink : ℕ
  pub st_rdev : ℕ
  pub st_blksize : ℕ
  pub st_blocks : ℕ

unfoldable pub update_stat : Stat → ℕ → ℕ → StatBuffer → StatBuffer
update_stat stat dev ino stbuf = record stbuf {
  st_ino = ino;
  st_dev = dev;
  st_mode = Mode.to_mode_t stat.mode;
  st_uid = stat.uid;
  st_gid = stat.gid;
  st_size = stat.size;
  st_atime = stat.access_time;
  st_mtime = stat.mod_time;
  st_ctime = stat.status_change_time;
  st_nlink = 1;
}

unfoldable pub stat_beq : Stat → Stat → Bool
stat_beq a b =
    mode_beq a.mode b.mode
    && (a.uid == b.uid
        && (a.gid == b.gid
            && (a.size == b.size
                && (a.access_time == b.access_time
                    && (a.mod_time == b.mod_time
                        && a.status_change_time == b.status_change_time)))))

unfoldable pub is_dir : Stat → Bool
is_dir stat = FileType.file_type_beq (stat.mode).file_type FileType.dir

-- `StatProto` of proto/block_data.proto; a number that is not set reads as 0.
pub record StatProto : Type 0 where
  pub mode : Option ModeProto
  pub uid : Option ℕ
  pub gid : Option ℕ
  pub size : Option ℕ
  pub access_time : Option ℕ
  pub mod_time : Option ℕ
  pub status_change_time : Option ℕ

abbrev pub empty_mode_proto : ModeProto
empty_mode_proto = record {
  user_mode = none;
  group_mode = none;
  other_mode = none;
  file_type = none;
}

-- The constructor from a `StatProto`.
unfoldable pub from_proto : StatProto → Result Stat
from_proto proto = do
  mode ← Mode.from_proto (Option.get_or proto.mode empty_mode_proto)
  ok (record {
    mode = mode;
    uid = Option.get_or proto.uid 0;
    gid = Option.get_or proto.gid 0;
    size = Option.get_or proto.size 0;
    access_time = Option.get_or proto.access_time 0;
    mod_time = Option.get_or proto.mod_time 0;
    status_change_time = Option.get_or proto.status_change_time 0;
  })

unfoldable pub gen_proto : Stat → StatProto → StatProto
gen_proto stat proto = record {
  mode = some (Mode.gen_proto stat.mode (Option.get_or proto.mode empty_mode_proto));
  uid = some stat.uid;
  gid = some stat.gid;
  size = some stat.size;
  access_time = some stat.access_time;
  mod_time = some stat.mod_time;
  status_change_time = some stat.status_change_time;
}

stat_beq_sound : (a b : Stat) → stat_beq a b ≡ true → a ≡ b
unfolding stat_beq
stat_beq_sound a b h = ground (arith, (mode_beq_iff a.mode b.mode).0)

stat_beq_self : (a : Stat) → stat_beq a a ≡ true
unfolding stat_beq
stat_beq_self a = rw (
  beq_self a.mode,
  ==-self a.uid,
  ==-self a.gid,
  ==-self a.size,
  ==-self a.access_time,
  ==-self a.mod_time,
  ==-self a.status_change_time,
)

pub stat_beq_iff : (a b : Stat) → (stat_beq a b ≡ true) ↔ (a ≡ b)
stat_beq_iff a b = (stat_beq_sound a b, λ h. rw h (stat_beq_self b))

pub from_proto-gen_proto : (s : Stat) (proto : StatProto) → from_proto (gen_proto s proto) ≡ ok s
unfolding from_proto gen_proto
from_proto-gen_proto s proto = rw (Mode.from_proto-gen_proto s.mode _)
