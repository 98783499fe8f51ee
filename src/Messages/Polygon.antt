-- ===== src/Messages/Polygon.antt =====
-- ThreadPool/ThreadPool/Common/response_common.h: out::Polygon, with its on_save_to and on_load_from.
-- An array is the bytes of its memory.
pub mod RoundTrip
use multi_thread_test.Common.{replicate, ℕ, List, []}
use multi_thread_test.Archive.{
  ◌>>=◌, ◌⨾◌, R, InStream, Pod, ret, stream_read, stream_write, read_buf, write_buf,
  read_iteratable_dump, write_iteratable_dump, byte, short, long, double,
}
use multi_thread_test.Archive.Objects.{Class}

pub record Polygon : Type 0 where
  pub id : ℕ
  pub mapid : ℕ
  pub kind : ℕ
  pub upper_level : ℕ
  pub lane_code : List ℕ
  pub arrow_code : List ℕ
  pub bd_floor : ℕ
  pub xy_bes : List ℕ
  pub xy_grs : List ℕ
  pub syncflag : ℕ

abbrev pub initial : Polygon
initial = record {
  id = 0;
  mapid = 0;
  kind = 0;
  upper_level = 0;
  lane_code = replicate 20 0;
  arrow_code = replicate 20 0;
  bd_floor = 0;
  xy_bes = [];
  xy_grs = [];
  syncflag = 0;
}

unfoldable pub on_save_to : Polygon → List ℕ
on_save_to p =
    stream_write long p.id
    ⨾ stream_write long p.mapid
    ⨾ stream_write long p.kind
    ⨾ stream_write long p.upper_level
    ⨾ write_buf p.lane_code 20
    ⨾ write_buf p.arrow_code 20
    ⨾ stream_write long p.bd_floor
    ⨾ write_iteratable_dump byte p.xy_bes
    ⨾ write_iteratable_dump byte p.xy_grs
    ⨾ stream_write long p.syncflag

unfoldable pub on_load_from : Polygon → R Polygon
on_load_from p = do
  id ← stream_read long p.id
  mapid ← stream_read long p.mapid
  kind ← stream_read long p.kind
  upper_level ← stream_read long p.upper_level
  lane_code ← read_buf 20 p.lane_code
  arrow_code ← read_buf 20 p.arrow_code
  bd_floor ← stream_read long p.bd_floor
  xy_bes ← read_iteratable_dump byte p.xy_bes
  xy_grs ← read_iteratable_dump byte p.xy_grs
  syncflag ← stream_read long p.syncflag
  ret (record {
    id = id;
    mapid = mapid;
    kind = kind;
    upper_level = upper_level;
    lane_code = lane_code;
    arrow_code = arrow_code;
    bd_floor = bd_floor;
    xy_bes = xy_bes;
    xy_grs = xy_grs;
    syncflag = syncflag;
  })

abbrev pub class : Class Polygon
class = record { initial = initial; on_save_to = on_save_to; on_load_from = on_load_from }
