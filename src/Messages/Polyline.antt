-- ===== src/Messages/Polyline.antt =====
-- ThreadPool/ThreadPool/Common/response_common.h: out::Polyline, with its on_save_to and on_load_from.
-- An array is the bytes of its memory.
pub mod RoundTrip
use multi_thread_test.Common.{replicate, ℕ, List, []}
use multi_thread_test.Archive.{
  ◌>>=◌, ◌⨾◌, R, InStream, Pod, ret, stream_read, stream_write, read_buf, write_buf,
  read_iteratable_dump, write_iteratable_dump, byte, short, long, double,
}
use multi_thread_test.Archive.Objects.{Class}

pub record Polyline : Type 0 where
  pub id : ℕ
  pub mapid : ℕ
  pub kind : ℕ
  pub bdgid_bes : List ℕ
  pub bdgid_grs : List ℕ
  pub xy_bes : List ℕ
  pub xy_grs : List ℕ
  pub syncflag : ℕ

abbrev pub initial : Polyline
initial = record {
  id = 0;
  mapid = 0;
  kind = 0;
  bdgid_bes = replicate 12 0;
  bdgid_grs = replicate 12 0;
  xy_bes = [];
  xy_grs = [];
  syncflag = 0;
}

unfoldable pub on_save_to : Polyline → List ℕ
on_save_to p =
    stream_write long p.id
    ⨾ stream_write long p.mapid
    ⨾ stream_write long p.kind
    ⨾ write_buf p.bdgid_bes 12
    ⨾ write_buf p.bdgid_grs 12
    ⨾ write_iteratable_dump byte p.xy_bes
    ⨾ write_iteratable_dump byte p.xy_grs
    ⨾ stream_write long p.syncflag

unfoldable pub on_load_from : Polyline → R Polyline
on_load_from p = do
  id ← stream_read long p.id
  mapid ← stream_read long p.mapid
  kind ← stream_read long p.kind
  bdgid_bes ← read_buf 12 p.bdgid_bes
  bdgid_grs ← read_buf 12 p.bdgid_grs
  xy_bes ← read_iteratable_dump byte p.xy_bes
  xy_grs ← read_iteratable_dump byte p.xy_grs
  syncflag ← stream_read long p.syncflag
  ret (record {
    id = id;
    mapid = mapid;
    kind = kind;
    bdgid_bes = bdgid_bes;
    bdgid_grs = bdgid_grs;
    xy_bes = xy_bes;
    xy_grs = xy_grs;
    syncflag = syncflag;
  })

abbrev pub class : Class Polyline
class = record { initial = initial; on_save_to = on_save_to; on_load_from = on_load_from }
