-- ===== src/Messages/Polygon3dInfo.antt =====
-- ThreadPool/ThreadPool/Common/response_common.h: out::Polygon3DInfo, with its on_save_to and on_load_from.
-- An array is the bytes of its memory.
pub mod RoundTrip
use multi_thread_test.Common.{replicate, ℕ, List}
use multi_thread_test.Archive.{
  ◌>>=◌, ◌⨾◌, R, InStream, Pod, ret, stream_read, stream_write, read_buf, write_buf,
  read_iteratable_dump, write_iteratable_dump, byte, short, long, double,
}
use multi_thread_test.Archive.Objects.{Class}

pub record Polygon3dInfo : Type 0 where
  pub pg_id : ℕ
  pub map_id : ℕ
  pub bdg_id_3d : List ℕ
  pub pattern_code : List ℕ
  pub arrow_code : List ℕ

abbrev pub initial : Polygon3dInfo
initial = record {
  pg_id = 0;
  map_id = 0;
  bdg_id_3d = replicate 20 0;
  pattern_code = replicate 60 0;
  arrow_code = replicate 60 0;
}

unfoldable pub on_save_to : Polygon3dInfo → List ℕ
on_save_to i =
    stream_write long i.pg_id
    ⨾ stream_write long i.map_id
    ⨾ write_buf i.bdg_id_3d 20
    ⨾ write_buf i.pattern_code 60
    ⨾ write_buf i.arrow_code 60

unfoldable pub on_load_from : Polygon3dInfo → R Polygon3dInfo
on_load_from i = do
  pg_id ← stream_read long i.pg_id
  map_id ← stream_read long i.map_id
  bdg_id_3d ← read_buf 20 i.bdg_id_3d
  pattern_code ← read_buf 60 i.pattern_code
  arrow_code ← read_buf 60 i.arrow_code
  ret (record {
    pg_id = pg_id;
    map_id = map_id;
    bdg_id_3d = bdg_id_3d;
    pattern_code = pattern_code;
    arrow_code = arrow_code;
  })

abbrev pub class : Class Polygon3dInfo
class = record { initial = initial; on_save_to = on_save_to; on_load_from = on_load_from }
