-- ===== src/Messages/Height3dInfo.antt =====
-- ThreadPool/ThreadPool/Common/response_common.h: out::Height3DInfo, with its on_save_to and on_load_from.
-- An array is the bytes of its memory.
pub mod RoundTrip
use multi_thread_test.Common.{replicate, ℕ, List, []}
use multi_thread_test.Archive.{
  ◌>>=◌, ◌⨾◌, R, InStream, Pod, ret, stream_read, stream_write, read_buf, write_buf,
  read_iteratable_dump, write_iteratable_dump, byte, short, long, double,
}
use multi_thread_test.Archive.Objects.{Class}
use multi_thread_test.Messages.GeoHeight.{GeoHeight, geo_height}

pub record Height3dInfo : Type 0 where
  pub obj_id : ℕ
  pub map_id : ℕ
  pub b3d_id : List ℕ
  pub heights : List GeoHeight

abbrev pub initial : Height3dInfo
initial = record { obj_id = 0; map_id = 0; b3d_id = replicate 15 0; heights = [] }

unfoldable pub on_save_to : Height3dInfo → List ℕ
on_save_to i =
    stream_write long i.obj_id
    ⨾ stream_write long i.map_id
    ⨾ write_buf i.b3d_id 15
    ⨾ write_iteratable_dump geo_height i.heights

unfoldable pub on_load_from : Height3dInfo → R Height3dInfo
on_load_from i = do
  obj_id ← stream_read long i.obj_id
  map_id ← stream_read long i.map_id
  b3d_id ← read_buf 15 i.b3d_id
  heights ← read_iteratable_dump geo_height i.heights
  ret (record { obj_id = obj_id; map_id = map_id; b3d_id = b3d_id; heights = heights })

abbrev pub class : Class Height3dInfo
class = record { initial = initial; on_save_to = on_save_to; on_load_from = on_load_from }
