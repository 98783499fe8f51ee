-- ===== src/Messages/PassInfo.antt =====
-- ThreadPool/ThreadPool/Common/response_common.h: out::PassInfo, with its on_save_to and on_load_from.
pub mod RoundTrip
use multi_thread_test.Common.{ℕ, List}
use multi_thread_test.Archive.{
  ◌>>=◌, ◌⨾◌, R, InStream, Pod, ret, stream_read, stream_write, read_buf, write_buf,
  read_iteratable_dump, write_iteratable_dump, byte, short, long, double,
}
use multi_thread_test.Archive.Objects.{Class}

pub record PassInfo : Type 0 where
  pub id : ℕ
  pub mapid : ℕ
  pub dt_in_link_id : ℕ
  pub dt_out_link_id : ℕ
  pub dt_d_kind : ℕ
  pub dt_t_kind : ℕ
  pub dt_ttti_id : ℕ

-- The constructor leaves two members uninitialised: they hold what the memory held.
abbrev pub initial : (t_kind ttti_id : ℕ) → PassInfo
initial t_kind ttti_id = record {
  id = 0;
  mapid = 0;
  dt_in_link_id = 0;
  dt_out_link_id = 0;
  dt_d_kind = 0;
  dt_t_kind = t_kind;
  dt_ttti_id = ttti_id;
}

unfoldable pub on_save_to : PassInfo → List ℕ
on_save_to i =
    stream_write long i.id
    ⨾ stream_write long i.mapid
    ⨾ stream_write long i.dt_in_link_id
    ⨾ stream_write long i.dt_out_link_id
    ⨾ stream_write byte i.dt_d_kind
    ⨾ stream_write byte i.dt_t_kind
    ⨾ stream_write short i.dt_ttti_id

unfoldable pub on_load_from : PassInfo → R PassInfo
on_load_from i = do
  id ← stream_read long i.id
  mapid ← stream_read long i.mapid
  dt_in_link_id ← stream_read long i.dt_in_link_id
  dt_out_link_id ← stream_read long i.dt_out_link_id
  dt_d_kind ← stream_read byte i.dt_d_kind
  dt_t_kind ← stream_read byte i.dt_t_kind
  dt_ttti_id ← stream_read short i.dt_ttti_id
  ret (record {
    id = id;
    mapid = mapid;
    dt_in_link_id = dt_in_link_id;
    dt_out_link_id = dt_out_link_id;
    dt_d_kind = dt_d_kind;
    dt_t_kind = dt_t_kind;
    dt_ttti_id = dt_ttti_id;
  })

abbrev pub class : (t_kind ttti_id : ℕ) → Class PassInfo
class t_kind ttti_id = record {
  initial = initial t_kind ttti_id;
  on_save_to = on_save_to;
  on_load_from = on_load_from;
}
