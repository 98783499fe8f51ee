-- ===== src/Messages/Link.antt =====
-- ThreadPool/ThreadPool/Common/response_common.h: out::Link, with its on_save_to and on_load_from.
-- An array is the bytes of its memory.
pub mod RoundTrip
use multi_thread_test.Common.{replicate, ℕ, List, []}
use multi_thread_test.Archive.{
  ◌>>=◌, ◌⨾◌, R, InStream, Pod, ret, stream_read, stream_write, read_buf, write_buf,
  read_iteratable_dump, write_iteratable_dump, byte, short, long, double,
}
use multi_thread_test.Archive.Objects.{Class}

pub record Link : Type 0 where
  pub id : ℕ
  pub mapid : ℕ
  pub st_node_id : ℕ
  pub ed_node_id : ℕ
  pub st_dir_bes : ℕ
  pub ed_dir_bes : ℕ
  pub st_dir_grs : ℕ
  pub ed_dir_grs : ℕ
  pub road_kind : ℕ
  pub link_kind_code : ℕ
  pub oneway : ℕ
  pub road_no : ℕ
  pub lane_num : ℕ
  pub road_name : List ℕ
  pub level1 : ℕ
  pub level2 : ℕ
  pub max_speed_limit : ℕ
  pub level3 : ℕ
  pub facility_code_p : ℕ
  pub facility_code_n : ℕ
  pub link_xy_bes : List ℕ
  pub link_xy_grs : List ℕ
  pub is_ctt : ℕ
  pub line_p_yn : ℕ
  pub line_p_id : List ℕ
  pub line_p_xy_bes : List ℕ
  pub line_p_xy_grs : List ℕ
  pub line_n_yn : ℕ
  pub line_n_id : List ℕ
  pub line_n_xy_bes : List ℕ
  pub line_n_xy_grs : List ℕ
  pub is_reallink : ℕ
  pub reallink_p_yn : ℕ
  pub reallink_p_xy_grs : List ℕ
  pub reallink_n_yn : ℕ
  pub reallink_n_xy_grs : List ℕ
  pub sync_flag : ℕ

abbrev pub initial : Link
initial = record {
  id = 0;
  mapid = 0;
  st_node_id = 0;
  ed_node_id = 0;
  st_dir_bes = 0;
  ed_dir_bes = 0;
  st_dir_grs = 0;
  ed_dir_grs = 0;
  road_kind = 0;
  link_kind_code = 0;
  oneway = 0;
  road_no = 0;
  lane_num = 0;
  road_name = replicate 30 0;
  level1 = 0;
  level2 = 0;
  max_speed_limit = 0;
  level3 = 0;
  facility_code_p = 0;
  facility_code_n = 0;
  link_xy_bes = [];
  link_xy_grs = [];
  is_ctt = 0;
  line_p_yn = 0;
  line_p_id = replicate 30 0;
  line_p_xy_bes = [];
  line_p_xy_grs = [];
  line_n_yn = 0;
  line_n_id = replicate 30 0;
  line_n_xy_bes = [];
  line_n_xy_grs = [];
  is_reallink = 0;
  reallink_p_yn = 0;
  reallink_p_xy_grs = [];
  reallink_n_yn = 0;
  reallink_n_xy_grs = [];
  sync_flag = 0;
}

unfoldable pub on_save_to : Link → List ℕ
on_save_to l =
    stream_write long l.id
    ⨾ stream_write long l.mapid
    ⨾ stream_write long l.st_node_id
    ⨾ stream_write long l.ed_node_id
    ⨾ stream_write byte l.st_dir_bes
    ⨾ stream_write byte l.ed_dir_bes
    ⨾ stream_write byte l.st_dir_grs
    ⨾ stream_write byte l.ed_dir_grs
    ⨾ stream_write byte l.road_kind
    ⨾ stream_write short l.link_kind_code
    ⨾ stream_write byte l.oneway
    ⨾ stream_write long l.road_no
    ⨾ stream_write byte l.lane_num
    ⨾ write_buf l.road_name 30
    ⨾ stream_write byte l.level1
    ⨾ stream_write byte l.level2
    ⨾ stream_write byte l.max_speed_limit
    ⨾ stream_write byte l.level3
    ⨾ stream_write byte l.facility_code_p
    ⨾ stream_write byte l.facility_code_n
    ⨾ write_iteratable_dump byte l.link_xy_bes
    ⨾ write_iteratable_dump byte l.link_xy_grs
    ⨾ stream_write byte l.is_ctt
    ⨾ stream_write byte l.line_p_yn
    ⨾ write_buf l.line_p_id 30
    ⨾ write_iteratable_dump byte l.line_p_xy_bes
    ⨾ write_iteratable_dump byte l.line_p_xy_grs
    ⨾ stream_write byte l.line_n_yn
    ⨾ write_buf l.line_n_id 30
    ⨾ write_iteratable_dump byte l.line_n_xy_bes
    ⨾ write_iteratable_dump byte l.line_n_xy_grs
    ⨾ stream_write byte l.is_reallink
    ⨾ stream_write byte l.reallink_p_yn
    ⨾ write_iteratable_dump byte l.reallink_p_xy_grs
    ⨾ stream_write byte l.reallink_n_yn
    ⨾ write_iteratable_dump byte l.reallink_n_xy_grs
    ⨾ stream_write byte l.sync_flag

unfoldable pub on_load_from : Link → R Link
on_load_from l = do
  id ← stream_read long l.id
  mapid ← stream_read long l.mapid
  st_node_id ← stream_read long l.st_node_id
  ed_node_id ← stream_read long l.ed_node_id
  st_dir_bes ← stream_read byte l.st_dir_bes
  ed_dir_bes ← stream_read byte l.ed_dir_bes
  st_dir_grs ← stream_read byte l.st_dir_grs
  ed_dir_grs ← stream_read byte l.ed_dir_grs
  road_kind ← stream_read byte l.road_kind
  link_kind_code ← stream_read short l.link_kind_code
  oneway ← stream_read byte l.oneway
  road_no ← stream_read long l.road_no
  lane_num ← stream_read byte l.lane_num
  road_name ← read_buf 30 l.road_name
  level1 ← stream_read byte l.level1
  level2 ← stream_read byte l.level2
  max_speed_limit ← stream_read byte l.max_speed_limit
  level3 ← stream_read byte l.level3
  facility_code_p ← stream_read byte l.facility_code_p
  facility_code_n ← stream_read byte l.facility_code_n
  link_xy_bes ← read_iteratable_dump byte l.link_xy_bes
  link_xy_grs ← read_iteratable_dump byte l.link_xy_grs
  is_ctt ← stream_read byte l.is_ctt
  line_p_yn ← stream_read byte l.line_p_yn
  line_p_id ← read_buf 30 l.line_p_id
  line_p_xy_bes ← read_iteratable_dump byte l.line_p_xy_bes
  line_p_xy_grs ← read_iteratable_dump byte l.line_p_xy_grs
  line_n_yn ← stream_read byte l.line_n_yn
  line_n_id ← read_buf 30 l.line_n_id
  line_n_xy_bes ← read_iteratable_dump byte l.line_n_xy_bes
  line_n_xy_grs ← read_iteratable_dump byte l.line_n_xy_grs
  is_reallink ← stream_read byte l.is_reallink
  reallink_p_yn ← stream_read byte l.reallink_p_yn
  reallink_p_xy_grs ← read_iteratable_dump byte l.reallink_p_xy_grs
  reallink_n_yn ← stream_read byte l.reallink_n_yn
  reallink_n_xy_grs ← read_iteratable_dump byte l.reallink_n_xy_grs
  sync_flag ← stream_read byte l.sync_flag
  ret (record {
    id = id;
    mapid = mapid;
    st_node_id = st_node_id;
    ed_node_id = ed_node_id;
    st_dir_bes = st_dir_bes;
    ed_dir_bes = ed_dir_bes;
    st_dir_grs = st_dir_grs;
    ed_dir_grs = ed_dir_grs;
    road_kind = road_kind;
    link_kind_code = link_kind_code;
    oneway = oneway;
    road_no = road_no;
    lane_num = lane_num;
    road_name = road_name;
    level1 = level1;
    level2 = level2;
    max_speed_limit = max_speed_limit;
    level3 = level3;
    facility_code_p = facility_code_p;
    facility_code_n = facility_code_n;
    link_xy_bes = link_xy_bes;
    link_xy_grs = link_xy_grs;
    is_ctt = is_ctt;
    line_p_yn = line_p_yn;
    line_p_id = line_p_id;
    line_p_xy_bes = line_p_xy_bes;
    line_p_xy_grs = line_p_xy_grs;
    line_n_yn = line_n_yn;
    line_n_id = line_n_id;
    line_n_xy_bes = line_n_xy_bes;
    line_n_xy_grs = line_n_xy_grs;
    is_reallink = is_reallink;
    reallink_p_yn = reallink_p_yn;
    reallink_p_xy_grs = reallink_p_xy_grs;
    reallink_n_yn = reallink_n_yn;
    reallink_n_xy_grs = reallink_n_xy_grs;
    sync_flag = sync_flag;
  })

abbrev pub class : Class Link
class = record { initial = initial; on_save_to = on_save_to; on_load_from = on_load_from }
