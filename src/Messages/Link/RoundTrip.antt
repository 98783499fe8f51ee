-- ===== src/Messages/Link/RoundTrip.antt =====
-- ThreadPool/ThreadPool/Common/response_common.h: the round trip of out::Link.
use multi_thread_test.Common.{ℕ, ◌≡◌, ◌∙◌, some, List, ◌++◌, arith}
use multi_thread_test.Archive.Bytes.{stream}
use multi_thread_test.Archive.RoundTrip.{
  IsClass, IsByte, IsShort, IsLong, HasSize, IsVectorByte, byte_then, short_then, long_then,
  vector_then, buf_then, last_word,
}
use multi_thread_test.Messages.Link.{Link, class, on_save_to, on_load_from}

-- Every member holds a value of its type.
pub record IsValid (l : Link) : Type 0 where
  pub id : IsLong l.id
  pub mapid : IsLong l.mapid
  pub st_node_id : IsLong l.st_node_id
  pub ed_node_id : IsLong l.ed_node_id
  pub st_dir_bes : IsByte l.st_dir_bes
  pub ed_dir_bes : IsByte l.ed_dir_bes
  pub st_dir_grs : IsByte l.st_dir_grs
  pub ed_dir_grs : IsByte l.ed_dir_grs
  pub road_kind : IsByte l.road_kind
  pub link_kind_code : IsShort l.link_kind_code
  pub oneway : IsByte l.oneway
  pub road_no : IsLong l.road_no
  pub lane_num : IsByte l.lane_num
  pub road_name : HasSize 30 l.road_name
  pub level1 : IsByte l.level1
  pub level2 : IsByte l.level2
  pub max_speed_limit : IsByte l.max_speed_limit
  pub level3 : IsByte l.level3
  pub facility_code_p : IsByte l.facility_code_p
  pub facility_code_n : IsByte l.facility_code_n
  pub link_xy_bes : IsVectorByte l.link_xy_bes
  pub link_xy_grs : IsVectorByte l.link_xy_grs
  pub is_ctt : IsByte l.is_ctt
  pub line_p_yn : IsByte l.line_p_yn
  pub line_p_id : HasSize 30 l.line_p_id
  pub line_p_xy_bes : IsVectorByte l.line_p_xy_bes
  pub line_p_xy_grs : IsVectorByte l.line_p_xy_grs
  pub line_n_yn : IsByte l.line_n_yn
  pub line_n_id : HasSize 30 l.line_n_id
  pub line_n_xy_bes : IsVectorByte l.line_n_xy_bes
  pub line_n_xy_grs : IsVectorByte l.line_n_xy_grs
  pub is_reallink : IsByte l.is_reallink
  pub reallink_p_yn : IsByte l.reallink_p_yn
  pub reallink_p_xy_grs : IsVectorByte l.reallink_p_xy_grs
  pub reallink_n_yn : IsByte l.reallink_n_yn
  pub reallink_n_xy_grs : IsVectorByte l.reallink_n_xy_grs
  pub sync_flag : IsByte l.sync_flag

pub load-save :
    (old l : Link) (rest : List ℕ)
    → IsValid l
    → on_load_from old (stream (on_save_to l ++ rest)) ≡ some (l, stream rest)
unfolding on_save_to on_load_from
load-save old l rest valid =
    long_then _ _ _ _ _ valid.id
    ∙ long_then _ _ _ _ _ valid.mapid
    ∙ long_then _ _ _ _ _ valid.st_node_id
    ∙ long_then _ _ _ _ _ valid.ed_node_id
    ∙ byte_then _ _ _ _ _ valid.st_dir_bes
    ∙ byte_then _ _ _ _ _ valid.ed_dir_bes
    ∙ byte_then _ _ _ _ _ valid.st_dir_grs
    ∙ byte_then _ _ _ _ _ valid.ed_dir_grs
    ∙ byte_then _ _ _ _ _ valid.road_kind
    ∙ short_then _ _ _ _ _ valid.link_kind_code
    ∙ byte_then _ _ _ _ _ valid.oneway
    ∙ long_then _ _ _ _ _ valid.road_no
    ∙ byte_then _ _ _ _ _ valid.lane_num
    ∙ buf_then _ 30 _ _ _ _ valid.road_name
    ∙ byte_then _ _ _ _ _ valid.level1
    ∙ byte_then _ _ _ _ _ valid.level2
    ∙ byte_then _ _ _ _ _ valid.max_speed_limit
    ∙ byte_then _ _ _ _ _ valid.level3
    ∙ byte_then _ _ _ _ _ valid.facility_code_p
    ∙ byte_then _ _ _ _ _ valid.facility_code_n
    ∙ vector_then _ _ _ _ _ valid.link_xy_bes
    ∙ vector_then _ _ _ _ _ valid.link_xy_grs
    ∙ byte_then _ _ _ _ _ valid.is_ctt
    ∙ byte_then _ _ _ _ _ valid.line_p_yn
    ∙ buf_then _ 30 _ _ _ _ valid.line_p_id
    ∙ vector_then _ _ _ _ _ valid.line_p_xy_bes
    ∙ vector_then _ _ _ _ _ valid.line_p_xy_grs
    ∙ byte_then _ _ _ _ _ valid.line_n_yn
    ∙ buf_then _ 30 _ _ _ _ valid.line_n_id
    ∙ vector_then _ _ _ _ _ valid.line_n_xy_bes
    ∙ vector_then _ _ _ _ _ valid.line_n_xy_grs
    ∙ byte_then _ _ _ _ _ valid.is_reallink
    ∙ byte_then _ _ _ _ _ valid.reallink_p_yn
    ∙ vector_then _ _ _ _ _ valid.reallink_p_xy_grs
    ∙ byte_then _ _ _ _ _ valid.reallink_n_yn
    ∙ vector_then _ _ _ _ _ valid.reallink_n_xy_grs
    ∙ last_word 1 _ _ _ _ (omega (arith, valid.sync_flag))

pub class-IsClass : IsClass class IsValid
class-IsClass = record { load-save = load-save }
