-- ===== src/Messages/Polygon3dInfo/RoundTrip.antt =====
-- ThreadPool/ThreadPool/Common/response_common.h: the round trip of out::Polygon3DInfo.
use multi_thread_test.Common.{ℕ, ◌≡◌, ◌∙◌, some, List, ◌++◌}
use multi_thread_test.Archive.Bytes.{stream}
use multi_thread_test.Archive.RoundTrip.{IsClass, IsLong, HasSize, long_then, buf_then, last_buf}
use multi_thread_test.Messages.Polygon3dInfo.{Polygon3dInfo, class, on_save_to, on_load_from}

-- Every member holds a value of its type.
pub record IsValid (i : Polygon3dInfo) : Type 0 where
  pub pg_id : IsLong i.pg_id
  pub map_id : IsLong i.map_id
  pub bdg_id_3d : HasSize 20 i.bdg_id_3d
  pub pattern_code : HasSize 60 i.pattern_code
  pub arrow_code : HasSize 60 i.arrow_code

pub load-save :
    (old i : Polygon3dInfo) (rest : List ℕ)
    → IsValid i
    → on_load_from old (stream (on_save_to i ++ rest)) ≡ some (i, stream rest)
unfolding on_save_to on_load_from
load-save old i rest valid =
    long_then _ _ _ _ _ valid.pg_id
    ∙ long_then _ _ _ _ _ valid.map_id
    ∙ buf_then _ 20 _ _ _ _ valid.bdg_id_3d
    ∙ buf_then _ 60 _ _ _ _ valid.pattern_code
    ∙ last_buf _ 60 _ _ _ valid.arrow_code

pub class-IsClass : IsClass class IsValid
class-IsClass = record { load-save = load-save }
