-- ===== src/Messages/Height3dInfo/RoundTrip.antt =====
-- ThreadPool/ThreadPool/Common/response_common.h: the round trip of out::Height3DInfo.
use multi_thread_test.Common.{ℕ, ◌≡◌, ◌∙◌, some, List, ◌++◌}
use multi_thread_test.Archive.Bytes.{stream, StoredAll}
use multi_thread_test.Archive.RoundTrip.{IsClass, IsLong, HasSize, long_then, buf_then, last_dump}
use multi_thread_test.Messages.Height3dInfo.{Height3dInfo, class, on_save_to, on_load_from}
use multi_thread_test.Messages.GeoHeight.{geo_height}

-- Every member holds a value of its type.
pub record IsValid (i : Height3dInfo) : Type 0 where
  pub obj_id : IsLong i.obj_id
  pub map_id : IsLong i.map_id
  pub b3d_id : HasSize 15 i.b3d_id
  pub heights : StoredAll geo_height i.heights

pub load-save :
    (old i : Height3dInfo) (rest : List ℕ)
    → IsValid i
    → on_load_from old (stream (on_save_to i ++ rest)) ≡ some (i, stream rest)
unfolding on_save_to on_load_from
load-save old i rest valid =
    long_then _ _ _ _ _ valid.obj_id
    ∙ long_then _ _ _ _ _ valid.map_id
    ∙ buf_then _ 15 _ _ _ _ valid.b3d_id
    ∙ last_dump geo_height _ _ _ _ valid.heights

pub class-IsClass : IsClass class IsValid
class-IsClass = record { load-save = load-save }
