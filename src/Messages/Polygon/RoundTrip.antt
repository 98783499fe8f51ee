-- ===== src/Messages/Polygon/RoundTrip.antt =====
-- ThreadPool/ThreadPool/Common/response_common.h: the round trip of out::Polygon.
use multi_thread_test.Common.{ℕ, ◌≡◌, ◌∙◌, some, List, ◌++◌, arith}
use multi_thread_test.Archive.Bytes.{stream}
use multi_thread_test.Archive.RoundTrip.{
  IsClass, IsLong, HasSize, IsVectorByte, long_then, vector_then, buf_then, last_word,
}
use multi_thread_test.Messages.Polygon.{Polygon, class, on_save_to, on_load_from}

-- Every member holds a value of its type.
pub record IsValid (p : Polygon) : Type 0 where
  pub id : IsLong p.id
  pub mapid : IsLong p.mapid
  pub kind : IsLong p.kind
  pub upper_level : IsLong p.upper_level
  pub lane_code : HasSize 20 p.lane_code
  pub arrow_code : HasSize 20 p.arrow_code
  pub bd_floor : IsLong p.bd_floor
  pub xy_bes : IsVectorByte p.xy_bes
  pub xy_grs : IsVectorByte p.xy_grs
  pub syncflag : IsLong p.syncflag

pub load-save :
    (old p : Polygon) (rest : List ℕ)
    → IsValid p
    → on_load_from old (stream (on_save_to p ++ rest)) ≡ some (p, stream rest)
unfolding on_save_to on_load_from
load-save old p rest valid =
    long_then _ _ _ _ _ valid.id
    ∙ long_then _ _ _ _ _ valid.mapid
    ∙ long_then _ _ _ _ _ valid.kind
    ∙ long_then _ _ _ _ _ valid.upper_level
    ∙ buf_then _ 20 _ _ _ _ valid.lane_code
    ∙ buf_then _ 20 _ _ _ _ valid.arrow_code
    ∙ long_then _ _ _ _ _ valid.bd_floor
    ∙ vector_then _ _ _ _ _ valid.xy_bes
    ∙ vector_then _ _ _ _ _ valid.xy_grs
    ∙ last_word 4 _ _ _ _ (omega (arith, valid.syncflag))

pub class-IsClass : IsClass class IsValid
class-IsClass = record { load-save = load-save }
