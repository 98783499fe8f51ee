-- ===== src/Messages/Polyline/RoundTrip.antt =====
-- ThreadPool/ThreadPool/Common/response_common.h: the round trip of out::Polyline.
use multi_thread_test.Common.{ℕ, ◌≡◌, ◌∙◌, some, List, ◌++◌, arith}
use multi_thread_test.Archive.Bytes.{stream}
use multi_thread_test.Archive.RoundTrip.{
  IsClass, IsLong, HasSize, IsVectorByte, long_then, vector_then, buf_then, last_word,
}
use multi_thread_test.Messages.Polyline.{Polyline, class, on_save_to, on_load_from}

-- Every member holds a value of its type.
pub record IsValid (p : Polyline) : Type 0 where
  pub id : IsLong p.id
  pub mapid : IsLong p.mapid
  pub kind : IsLong p.kind
  pub bdgid_bes : HasSize 12 p.bdgid_bes
  pub bdgid_grs : HasSize 12 p.bdgid_grs
  pub xy_bes : IsVectorByte p.xy_bes
  pub xy_grs : IsVectorByte p.xy_grs
  pub syncflag : IsLong p.syncflag

pub load-save :
    (old p : Polyline) (rest : List ℕ)
    → IsValid p
    → on_load_from old (stream (on_save_to p ++ rest)) ≡ some (p, stream rest)
unfolding on_save_to on_load_from
load-save old p rest valid =
    long_then _ _ _ _ _ valid.id
    ∙ long_then _ _ _ _ _ valid.mapid
    ∙ long_then _ _ _ _ _ valid.kind
    ∙ buf_then _ 12 _ _ _ _ valid.bdgid_bes
    ∙ buf_then _ 12 _ _ _ _ valid.bdgid_grs
    ∙ vector_then _ _ _ _ _ valid.xy_bes
    ∙ vector_then _ _ _ _ _ valid.xy_grs
    ∙ last_word 4 _ _ _ _ (omega (arith, valid.syncflag))

pub class-IsClass : IsClass class IsValid
class-IsClass = record { load-save = load-save }
