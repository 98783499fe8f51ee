-- ===== src/Messages/PassInfo/RoundTrip.antt =====
-- ThreadPool/ThreadPool/Common/response_common.h: the round trip of out::PassInfo.
use multi_thread_test.Common.{ℕ, ◌≡◌, ◌∙◌, some, List, ◌++◌, arith}
use multi_thread_test.Archive.Bytes.{stream}
use multi_thread_test.Archive.RoundTrip.{
  IsClass, IsByte, IsShort, IsLong, byte_then, long_then, last_word,
}
use multi_thread_test.Messages.PassInfo.{PassInfo, class, on_save_to, on_load_from}

-- Every member holds a value of its type.
pub record IsValid (i : PassInfo) : Type 0 where
  pub id : IsLong i.id
  pub mapid : IsLong i.mapid
  pub dt_in_link_id : IsLong i.dt_in_link_id
  pub dt_out_link_id : IsLong i.dt_out_link_id
  pub dt_d_kind : IsByte i.dt_d_kind
  pub dt_t_kind : IsByte i.dt_t_kind
  pub dt_ttti_id : IsShort i.dt_ttti_id

pub load-save :
    (old i : PassInfo) (rest : List ℕ)
    → IsValid i
    → on_load_from old (stream (on_save_to i ++ rest)) ≡ some (i, stream rest)
unfolding on_save_to on_load_from
load-save old i rest valid =
    long_then _ _ _ _ _ valid.id
    ∙ long_then _ _ _ _ _ valid.mapid
    ∙ long_then _ _ _ _ _ valid.dt_in_link_id
    ∙ long_then _ _ _ _ _ valid.dt_out_link_id
    ∙ byte_then _ _ _ _ _ valid.dt_d_kind
    ∙ byte_then _ _ _ _ _ valid.dt_t_kind
    ∙ last_word 2 _ _ _ _ (omega (arith, valid.dt_ttti_id))

pub class-IsClass : (t_kind ttti_id : ℕ) → IsClass (class t_kind ttti_id) IsValid
class-IsClass t_kind ttti_id = record { load-save = load-save }
