-- ===== src/Messages/Node/RoundTrip.antt =====
-- ThreadPool/ThreadPool/Common/response_common.h: the round trip of out::Node.
use multi_thread_test.Common.{ℕ, ◌≡◌, ◌∙◌, some, List, ◌++◌, arith}
use multi_thread_test.Archive.Bytes.{stream}
use multi_thread_test.Archive.RoundTrip.{
  IsClass, IsByte, IsLong, HasSize, IsVectorByte, byte_then, long_then, vector_then, buf_then,
  last_word,
}
use multi_thread_test.Messages.Node.{Node, class, on_save_to, on_load_from}

-- Every member holds a value of its type.
pub record IsValid (n : Node) : Type 0 where
  pub id : IsLong n.id
  pub mapid : IsLong n.mapid
  pub rep_node_id : IsLong n.rep_node_id
  pub name : HasSize 30 n.name
  pub kind : IsByte n.kind
  pub xy_bes : IsVectorByte n.xy_bes
  pub xy_grs : IsVectorByte n.xy_grs
  pub linkids : HasSize 32 n.linkids
  pub syncflag : IsByte n.syncflag

pub load-save :
    (old n : Node) (rest : List ℕ)
    → IsValid n
    → on_load_from old (stream (on_save_to n ++ rest)) ≡ some (n, stream rest)
unfolding on_save_to on_load_from
load-save old n rest valid =
    long_then _ _ _ _ _ valid.id
    ∙ long_then _ _ _ _ _ valid.mapid
    ∙ long_then _ _ _ _ _ valid.rep_node_id
    ∙ buf_then _ 30 _ _ _ _ valid.name
    ∙ byte_then _ _ _ _ _ valid.kind
    ∙ vector_then _ _ _ _ _ valid.xy_bes
    ∙ vector_then _ _ _ _ _ valid.xy_grs
    ∙ buf_then _ 32 _ _ _ _ valid.linkids
    ∙ last_word 1 _ _ _ _ (omega (arith, valid.syncflag))

pub class-IsClass : IsClass class IsValid
class-IsClass = record { load-save = load-save }
