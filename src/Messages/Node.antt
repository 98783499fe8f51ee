-- ===== src/Messages/Node.antt =====
-- ThreadPool/ThreadPool/Common/response_common.h: out::Node, with its on_save_to and on_load_from.
-- An array is the bytes of its memory.
pub mod RoundTrip
use multi_thread_test.Common.{replicate, ℕ, List, []}
use multi_thread_test.Archive.{
  ◌>>=◌, ◌⨾◌, R, InStream, Pod, ret, stream_read, stream_write, read_buf, write_buf,
  read_iteratable_dump, write_iteratable_dump, byte, short, long, double,
}
use multi_thread_test.Archive.Objects.{Class}

pub record Node : Type 0 where
  pub id : ℕ
  pub mapid : ℕ
  pub rep_node_id : ℕ
  pub name : List ℕ
  pub kind : ℕ
  pub xy_bes : List ℕ
  pub xy_grs : List ℕ
  pub linkids : List ℕ
  pub syncflag : ℕ

abbrev pub initial : Node
initial = record {
  id = 0;
  mapid = 0;
  rep_node_id = 0;
  name = replicate 30 0;
  kind = 0;
  xy_bes = [];
  xy_grs = [];
  linkids = replicate 32 0;
  syncflag = 0;
}

unfoldable pub on_save_to : Node → List ℕ
on_save_to n =
    stream_write long n.id
    ⨾ stream_write long n.mapid
    ⨾ stream_write long n.rep_node_id
    ⨾ write_buf n.name 30
    ⨾ stream_write byte n.kind
    ⨾ write_iteratable_dump byte n.xy_bes
    ⨾ write_iteratable_dump byte n.xy_grs
    ⨾ write_buf n.linkids 32
    ⨾ stream_write byte n.syncflag

unfoldable pub on_load_from : Node → R Node
on_load_from n = do
  id ← stream_read long n.id
  mapid ← stream_read long n.mapid
  rep_node_id ← stream_read long n.rep_node_id
  name ← read_buf 30 n.name
  kind ← stream_read byte n.kind
  xy_bes ← read_iteratable_dump byte n.xy_bes
  xy_grs ← read_iteratable_dump byte n.xy_grs
  linkids ← read_buf 32 n.linkids
  syncflag ← stream_read byte n.syncflag
  ret (record {
    id = id;
    mapid = mapid;
    rep_node_id = rep_node_id;
    name = name;
    kind = kind;
    xy_bes = xy_bes;
    xy_grs = xy_grs;
    linkids = linkids;
    syncflag = syncflag;
  })

abbrev pub class : Class Node
class = record { initial = initial; on_save_to = on_save_to; on_load_from = on_load_from }
