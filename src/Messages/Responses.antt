-- ===== src/Messages/Responses.antt =====
-- ThreadPool/ThreadPool/Common/response.h: the responses. A std::wstring is its UTF-16 code units.
pub mod RoundTrip
use multi_thread_test.Common.{ℕ, List, []}
use multi_thread_test.Archive.{
  ◌>>=◌, R, InStream, Pod, ret, read_iteratable_dump, write_iteratable_dump, short,
}
use multi_thread_test.Archive.Objects.{Class, write_iteratable, read_iteratable}
use multi_thread_test.Messages.Polyline
use multi_thread_test.Messages.Polygon
use multi_thread_test.Messages.Link
use multi_thread_test.Messages.Node
use multi_thread_test.Messages.PassInfo
use multi_thread_test.Messages.Polygon3dInfo
use multi_thread_test.Messages.Height3dInfo
use multi_thread_test.Messages.Polyline.{Polyline}
use multi_thread_test.Messages.Polygon.{Polygon}
use multi_thread_test.Messages.Link.{Link}
use multi_thread_test.Messages.Node.{Node}
use multi_thread_test.Messages.PassInfo.{PassInfo}
use multi_thread_test.Messages.Polygon3dInfo.{Polygon3dInfo}
use multi_thread_test.Messages.Height3dInfo.{Height3dInfo}

-- Res_wstring
pub record ResWstring : Type 0 where
  pub text : List ℕ

-- Res_vector
pub record ResVector (Item : Type 0) : Type 0 where
  pub objs : List Item

-- Res_vector_dump
pub record ResVectorDump (Item : Type 0) : Type 0 where
  pub objs : List Item

unfoldable pub save_wstring : ResWstring → List ℕ
save_wstring r = write_iteratable_dump short r.text

unfoldable pub load_wstring : ResWstring → R ResWstring
load_wstring r = do text ← read_iteratable_dump short r.text; ret (record { text = text })

module _ {Item : Type 0} where
  unfoldable pub save_vector : Class Item → ResVector Item → List ℕ
  save_vector class r = write_iteratable class r.objs

  unfoldable pub load_vector : Class Item → ResVector Item → R (ResVector Item)
  load_vector class r = do objs ← read_iteratable class r.objs; ret (record { objs = objs })

  unfoldable pub save_vector_dump : Pod Item → ResVectorDump Item → List ℕ
  save_vector_dump pod r = write_iteratable_dump pod r.objs

  unfoldable pub load_vector_dump : Pod Item → ResVectorDump Item → R (ResVectorDump Item)
  load_vector_dump pod r = do objs ← read_iteratable_dump pod r.objs; ret (record { objs = objs })

-- The response classes that response.h names by typedef.
pub data Response : Type 0 where
  welcome error : ResWstring → Response
  polylines : ResVector Polyline → Response
  polygons : ResVector Polygon → Response
  links : ResVector Link → Response
  nodes : ResVector Node → Response
  pass_infos : ResVector PassInfo → Response
  polygon_3d_infos : ResVector Polygon3dInfo → Response
  height_3d_infos : ResVector Height3dInfo → Response

-- IMessage::msg_id
unfoldable pub msg_id : Response → ℕ
msg_id (welcome r) = 500101
msg_id (error r) = 500201
msg_id (polylines r) = 500301
msg_id (polygons r) = 500401
msg_id (links r) = 500501
msg_id (nodes r) = 500601
msg_id (pass_infos r) = 500701
msg_id (polygon_3d_infos r) = 500801
msg_id (height_3d_infos r) = 500901

-- `t_kind` and `ttti_id` are what the memory of a new PassInfo held.
module _ (t_kind ttti_id : ℕ) where
  -- The virtual calls of on_save_to and on_load_from.
  unfoldable pub on_save_to : Response → List ℕ
  on_save_to (welcome r) = save_wstring r
  on_save_to (error r) = save_wstring r
  on_save_to (polylines r) = save_vector Polyline.class r
  on_save_to (polygons r) = save_vector Polygon.class r
  on_save_to (links r) = save_vector Link.class r
  on_save_to (nodes r) = save_vector Node.class r
  on_save_to (pass_infos r) = save_vector (PassInfo.class t_kind ttti_id) r
  on_save_to (polygon_3d_infos r) = save_vector Polygon3dInfo.class r
  on_save_to (height_3d_infos r) = save_vector Height3dInfo.class r

  unfoldable pub on_load_from : Response → R Response
  on_load_from (welcome r) = load_wstring r >>= λ r'. ret (welcome r')
  on_load_from (error r) = load_wstring r >>= λ r'. ret (error r')
  on_load_from (polylines r) = load_vector Polyline.class r >>= λ r'. ret (polylines r')
  on_load_from (polygons r) = load_vector Polygon.class r >>= λ r'. ret (polygons r')
  on_load_from (links r) = load_vector Link.class r >>= λ r'. ret (links r')
  on_load_from (nodes r) = load_vector Node.class r >>= λ r'. ret (nodes r')
  on_load_from (pass_infos r) =
      load_vector (PassInfo.class t_kind ttti_id) r >>= λ r'. ret (pass_infos r')
  on_load_from (polygon_3d_infos r) =
      load_vector Polygon3dInfo.class r >>= λ r'. ret (polygon_3d_infos r')
  on_load_from (height_3d_infos r) =
      load_vector Height3dInfo.class r >>= λ r'. ret (height_3d_infos r')

-- The default constructor of the class of a response.
unfoldable pub made_like : Response → Response
made_like (welcome r) = welcome (record { text = [] })
made_like (error r) = error (record { text = [] })
made_like (polylines r) = polylines (record { objs = [] })
made_like (polygons r) = polygons (record { objs = [] })
made_like (links r) = links (record { objs = [] })
made_like (nodes r) = nodes (record { objs = [] })
made_like (pass_infos r) = pass_infos (record { objs = [] })
made_like (polygon_3d_infos r) = polygon_3d_infos (record { objs = [] })
made_like (height_3d_infos r) = height_3d_infos (record { objs = [] })
