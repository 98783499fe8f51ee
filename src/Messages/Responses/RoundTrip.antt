-- ===== src/Messages/Responses/RoundTrip.antt =====
-- ThreadPool/ThreadPool/Common/response.h: the round trip of the responses.
use multi_thread_test.Common.{length, ℕ, ◌^◌, ◌<◌, ◌≡◌, some, List, ◌++◌}
use multi_thread_test.Archive.{Pod, short}
use multi_thread_test.Archive.Bytes.{stream, StoredAll, bind-some}
use multi_thread_test.Archive.Objects.{Class}
use multi_thread_test.Archive.RoundTrip.{IsClass, AllValid, last_dump, read-write_iteratable}
use multi_thread_test.Messages.Polyline
use multi_thread_test.Messages.Polygon
use multi_thread_test.Messages.Link
use multi_thread_test.Messages.Node
use multi_thread_test.Messages.PassInfo
use multi_thread_test.Messages.Polygon3dInfo
use multi_thread_test.Messages.Height3dInfo
use multi_thread_test.Messages.Requests.RoundTrip.{IsText, IsText-StoredAll}
use multi_thread_test.Messages.Responses.{
  ResWstring, ResVector, ResVectorDump, Response, welcome, error, polylines, polygons, links, nodes,
  pass_infos, polygon_3d_infos, height_3d_infos, save_wstring, load_wstring, save_vector,
  load_vector, save_vector_dump, load_vector_dump, on_save_to, on_load_from, made_like,
}

-- Valid items, no more than an int can count.
pub record IsList {Item : Type 0} (IsItem : Item → Type 0) (objs : List Item) : Type 0 where
  pub inside : AllValid IsItem objs
  pub counted : length objs < 2 ^ 31

abbrev pub IsValid : Response → Type 0
IsValid (welcome r) = IsText r.text
IsValid (error r) = IsText r.text
IsValid (polylines r) = IsList Polyline.RoundTrip.IsValid r.objs
IsValid (polygons r) = IsList Polygon.RoundTrip.IsValid r.objs
IsValid (links r) = IsList Link.RoundTrip.IsValid r.objs
IsValid (nodes r) = IsList Node.RoundTrip.IsValid r.objs
IsValid (pass_infos r) = IsList PassInfo.RoundTrip.IsValid r.objs
IsValid (polygon_3d_infos r) = IsList Polygon3dInfo.RoundTrip.IsValid r.objs
IsValid (height_3d_infos r) = IsList Height3dInfo.RoundTrip.IsValid r.objs

load-save_wstring :
    (old r : ResWstring) (rest : List ℕ)
    → IsText r.text
    → load_wstring old (stream (save_wstring r ++ rest)) ≡ some (r, stream rest)
unfolding load_wstring save_wstring
load-save_wstring old r rest h = last_dump short _ _ _ _ (IsText-StoredAll h)

module _ {Item : Type 0} {class : Class Item} {IsItem : Item → Type 0}
    (laws : IsClass class IsItem) where
  load-save_vector :
      (old r : ResVector Item) (rest : List ℕ)
      → IsList IsItem r.objs
      → load_vector class old (stream (save_vector class r ++ rest)) ≡ some (r, stream rest)
  unfolding load_vector save_vector
  load-save_vector old r rest h =
      bind-some _ (read-write_iteratable laws old.objs r.objs rest h.counted h.inside)

load-save_vector_dump :
    {Item : Type 0} (pod : Pod Item) (old r : ResVectorDump Item) (rest : List ℕ)
    → StoredAll pod r.objs
    → load_vector_dump pod old (stream (save_vector_dump pod r ++ rest)) ≡ some (r, stream rest)
unfolding load_vector_dump save_vector_dump
load-save_vector_dump pod old r rest h = last_dump pod _ _ _ _ h

pub made_like-load :
    (t_kind ttti_id : ℕ) (r : Response) (rest : List ℕ)
    → IsValid r
    → on_load_from t_kind ttti_id (made_like r) (stream (on_save_to t_kind ttti_id r ++ rest))
      ≡ some (r, stream rest)
unfolding on_load_from on_save_to made_like
made_like-load a b (welcome r) rest v = bind-some _ (load-save_wstring _ r rest v)
made_like-load a b (error r) rest v = bind-some _ (load-save_wstring _ r rest v)
made_like-load a b (polylines r) rest v =
    bind-some _ (load-save_vector Polyline.RoundTrip.class-IsClass _ r rest v)
made_like-load a b (polygons r) rest v =
    bind-some _ (load-save_vector Polygon.RoundTrip.class-IsClass _ r rest v)
made_like-load a b (links r) rest v =
    bind-some _ (load-save_vector Link.RoundTrip.class-IsClass _ r rest v)
made_like-load a b (nodes r) rest v =
    bind-some _ (load-save_vector Node.RoundTrip.class-IsClass _ r rest v)
made_like-load a b (pass_infos r) rest v =
    bind-some _ (load-save_vector (PassInfo.RoundTrip.class-IsClass a b) _ r rest v)
made_like-load a b (polygon_3d_infos r) rest v =
    bind-some _ (load-save_vector Polygon3dInfo.RoundTrip.class-IsClass _ r rest v)
made_like-load a b (height_3d_infos r) rest v =
    bind-some _ (load-save_vector Height3dInfo.RoundTrip.class-IsClass _ r rest v)
