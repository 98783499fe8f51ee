-- ===== src/Messages/Requests.antt =====
-- ThreadPool/ThreadPool/Common/request.h: the requests. CMapDoubleArea is a class of another
-- library, a parameter here. A std::wstring is its UTF-16 code units; an enum is stored as an int.
pub mod RoundTrip
use multi_thread_test.Common.{◌==◌, if◌then◌else◌, ℕ, Option, none, some, List, []}
use multi_thread_test.Archive.{
  ◌>>=◌, ◌⨾◌, R, InStream, Pod, ret, stream_read, stream_write, read_iteratable_dump,
  write_iteratable_dump, short, long,
}
use multi_thread_test.Archive.Objects.{Class}

-- Req_Int
pub record ReqInt : Type 0 where
  pub number : ℕ

pub record ReqEllipseArea (Area : Type 0) : Type 0 where
  pub ellipsoid : ℕ
  pub area : Area

pub record ReqEllipseLoadtypeArea (Area : Type 0) : Type 0 where
  pub ellipsoid : ℕ
  pub load_type : ℕ
  pub area : Area

pub record ReqMapid : Type 0 where
  pub mapid : List ℕ

pub record ReqLoadtypeMapid : Type 0 where
  pub load_type : ℕ
  pub mapid : List ℕ

unfoldable pub save_int : ReqInt → List ℕ
save_int r = stream_write long r.number

unfoldable pub load_int : ReqInt → R ReqInt
load_int r = do number ← stream_read long r.number; ret (record { number = number })

unfoldable pub save_mapid : ReqMapid → List ℕ
save_mapid r = write_iteratable_dump short r.mapid

unfoldable pub load_mapid : ReqMapid → R ReqMapid
load_mapid r = do mapid ← read_iteratable_dump short r.mapid; ret (record { mapid = mapid })

unfoldable pub save_loadtype_mapid : ReqLoadtypeMapid → List ℕ
save_loadtype_mapid r = stream_write long r.load_type ⨾ write_iteratable_dump short r.mapid

unfoldable pub load_loadtype_mapid : ReqLoadtypeMapid → R ReqLoadtypeMapid
load_loadtype_mapid r = do
  load_type ← stream_read long r.load_type
  mapid ← read_iteratable_dump short r.mapid
  ret (record { load_type = load_type; mapid = mapid })

module _ {Area : Type 0} (pod : Pod Area) where
  unfoldable pub save_area : ReqEllipseArea Area → List ℕ
  save_area r = stream_write long r.ellipsoid ⨾ stream_write pod r.area

  unfoldable pub load_area : ReqEllipseArea Area → R (ReqEllipseArea Area)
  load_area r = do
    ellipsoid ← stream_read long r.ellipsoid
    area ← stream_read pod r.area
    ret (record { ellipsoid = ellipsoid; area = area })

  unfoldable pub save_loadtype_area : ReqEllipseLoadtypeArea Area → List ℕ
  save_loadtype_area r =
      stream_write long r.ellipsoid ⨾ stream_write long r.load_type ⨾ stream_write pod r.area

  unfoldable pub load_loadtype_area : ReqEllipseLoadtypeArea Area → R (ReqEllipseLoadtypeArea Area)
  load_loadtype_area r = do
    ellipsoid ← stream_read long r.ellipsoid
    load_type ← stream_read long r.load_type
    area ← stream_read pod r.area
    ret (record { ellipsoid = ellipsoid; load_type = load_type; area = area })

-- The request classes that request.h names by typedef.
pub data Request (Area : Type 0) : Type 0 where
  welcome : ReqInt → Request Area
  polylines_area polygons_area nodes_area links_area pass_infos_area height_3d_infos :
      ReqEllipseLoadtypeArea Area → Request Area
  polylines_mapid links_mapid : ReqMapid → Request Area
  polygons_mapid nodes_mapid pass_infos_mapid : ReqLoadtypeMapid → Request Area
  polygon_3d_infos : ReqEllipseArea Area → Request Area

module _ {Area : Type 0} where
  -- IMessage::msg_id
  unfoldable pub msg_id : Request Area → ℕ
  msg_id (welcome r) = 100101
  msg_id (polylines_area r) = 100201
  msg_id (polylines_mapid r) = 100301
  msg_id (polygons_area r) = 100401
  msg_id (polygons_mapid r) = 100501
  msg_id (links_area r) = 100601
  msg_id (links_mapid r) = 100701
  msg_id (nodes_area r) = 100801
  msg_id (nodes_mapid r) = 100901
  msg_id (pass_infos_area r) = 101001
  msg_id (pass_infos_mapid r) = 101101
  msg_id (polygon_3d_infos r) = 101201
  msg_id (height_3d_infos r) = 101301

module _ {Area : Type 0} (pod : Pod Area) where
  -- The virtual calls of on_save_to and on_load_from.
  unfoldable pub on_save_to : Request Area → List ℕ
  on_save_to (welcome r) = save_int r
  on_save_to (polylines_area r) = save_loadtype_area pod r
  on_save_to (polylines_mapid r) = save_mapid r
  on_save_to (polygons_area r) = save_loadtype_area pod r
  on_save_to (polygons_mapid r) = save_loadtype_mapid r
  on_save_to (links_area r) = save_loadtype_area pod r
  on_save_to (links_mapid r) = save_mapid r
  on_save_to (nodes_area r) = save_loadtype_area pod r
  on_save_to (nodes_mapid r) = save_loadtype_mapid r
  on_save_to (pass_infos_area r) = save_loadtype_area pod r
  on_save_to (pass_infos_mapid r) = save_loadtype_mapid r
  on_save_to (polygon_3d_infos r) = save_area pod r
  on_save_to (height_3d_infos r) = save_loadtype_area pod r

  unfoldable pub on_load_from : Request Area → R (Request Area)
  on_load_from (welcome r) = load_int r >>= λ r'. ret (welcome r')
  on_load_from (polylines_area r) = load_loadtype_area pod r >>= λ r'. ret (polylines_area r')
  on_load_from (polylines_mapid r) = load_mapid r >>= λ r'. ret (polylines_mapid r')
  on_load_from (polygons_area r) = load_loadtype_area pod r >>= λ r'. ret (polygons_area r')
  on_load_from (polygons_mapid r) = load_loadtype_mapid r >>= λ r'. ret (polygons_mapid r')
  on_load_from (links_area r) = load_loadtype_area pod r >>= λ r'. ret (links_area r')
  on_load_from (links_mapid r) = load_mapid r >>= λ r'. ret (links_mapid r')
  on_load_from (nodes_area r) = load_loadtype_area pod r >>= λ r'. ret (nodes_area r')
  on_load_from (nodes_mapid r) = load_loadtype_mapid r >>= λ r'. ret (nodes_mapid r')
  on_load_from (pass_infos_area r) = load_loadtype_area pod r >>= λ r'. ret (pass_infos_area r')
  on_load_from (pass_infos_mapid r) = load_loadtype_mapid r >>= λ r'. ret (pass_infos_mapid r')
  on_load_from (polygon_3d_infos r) = load_area pod r >>= λ r'. ret (polygon_3d_infos r')
  on_load_from (height_3d_infos r) = load_loadtype_area pod r >>= λ r'. ret (height_3d_infos r')

-- RequestCreator::create; `none` is NULL. Five of its cases are of ids that eNetID does not have and
-- of classes that are not in the repository: they are left out.
unfoldable pub create : {Area : Type 0} → Area → (msgid : ℕ) → Option (Request Area)
create {Area} area msgid =
    let by_type : ReqEllipseLoadtypeArea Area = record {
      ellipsoid = 0;
      load_type = 0;
      area = area;
    } in
    let by_both : ReqLoadtypeMapid = record { load_type = 0; mapid = [] } in
    let by_mapid : ReqMapid = record { mapid = [] } in
    if msgid == 100101
    then some (welcome (record { number = 0 }))
    else if msgid == 100201
    then some (polylines_area by_type)
    else if msgid == 100301
    then some (polylines_mapid by_mapid)
    else if msgid == 100401
    then some (polygons_area by_type)
    else if msgid == 100501
    then some (polygons_mapid by_both)
    else if msgid == 100601
    then some (links_area by_type)
    else if msgid == 100701
    then some (links_mapid by_mapid)
    else if msgid == 100801
    then some (nodes_area by_type)
    else if msgid == 100901
    then some (nodes_mapid by_both)
    else if msgid == 101001
    then some (pass_infos_area by_type)
    else if msgid == 101101
    then some (pass_infos_mapid by_both)
    else if msgid == 101201
    then some (polygon_3d_infos (record { ellipsoid = 2; area = area }))
    else if msgid == 101301
    then some (height_3d_infos by_type)
    else none
