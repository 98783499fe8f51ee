-- ===== src/Workers.antt =====
-- ThreadPool/ThreadPool/Server/worker_creator.cpp, worker_common.h and worker_common.cpp: the
-- workers, which answer a request from the database. The database classes (CRBPolyline and others)
-- and the formats of a CMapDoubleArea are other libraries' code, parameters here: a query gives its
-- rows or `none` for false. Text is UTF-16 code units.
use multi_thread_test.Common.{
  ◌==◌, if◌then◌else◌, ℕ, zero, suc, Option, none, some, List, [], ◌∷◌, ◌++◌,
}
use multi_thread_test.Messages.Polyline.{Polyline}
use multi_thread_test.Messages.Polygon.{Polygon}
use multi_thread_test.Messages.Link.{Link}
use multi_thread_test.Messages.Polygon3dInfo.{Polygon3dInfo}
use multi_thread_test.Messages.Height3dInfo.{Height3dInfo}
use multi_thread_test.Messages.Requests
use multi_thread_test.Messages.Requests.{Request, ReqEllipseLoadtypeArea, ReqLoadtypeMapid}
use multi_thread_test.Messages.Responses
use multi_thread_test.Messages.Responses.{Response, ResVector}
use Prim.Native.Char.{code}
use Prim.Native.String.{String}

-- Characters of a literal.
abbrev codes : String → List ℕ
codes String.[] = []
codes (String.◌∷◌ c s) = code c ∷ codes s

unfoldable pub text : String → List ℕ
text s = codes s

-- What `%s` prints of a wstring's c_str(): the code units before the first that is 0.
unfoldable pub c_str : List ℕ → List ℕ
c_str [] = []
c_str (zero ∷ units) = []
c_str (suc n ∷ units) = suc n ∷ c_str units

-- `call GP_BTM_POLYLINE_SEL_LEVEL(n, 3, area)` and its kin.
unfoldable pub level_query : (procedure level : List ℕ) → (area : List ℕ) → List ℕ
level_query procedure level area =
    text "call " ++ (procedure ++ (text "(" ++ (level ++ (text ", 3, " ++ (area ++ text ")")))))

unfoldable pub call_query : (procedure arguments : List ℕ) → List ℕ
call_query procedure arguments =
    text "call " ++ (procedure ++ (text "(" ++ (arguments ++ text ")")))

pub record Database (Area : Type 0) : Type 0 where
  pub get_res_polyline : (query : List ℕ) → Option (List Polyline)
  pub polygon_get_binary : (query : List ℕ) → Option (List Polygon)
  pub get_pa_binary : (query : List ℕ) → Option (List Polygon)
  pub link_get_binary : (query : List ℕ) → Option (List Link)
  pub select_poly_info_for_conv_3d : (query : List ℕ) → Option (List Polygon3dInfo)
  pub select_obj_height_info : (query : List ℕ) → Option (List Height3dInfo)
  pub format_float : Area → List ℕ  -- "%f, %f, %f, %f"
  pub format_unsigned : Area → List ℕ  -- "%u, %u, %u, %u" of the members as DWORD
  pub format_int : ℕ → List ℕ  -- "%d"

-- The IWorker classes, with the request of each.
pub data Worker (Area : Type 0) : Type 0 where
  welcome polyline_area polyline_mapid polygon_area polygon_mapid link_area link_mapid
        pg_info_for_3d height_info_for_3d :
      (request : Request Area) → Worker Area

module _ {Area : Type 0} where
  -- createWorker; `none` is NULL.
  unfoldable pub create_worker : Request Area → Option (Worker Area)
  create_worker request =
      let id = Requests.msg_id request in
      if id == 100101
      then some (welcome request)
      else if id == 100201
      then some (polyline_area request)
      else if id == 100301
      then some (polyline_mapid request)
      else if id == 100401
      then some (polygon_area request)
      else if id == 100501
      then some (polygon_mapid request)
      else if id == 100601
      then some (link_area request)
      else if id == 100701
      then some (link_mapid request)
      else if id == 101201
      then some (pg_info_for_3d request)
      else if id == 101301
      then some (height_info_for_3d request)
      else none

  module _ (db : Database Area) where
    -- Only GRS_80 has decimals.
    unfoldable pub area_text : (ellipsoid : ℕ) → Area → List ℕ
    area_text ellipsoid area =
        if ellipsoid == 2 then db.format_float area else db.format_unsigned area

    unfoldable pub polyline_query : ReqEllipseLoadtypeArea Area → List ℕ
    polyline_query r =
        let area = area_text r.ellipsoid r.area in
        let level = λ (l : List ℕ). level_query (text "GP_BTM_POLYLINE_SEL_LEVEL") l area in
        if r.load_type == 5
        then level (text "5")
        else if r.load_type == 4
        then level (text "4")
        else if r.load_type == 3
        then level (text "3")
        else if r.load_type == 2
        then level (text "2")
        else if r.load_type == 1
        then level (text "1")
        else call_query (text "GP_BTM_POLYLINE_SEL_INTERSECTS") area

    unfoldable pub polygon_query : ReqEllipseLoadtypeArea Area → List ℕ
    polygon_query r =
        let area = area_text r.ellipsoid r.area in
        let level = λ (l : List ℕ). level_query (text "GP_BTM_POLYGON_SEL_LEVEL") l area in
        if r.load_type == 5
        then level (text "5")
        else if r.load_type == 4
        then level (text "4")
        else if r.load_type == 3
        then level (text "3")
        else if r.load_type == 2
        then level (text "2")
        else if r.load_type == 1
        then level (text "1")
        else if r.load_type == 217
        then level (text "6")
        else call_query (text "GP_BTM_POLYGON_SEL_INTERSECTS") area

    unfoldable pub link_query : ReqEllipseLoadtypeArea Area → List ℕ
    link_query r =
        let area = area_text r.ellipsoid r.area in
        let level =
          λ (l : List ℕ). level_query (text "GP_RTM_LINK_SEL_LEVEL_CTT_REALLINK") l area in
        if r.load_type == 5
        then level (text "5")
        else if r.load_type == 4
        then level (text "4")
        else if r.load_type == 3
        then level (text "3")
        else call_query (text "GP_RTM_LINK_SEL_INTERSECTS_CTT_REALLINK") area

    unfoldable pub polygon_mapid_rows : ReqLoadtypeMapid → Option (List Polygon)
    polygon_mapid_rows r =
        if r.load_type == 211
        then db.polygon_get_binary (call_query (text "GP_BTM_POLYGON_SEL_REGION") (c_str r.mapid))
        else if r.load_type == 214
        then db.polygon_get_binary
            (call_query (text "GP_BTM_POLYGON_SEL_REGION_HOUSE") (c_str r.mapid))
        else if r.load_type == 232
        then db.get_pa_binary (text "EXEC UP_BTM_POLYGON_AUTO_SEL " ++ c_str r.mapid)
        else none

    -- A vector response of the rows, or NULL.
    unfoldable pub answer :
        {Item : Type 0} → (ResVector Item → Response) → Option (List Item) → Option Response
    answer respond none = none
    answer respond (some rows) = some (respond (record { objs = rows }))

    -- IWorker::processing of each class; a dynamic_cast of another request is a null pointer.
    unfoldable pub process_welcome : Request Area → Option Response
    process_welcome (Requests.welcome r) =
        some (Responses.welcome (record { text = text "welcome:" ++ db.format_int r.number }))
    process_welcome request = none

    unfoldable pub process_polyline_area : Request Area → Option Response
    unfolding answer
    process_polyline_area (Requests.polylines_area r) =
        answer Responses.polylines (db.get_res_polyline (polyline_query r))
    process_polyline_area request = none

    unfoldable pub process_polyline_mapid : Request Area → Option Response
    unfolding answer
    process_polyline_mapid (Requests.polylines_mapid r) = answer Responses.polylines (
        db.get_res_polyline
          (text "call GP_BTM_POLYLINE_SEL_REGION(" ++ (c_str r.mapid ++ text ");")))
    process_polyline_mapid request = none

    unfoldable pub process_polygon_area : Request Area → Option Response
    unfolding answer
    process_polygon_area (Requests.polygons_area r) =
        answer Responses.polygons (db.polygon_get_binary (polygon_query r))
    process_polygon_area request = none

    unfoldable pub process_polygon_mapid : Request Area → Option Response
    unfolding answer
    process_polygon_mapid (Requests.polygons_mapid r) =
        answer Responses.polygons (polygon_mapid_rows r)
    process_polygon_mapid request = none

    unfoldable pub process_link_area : Request Area → Option Response
    unfolding answer
    process_link_area (Requests.links_area r) =
        answer Responses.links (db.link_get_binary (link_query r))
    process_link_area request = none

    unfoldable pub process_link_mapid : Request Area → Option Response
    unfolding answer
    process_link_mapid (Requests.links_mapid r) = answer Responses.links (
        db.link_get_binary
          (call_query (text "GP_RTM_LINK_SEL_REGION_CTT_REALLINK") (c_str r.mapid)))
    process_link_mapid request = none

    unfoldable pub process_pg_info_for_3d : Request Area → Option Response
    unfolding answer
    process_pg_info_for_3d (Requests.polygon_3d_infos r) = answer Responses.polygon_3d_infos (
        db.select_poly_info_for_conv_3d
          (call_query (text "GP_BTD_B3D_PG_LANE_SEL_INTERSECTS") (area_text r.ellipsoid r.area)))
    process_pg_info_for_3d request = none

    unfoldable pub process_height_info_for_3d : Request Area → Option Response
    unfolding answer
    process_height_info_for_3d (Requests.height_3d_infos r) = answer Responses.height_3d_infos (
        db.select_obj_height_info (
          call_query (text "GP_HIGH_SEL_INTERSECTS")
            (db.format_int r.load_type ++ (text ", " ++ area_text r.ellipsoid r.area))))
    process_height_info_for_3d request = none

    -- The virtual call of IWorker::processing.
    unfoldable pub processing : Worker Area → Option Response
    unfolding process_welcome process_polyline_area process_polyline_mapid process_polygon_area
        process_polygon_mapid process_link_area process_link_mapid process_pg_info_for_3d
        process_height_info_for_3d
    processing (welcome r) = process_welcome r
    processing (polyline_area r) = process_polyline_area r
    processing (polyline_mapid r) = process_polyline_mapid r
    processing (polygon_area r) = process_polygon_area r
    processing (polygon_mapid r) = process_polygon_mapid r
    processing (link_area r) = process_link_area r
    processing (link_mapid r) = process_link_mapid r
    processing (pg_info_for_3d r) = process_pg_info_for_3d r
    processing (height_info_for_3d r) = process_height_info_for_3d r
