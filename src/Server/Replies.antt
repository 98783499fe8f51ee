-- ===== src/Server/Replies.antt =====
-- ThreadPool/ThreadPool/Server/Service.cpp: which response a request gets.
use multi_thread_test.Common.{ok, ℕ, ◌≡◌, refl, ap, ◌∙◌, ◌⊎◌, none, some, ◌++◌, arith}
use multi_thread_test.Messages.Requests
use multi_thread_test.Messages.Requests.{
  Request, ReqEllipseLoadtypeArea, ReqLoadtypeMapid, ReqMapid, ReqInt, ReqEllipseArea,
}
use multi_thread_test.Messages.Responses
use multi_thread_test.Messages.Responses.{Response}
use multi_thread_test.Messages.Load.{MsgHeader}
use multi_thread_test.Messages.Load.Forms.{Form, packed, Packs, load_from-request}
use multi_thread_test.Workers.{
  Database, polyline_query, polygon_query, link_query, polygon_mapid_rows, c_str, text, call_query,
  area_text, create_worker, processing,
}
use multi_thread_test.Server.{Environment, error_response, work, respond}

-- The id of a request and of the response that it asks for.
abbrev pub Pair : (request_id response_id : ℕ) → Type 0
Pair request_id response_id =
    ((request_id ≡ 100101) × (response_id ≡ 500101))
    ⊎ ((request_id ≡ 100201) × (response_id ≡ 500301))
    ⊎ ((request_id ≡ 100301) × (response_id ≡ 500301))
    ⊎ ((request_id ≡ 100401) × (response_id ≡ 500401))
    ⊎ ((request_id ≡ 100501) × (response_id ≡ 500401))
    ⊎ ((request_id ≡ 100601) × (response_id ≡ 500501))
    ⊎ ((request_id ≡ 100701) × (response_id ≡ 500501))
    ⊎ ((request_id ≡ 101201) × (response_id ≡ 500801))
    ⊎ ((request_id ≡ 101301) × (response_id ≡ 500901))

-- The database answers false to the query of a request, or no worker or no query is there for it:
-- one for nodes or for passing rules, or a polygon request by map id with an unknown load type.
abbrev pub IsRefused : {Area : Type 0} → Database Area → Request Area → Type 0
IsRefused db (Requests.welcome r) = ⊥
IsRefused db (Requests.polylines_area r) = db.get_res_polyline (polyline_query db r) ≡ none
IsRefused db (Requests.polylines_mapid r) =
    db.get_res_polyline (text "call GP_BTM_POLYLINE_SEL_REGION(" ++ (c_str r.mapid ++ text ");"))
    ≡ none
IsRefused db (Requests.polygons_area r) = db.polygon_get_binary (polygon_query db r) ≡ none
IsRefused db (Requests.polygons_mapid r) =
    (r.load_type ≡ 211
      → db.polygon_get_binary (call_query (text "GP_BTM_POLYGON_SEL_REGION") (c_str r.mapid))
        ≡ none)
    × (r.load_type ≡ 214
        → db.polygon_get_binary
            (call_query (text "GP_BTM_POLYGON_SEL_REGION_HOUSE") (c_str r.mapid))
          ≡ none)
    × (r.load_type ≡ 232
        → db.get_pa_binary (text "EXEC UP_BTM_POLYGON_AUTO_SEL " ++ c_str r.mapid) ≡ none)
IsRefused db (Requests.links_area r) = db.link_get_binary (link_query db r) ≡ none
IsRefused db (Requests.links_mapid r) =
    db.link_get_binary (call_query (text "GP_RTM_LINK_SEL_REGION_CTT_REALLINK") (c_str r.mapid))
    ≡ none
IsRefused db (Requests.nodes_area r) = Unit {0}
IsRefused db (Requests.nodes_mapid r) = Unit {0}
IsRefused db (Requests.pass_infos_area r) = Unit {0}
IsRefused db (Requests.pass_infos_mapid r) = Unit {0}
IsRefused db (Requests.polygon_3d_infos r) =
    db.select_poly_info_for_conv_3d
      (call_query (text "GP_BTD_B3D_PG_LANE_SEL_INTERSECTS") (area_text db r.ellipsoid r.area))
    ≡ none
IsRefused db (Requests.height_3d_infos r) =
    db.select_obj_height_info (
      call_query (text "GP_HIGH_SEL_INTERSECTS")
        (db.format_int r.load_type ++ (text ", " ++ area_text db r.ellipsoid r.area)))
    ≡ none

module _ {Area : Type 0} (env : Environment Area) where
  -- A refused request gets an error, any other the response of its class.
  abbrev pub IsReply : Request Area → Response → Type 0
  IsReply r response =
      (IsRefused env.database r × (Responses.msg_id response ≡ 500201))
      ⊎ ((¬ IsRefused env.database r) × Pair (Requests.msg_id r) (Responses.msg_id response))

  work-IsReply : (r : Request Area) → IsReply r (work env r)
  unfolding work create_worker Requests.msg_id Responses.msg_id processing error_response
      polygon_mapid_rows
  work-IsReply (Requests.welcome r) = ground arith
  work-IsReply (Requests.polylines_area r) = ground arith
  work-IsReply (Requests.polylines_mapid r) = ground arith
  work-IsReply (Requests.polygons_area r) = ground arith
  work-IsReply (Requests.polygons_mapid r) = ground arith
  work-IsReply (Requests.links_area r) = ground arith
  work-IsReply (Requests.links_mapid r) = ground arith
  work-IsReply (Requests.nodes_area r) = ground arith
  work-IsReply (Requests.nodes_mapid r) = ground arith
  work-IsReply (Requests.pass_infos_area r) = ground arith
  work-IsReply (Requests.pass_infos_mapid r) = ground arith
  work-IsReply (Requests.polygon_3d_infos r) = ground arith
  work-IsReply (Requests.height_3d_infos r) = ground arith

  -- The server answers the bytes of a request, plain or compressed, by the response class of the
  -- request, if the database has an answer to its query and a worker and a query are there for it,
  -- and else by an error: a request for nodes or for passing rules always gets an error, as does a
  -- polygon request by map id whose load type is not 211, 214 or 232, whatever the database holds.
  -- For members in the range of their types, and a library that gives the body back.
  pub respond-IsReply :
      (header : MsgHeader) (form : Form) (r : Request Area)
      → Requests.RoundTrip.IsValid env.pod r
      → Packs env.libraries form (Requests.on_save_to env.pod r)
      → header.msgid ≡ Requests.msg_id r
      → (response : Response) × (respond env header (packed form (Requests.on_save_to env.pod r))
          ≡ ok (some response))
        × IsReply r response
  unfolding respond
  respond-IsReply header form r v h id =
      let (old, made, loaded) = load_from-request env.libraries env.pod env.area form r v h in
      let created : Requests.create env.area header.msgid ≡ some old =
        ap (Requests.create env.area) id ∙ made in
      (work env r, rw (created, loaded, respond) refl, work-IsReply r)
