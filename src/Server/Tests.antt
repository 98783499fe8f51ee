-- ===== src/Server/Tests.antt =====
-- ThreadPool/ThreadPool/Server: the server at concrete requests.
use multi_thread_test.Common.{ok, ℕ, ◌≡◌, refl, true, false, none, some, [], ◌∷◌, arith}
use multi_thread_test.Archive.{long}
use multi_thread_test.Messages.Requests
use multi_thread_test.Messages.Requests.{Request}
use multi_thread_test.Messages.Responses.{Response}
use multi_thread_test.Messages.Load.{is_valid}
use multi_thread_test.Messages.Load.Forms.{plain, packed}
use multi_thread_test.Workers.{Database}
use multi_thread_test.Server.{
  Environment, Connection, on_read_request_header, on_write_response, respond, run_service,
  send_response, Runs, started, then_step, header_read, response_written, start_server, accepted,
  stopping,
}
use multi_thread_test.Server.Replies.{IsReply, respond-IsReply}
use multi_thread_test.Server.Connections.{IsSound, Runs-IsSound}
use multi_thread_test.Server.Acceptance.{Outcome, first_error, start_server-Outcome}

-- A database without rows.
abbrev empty_database : Database ℕ
empty_database = record {
  get_res_polyline = λ query. some [];
  polygon_get_binary = λ query. some [];
  get_pa_binary = λ query. some [];
  link_get_binary = λ query. some [];
  select_poly_info_for_conv_3d = λ query. some [];
  select_obj_height_info = λ query. some [];
  format_float = λ area. area ∷ [];
  format_unsigned = λ area. area ∷ [];
  format_int = λ n. n ∷ [];
}

abbrev environment : Environment ℕ
environment = record {
  libraries = record { zlib = λ size source. source; lzma = λ size props source. source };
  pod = long;
  area = 0;
  database = empty_database;
  id_name = λ msgid. msgid ∷ [];
}

abbrev links_request : Request ℕ
links_request = Requests.links_mapid (record { mapid = b'3' ∷ b'7' ∷ [] })

respond-IsReply_example :
    (response : Response) × (respond environment
        (record { msgid = 100701; bodysize = 9 })
        (packed plain (Requests.on_save_to long links_request))
      ≡ ok (some response))
    × IsReply environment links_request response
unfolding Requests.msg_id
respond-IsReply_example =
    respond-IsReply environment (record { msgid = 100701; bodysize = 9 }) plain links_request
      (record { inside = (omega arith, (omega arith, tt)); counted = omega arith }) tt refl

-- A header of size 0, and the error that is sent for it.
abbrev refused : Connection
refused = on_read_request_header false (record { msgid = 100101; bodysize = 0 }) run_service

refused-Runs : Runs environment (on_write_response false refused)
unfolding run_service on_read_request_header is_valid send_response
refused-Runs =
    then_step
      (then_step started
        (header_read run_service false (record { msgid = 100101; bodysize = 0 }) refl))
      (response_written refused false refl)

Runs-IsSound_example : IsSound (on_write_response false refused)
Runs-IsSound_example = Runs-IsSound refused-Runs

-- Two clients, one of them after a call of stop.
start_server-Outcome_example :
    ((start_server 4 none none none).1 ≡ first_error none none none)
    × Outcome 4
        (accepted false ∷ stopping ∷ accepted true ∷ accepted false ∷ [])
        (start_server 4 none none none).0
        (start_server 4 none none none).1
start_server-Outcome_example =
    start_server-Outcome 4 none none none
      (accepted false ∷ stopping ∷ accepted true ∷ accepted false ∷ [])
