-- ===== src/Server.antt =====
-- ThreadPool/ThreadPool/Server/Service.cpp, Acceptor.cpp and Server.cpp, in a build without ASSERT.
-- Boost.Asio calls a handler when an operation ends: an event of the model. What it reports of an
-- operation, and the names that EnumStringW gives to ids, are parameters.
pub mod Replies
pub mod Connections
pub mod Acceptance
pub mod Tests
use multi_thread_test.Common.{
  if◌then◌else◌, length, Result, ◌>>=◌, ok, ℕ, ◌+◌, ◌-◌, ◌≡◌, Bool, true, false, not, Option, none,
  some, List, [], ◌∷◌, ◌++◌,
}
use multi_thread_test.Archive.{Pod}
use multi_thread_test.Messages.Requests
use multi_thread_test.Messages.Requests.{Request}
use multi_thread_test.Messages.Responses
use multi_thread_test.Messages.Responses.{Response}
use multi_thread_test.Messages.Load.{Libraries, MsgHeader, is_valid, load_from}
use multi_thread_test.Workers.{Database, Worker, create_worker, processing, text}

-- What the server calls and does not implement.
pub record Environment (Area : Type 0) : Type 0 where
  pub libraries : Libraries
  pub pod : Pod Area
  pub area : Area  -- a new CMapDoubleArea
  pub database : Database Area
  pub id_name : (msgid : ℕ) → List ℕ  -- EnumStringW<eNetID::T>::From

unfoldable pub error_response : List ℕ → Response
error_response message = Responses.error (record { text = message })

module _ {Area : Type 0} (env : Environment Area) where
  -- The worker's part of Service::on_read_request_body.
  unfoldable pub work : Request Area → Response
  work request = elim (create_worker request) [
    | none ↦
        error_response (env.id_name (Requests.msg_id request) ++ text " 요청에 대한 Worker 생성에 실패했습니다.")
    | some worker ↦ elim (processing env.database worker) [
      | none ↦
          error_response
            (env.id_name (Requests.msg_id request) ++ text " 요청에 대한 Response 생성에 실패했습니다.")
      | some response ↦ response
    ]
  ]

  -- Service::on_read_request_body without an error: the response that it sends. `none` is an
  -- exception that load_from has thrown.
  unfoldable pub respond : MsgHeader → (body : List ℕ) → Result (Option Response)
  respond header body = elim (Requests.create env.area header.msgid) [
    | none ↦ ok (some (error_response (text "requset 생성 실패.")))
    | some request ↦
        load_from env.libraries (Requests.on_load_from env.pod) body request >>= λ loaded.
        elim loaded [ none ↦ ok none | some request' ↦ ok (some (work request')) ]
  ]

-- The operation of the socket that is under way.
pub data Pending : Type 0 where
  reading_header reading_body writing ended : Pending

-- A Service: what it waits for, the header that it has read, and the messages that it has sent.
pub record Connection : Type 0 where
  pub pending : Pending
  pub request_header : MsgHeader
  pub sent : List (MsgHeader × List ℕ)

-- Service::Service and run_service
unfoldable pub run_service : Connection
run_service = record {
  pending = reading_header;
  request_header = record { msgid = 0; bodysize = 0 };
  sent = [];
}

-- Service::send_response; the call of save_to is a comment, so that the body stays empty.
unfoldable pub send_response : Response → Connection → Connection
send_response response c =
    let body : List ℕ = [] in
    let header : MsgHeader = record { msgid = Responses.msg_id response; bodysize = length body } in
    record c { pending = writing; sent = c.sent ++ ((header, body) ∷ []) }

-- Service::on_read_request_header
unfoldable pub on_read_request_header : (error : Bool) → MsgHeader → Connection → Connection
on_read_request_header error header c =
    if error
    then record c { pending = ended }
    else if not (is_valid header)
    then send_response (error_response (text "메세지 헤더정보가 유효하지 않음."))
        (record c { request_header = header })
    else record c { request_header = header; pending = reading_body }

module _ {Area : Type 0} (env : Environment Area) where
  -- Service::on_read_request_body
  unfoldable pub on_read_request_body :
      (error : Bool) → (body : List ℕ) → Connection → Result (Option Connection)
  on_read_request_body error body c =
      if error
      then ok (some (record c { pending = ended }))
      else respond env c.request_header body >>= λ response. elim response [
        | none ↦ ok none
        | some r ↦ ok (some (send_response r c))
      ]

-- Service::on_write_response; without an error the socket is shut down for sending.
unfoldable pub on_write_response : (error : Bool) → Connection → Connection
on_write_response error c = record c { pending = ended }

-- The ends of a connection's operations, as Boost.Asio reports them: a body has as many bytes as
-- the header says.
pub data Step {Area : Type 0} (env : Environment Area) : Connection → Connection → Type 0 where
  header_read :
      (c : Connection) (error : Bool) (header : MsgHeader)
      → c.pending ≡ reading_header
      → Step env c (on_read_request_header error header c)
  body_read :
      (c c' : Connection) (error : Bool) (body : List ℕ)
      → c.pending ≡ reading_body
      → length body ≡ c.request_header.bodysize
      → on_read_request_body env error body c ≡ ok (some c')
      → Step env c c'
  response_written :
      (c : Connection) (error : Bool) → c.pending ≡ writing → Step env c (on_write_response error c)

pub data Runs {Area : Type 0} (env : Environment Area) : Connection → Type 0 where
  started : Runs env run_service
  then_step : {c c' : Connection} → Runs env c → Step env c c' → Runs env c'

-- An Acceptor: whether its socket is open, m_isStopped, how many async_accept calls are under way,
-- and how many services it has run.
pub record Acceptor : Type 0 where
  pub is_open : Bool
  pub is_stopped : Bool
  pub accepting : ℕ
  pub services : ℕ

-- Acceptor::Acceptor
unfoldable pub new_acceptor : Acceptor
new_acceptor = record { is_open = false; is_stopped = false; accepting = 0; services = 0 }

-- Acceptor::prepare: what open, bind and listen report; the answer is error_code.
unfoldable pub prepare : (open_ec bind_ec listen_ec : Option ℕ) → Acceptor → Acceptor × Option ℕ
prepare open_ec bind_ec listen_ec a = elim open_ec [
  | some e ↦ (a, some e)
  | none ↦
      let opened : Acceptor = record a { is_open = true } in
      elim bind_ec [ some e ↦ (opened, some e) | none ↦ (opened, listen_ec) ]
]

-- Acceptor::async_accept_start
unfoldable pub async_accept_start : Acceptor → Acceptor
async_accept_start a = record a { accepting = a.accepting + 1 }

-- Acceptor::stop; the assignment in it is a comment.
unfoldable pub stop : Acceptor → Acceptor
stop a = a

-- Acceptor::on_accept, at the end of an async_accept.
unfoldable pub on_accept : (error : Bool) → Acceptor → Acceptor
unfolding async_accept_start
on_accept error a =
    let ended : Acceptor = record a {
      accepting = a.accepting - 1;
      services = if error then a.services else a.services + 1;
    } in
    if a.is_stopped then record ended { is_open = false } else async_accept_start ended

-- A Server: its acceptor, the threads that run the io_service, and whether that is stopped.
pub record Server : Type 0 where
  pub acceptor : Acceptor
  pub threads : ℕ
  pub io_stopped : Bool

-- Server::start_server
unfoldable pub start_server :
    (thread_pool_size : ℕ) → (open_ec bind_ec listen_ec : Option ℕ) → Server × Option ℕ
unfolding prepare async_accept_start new_acceptor
start_server thread_pool_size open_ec bind_ec listen_ec =
    let prepared = prepare open_ec bind_ec listen_ec new_acceptor in
    elim prepared.1 [
      | some e ↦ (record { acceptor = prepared.0; threads = 0; io_stopped = false }, some e)
      | none ↦ (
        record {
          acceptor = async_accept_start prepared.0;
          threads = thread_pool_size;
          io_stopped = false;
        },
        none,
      )
    ]

-- Server::stop_server joins every thread.
unfoldable pub stop_server : Server → Server
unfolding stop
stop_server s = record s { acceptor = stop s.acceptor; io_stopped = true; threads = 0 }

-- What happens to an acceptor once it has started: an accept ends while the io_service runs, or
-- someone calls stop.
pub data AcceptorEvent : Type 0 where
  accepted : (error : Bool) → AcceptorEvent
  stopping : AcceptorEvent

unfoldable pub accept_event : AcceptorEvent → Acceptor → Acceptor
unfolding on_accept stop
accept_event (accepted error) a = on_accept error a
accept_event stopping a = stop a

unfoldable pub accept_events : List AcceptorEvent → Acceptor → Acceptor
accept_events [] a = a
accept_events (e ∷ es) a = accept_events es (accept_event e a)
