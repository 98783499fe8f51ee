-- ===== src/Server/Connections.antt =====
-- ThreadPool/ThreadPool/Server/Service.cpp: the states that a connection reaches.
use multi_thread_test.Common.{
  Bool-cases, length, bind-ok, ok, ℕ, ◌*◌, ◌≤◌, ◌<◌, ◌≡◌, refl, subst, ◌⊎◌, inl, inr, Bool, true,
  false, Option, none, some, List, [], ◌∷◌, arith,
}
use multi_thread_test.Messages.Responses
use multi_thread_test.Messages.Load.{MsgHeader, is_valid, int_less}
use multi_thread_test.Archive.{is_negative}
use multi_thread_test.Server.{
  Environment, Pending, reading_header, reading_body, writing, ended, Connection, run_service,
  send_response, on_read_request_header, on_read_request_body, on_write_response, respond, Step,
  header_read, body_read, response_written, Runs, started, then_step, error_response,
}
use multi_thread_test.Workers.{text}

-- A message without a body, which MsgHeader::IsValid rejects.
abbrev pub IsBare : MsgHeader × List ℕ → Type 0
IsBare (header, body) = (header.bodysize ≡ 0) × (body ≡ []) × (is_valid header ≡ false)

abbrev pub AllBare : List (MsgHeader × List ℕ) → Type 0
AllBare [] = Unit {0}
AllBare (m ∷ ms) = IsBare m × AllBare ms

-- What is sent while an operation is under way, and which headers a body is read for.
abbrev pub Fits : Pending → (sent : ℕ) → MsgHeader → Type 0
Fits reading_header sent header = sent ≡ 0
Fits reading_body sent header =
    (sent ≡ 0)
    × (0 < header.bodysize)
    × (header.bodysize < 100 * 1024 * 1024)
    × (header.msgid < 500902)
Fits writing sent header = sent ≡ 1
Fits ended sent header = sent ≤ 1

pub record IsSound (c : Connection) : Type 0 where
  pub fits : Fits c.pending (length c.sent) c.request_header
  pub bare : AllBare c.sent

valid_bounds :
    (h : MsgHeader)
    → is_valid h ≡ true
    → (0 < h.bodysize) × (h.bodysize < 100 * 1024 * 1024) × (h.msgid < 500902)
unfolding is_valid int_less is_negative
valid_bounds h e = ground arith

empty_invalid : (id : ℕ) → is_valid (record { msgid = id; bodysize = 0 }) ≡ false
unfolding is_valid int_less is_negative
empty_invalid id = ground arith

send-IsSound : (r : Responses.Response) (c : Connection) → c.sent ≡ [] → IsSound (send_response r c)
unfolding send_response
send-IsSound r c e = ground (arith, empty_invalid (Responses.msg_id r))

no_messages : (ms : List (MsgHeader × List ℕ)) → length ms ≡ 0 → ms ≡ []
no_messages [] e = refl
no_messages (m ∷ ms) e = absurd (omega arith)

nothing_sent :
    (c : Connection)
    → IsSound c
    → (c.pending ≡ reading_header) ⊎ (c.pending ≡ reading_body)
    → c.sent ≡ []
nothing_sent c s p = no_messages c.sent (ground arith)

header_read-IsSound :
    (error : Bool) (header : MsgHeader) (c : Connection)
    → IsSound c
    → c.pending ≡ reading_header
    → IsSound (on_read_request_header error header c)
unfolding on_read_request_header
header_read-IsSound error header c s p =
    let none_sent : c.sent ≡ [] = nothing_sent c s (inl p) in
    elim (Bool-cases (is_valid header)) [
      | inl e ↦ ground (arith, valid_bounds header e)
      | inr e ↦ ground (
        arith,
        send-IsSound (error_response (text "메세지 헤더정보가 유효하지 않음."))
            (record c { request_header = header }) none_sent,
      )
    ]

module _ {Area : Type 0} (env : Environment Area) where
  body_read-IsSound :
      (error : Bool) (body : List ℕ) (c c' : Connection)
      → IsSound c
      → c.pending ≡ reading_body
      → on_read_request_body env error body c ≡ ok (some c')
      → IsSound c'
  unfolding on_read_request_body
  body_read-IsSound true body c c' s p e =
      let same : record c { pending = ended } ≡ c' = cc e in subst IsSound same (ground arith)
  body_read-IsSound false body c c' s p e =
      let (answer, answered, sent) = bind-ok (respond env c.request_header body) _ (some c') e in
      finish answer sent
    where
      finish :
          (answer : Option Responses.Response)
          → (elim answer [ none ↦ ok none | some r ↦ ok (some (send_response r c)) ]) ≡ ok (some c')
          → IsSound c'
      finish none q = absurd (cc q)
      finish (some r) q =
          let same : send_response r c ≡ c' = cc q in
          subst IsSound same (send-IsSound r c (nothing_sent c s (inr p)))

module _ {Area : Type 0} {env : Environment Area} where
  Step-IsSound : {c c' : Connection} → Step env c c' → IsSound c → IsSound c'
  unfolding on_write_response
  Step-IsSound (header_read c error header p) s = header_read-IsSound error header c s p
  Step-IsSound (body_read c c' error body p size e) s = body_read-IsSound env error body c c' s p e
  Step-IsSound (response_written c error p) s = ground arith

  -- In every state that a connection reaches, whatever its client sends, it reads a body only for
  -- a header with an id below 500902 (also one that is no eNetID) and a size from 1 to below 100
  -- MB, and it sends at most one message; each that it sends has no body, and a header that
  -- MsgHeader::IsValid rejects.
  pub Runs-IsSound : {c : Connection} → Runs env c → IsSound c
  unfolding run_service
  Runs-IsSound started = ground arith
  Runs-IsSound (then_step r st) = Step-IsSound st (Runs-IsSound r)
