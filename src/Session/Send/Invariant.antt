-- ===== src/Session/Send/Invariant.antt =====
-- What holds in every state of a sending session, and what RegisterSend as a whole leaves.
use multi_thread_test.Common.{
  Option-cases, length, ℕ, ◌≡◌, inl, inr, Bool, true, false, List, [], ◌∷◌, ◌++◌, append-nil, arith,
}
use multi_thread_test.Session.{
  Session, Os, register_send, disconnect, register_disconnect, handle_error, failure, posting,
  take_queue, send_next,
}
use multi_thread_test.Session.Send.{
  posted, SameSending, Task, register, drain, post, failing, clear, store, waiting, finish, Sending,
}

-- What the session has while a task is at its place.
abbrev pub At : Task → Session → (failed : Bool) → Type 0
At register s failed = (s.send_owner ≡ false) × (s.send_buffers ≡ [])
At drain s failed = (s.send_owner ≡ true) × (s.send_buffers ≡ [])
At post s failed = s.send_owner ≡ true
At (failing code) s failed = failed ≡ true
At clear s failed = failed ≡ true
At store s failed = (s.send_owner ≡ false) × (s.send_buffers ≡ []) × (failed ≡ true)
At waiting s failed = s.send_owner ≡ true
At finish s failed = (s.send_owner ≡ false) × (s.send_buffers ≡ [])

-- There is one task at most, and with it the session is registered.
abbrev pub Fits : List Task → Session → (failed : Bool) → Type 0
Fits [] s failed = (s.send_owner ≡ false) × (s.send_buffers ≡ [])
Fits (task ∷ []) s failed = (s.send_registered ≡ true) × At task s failed
Fits (_ ∷ _ ∷ _) s failed = ⊥

-- The buffers that a task has taken from the queue and not yet handed to WSASend.
abbrev pub taken : List Task → Session → List (List ℕ)
taken (post ∷ tasks) s = s.send_buffers
taken _ s = []

pub record IsSound (x : Sending) : Type 0 where
  pub order :
      posted x.session.trace ++ (taken x.tasks x.session ++ x.session.send_queue) ≡ x.accepted
  pub fits : Fits x.tasks x.session x.failed
  pub idle : x.failed ≡ false → x.session.send_registered ≡ false → x.session.send_queue ≡ []
  pub live :
      x.dropped ≡ false
      → (x.session.connected ≡ true) × (x.session.send_registered ≡ true → length x.tasks ≡ 1)

pub disconnect-SameSending : (os : Os) (s : Session) → SameSending s (disconnect os s)
unfolding disconnect register_disconnect
disconnect-SameSending os s = ground arith

pub handle_error-SameSending :
    (os : Os) (code : ℕ) (s : Session) → SameSending s (handle_error os code s)
unfolding handle_error
handle_error-SameSending os code s = ground (arith, disconnect-SameSending os s)

-- The fields that a call of RegisterSend leaves, on a session that is about to send.
pub record Registered (s t : Session) : Type 0 where
  pub posts : posted t.trace ++ t.send_queue ≡ posted s.trace ++ s.send_queue
  pub buffers : t.send_owner ≡ false → t.send_buffers ≡ []
  pub idle : t.send_registered ≡ false → (t.send_owner ≡ false) × (t.send_queue ≡ [])
  pub live : t.connected ≡ true → t.send_registered ≡ true → t.send_owner ≡ true

register_send-Registered :
    (os : Os) (s : Session)
    → s.send_registered ≡ true
    → s.send_owner ≡ false
    → s.send_buffers ≡ []
    → Registered s (register_send os s)
unfolding register_send take_queue
register_send-Registered os s r o b = elim (Option-cases (failure os.send)) [
  | inl e ↦ ground (arith, append-nil (posted s.trace ++ s.send_queue), append-nil (posted s.trace))
  | inr (code, e) ↦ ground (
    arith,
    handle_error-SameSending os code (posting s),
    append-nil (posted s.trace ++ s.send_queue),
  )
]

pub disconnected-disconnect : (os : Os) (s : Session) → (disconnect os s).connected ≡ false
unfolding disconnect register_disconnect
disconnected-disconnect os s = ground arith

pub send_next-Registered :
    (os : Os) (s : Session) (queue : List (List ℕ))
    → s.send_queue ≡ queue
    → s.send_registered ≡ true
    → s.send_owner ≡ false
    → s.send_buffers ≡ []
    → Registered s (send_next os s)
unfolding send_next
send_next-Registered os s [] e r o b = ground arith
send_next-Registered os s (_ ∷ _) e r o b = ground (arith, register_send-Registered os s r o b)
