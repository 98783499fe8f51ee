-- ===== src/Session/Send/Reachable.antt =====
-- The steps of a sending session keep the invariant.
use multi_thread_test.Common.{
  Bool-cases, ℕ, ◌≡◌, refl, sym, ap, ap₂, ◌∙◌, subst, inl, inr, Bool, false, List, [], ◌∷◌, ◌++◌,
  append-nil, append_assoc, arith,
}
use multi_thread_test.Session.{Session, Os, App, send_pushed}
use multi_thread_test.Session.Send.{
  posted, SameSending, KeepsSending, Task, register, drain, post, failing, clear, store, waiting,
  finish, Sending, moved, enqueued, advanced, Step, enqueue, go_on, other, start_on, Reach, here,
  later,
}
use multi_thread_test.Session.Send.Invariant.{At, Fits, taken, IsSound}
use multi_thread_test.Session.Send.Advance.{only, advance-IsSound}

-- Nothing sent, queued or requested yet.
abbrev pub IsQuiet : Session → Type 0
IsQuiet s =
    (posted s.trace ≡ [])
    × (s.send_queue ≡ [])
    × (s.send_registered ≡ false)
    × (s.send_buffers ≡ [])
    × (s.send_owner ≡ false)

At-same :
    (task : Task) (s t : Session) (failed : Bool)
    → t.send_owner ≡ s.send_owner
    → t.send_buffers ≡ s.send_buffers
    → At task s failed
    → At task t failed
At-same register s t failed o b a = (o ∙ a.0, b ∙ a.1)
At-same drain s t failed o b a = (o ∙ a.0, b ∙ a.1)
At-same post s t failed o b a = o ∙ a
At-same (failing code) s t failed o b a = a
At-same clear s t failed o b a = a
At-same store s t failed o b a = (o ∙ a.0, b ∙ a.1, a.2)
At-same waiting s t failed o b a = o ∙ a
At-same finish s t failed o b a = (o ∙ a.0, b ∙ a.1)

taken-same :
    (tasks : List Task) (s t : Session)
    → t.send_buffers ≡ s.send_buffers
    → taken tasks t ≡ taken tasks s
taken-same [] s t b = refl
taken-same (register ∷ _) s t b = refl
taken-same (drain ∷ _) s t b = refl
taken-same (post ∷ _) s t b = b
taken-same (failing code ∷ _) s t b = refl
taken-same (clear ∷ _) s t b = refl
taken-same (store ∷ _) s t b = refl
taken-same (waiting ∷ _) s t b = refl
taken-same (finish ∷ _) s t b = refl

Fits-same :
    (tasks : List Task) (s t : Session) (failed : Bool)
    → t.send_registered ≡ s.send_registered
    → t.send_owner ≡ s.send_owner
    → t.send_buffers ≡ s.send_buffers
    → Fits tasks s failed
    → Fits tasks t failed
Fits-same [] s t failed r o b f = (o ∙ f.0, b ∙ f.1)
Fits-same (task ∷ []) s t failed r o b f = (r ∙ f.0, At-same task s t failed o b f.1)
Fits-same (_ ∷ _ ∷ _) s t failed r o b f = f

-- A session that was not registered had no task.
no_tasks :
    (tasks : List Task) (s : Session) (failed : Bool)
    → Fits tasks s failed
    → s.send_registered ≡ false
    → tasks ≡ []
no_tasks [] s failed f e = refl
no_tasks (task ∷ []) s failed f e = absurd (cc (f.0, e))
no_tasks (_ ∷ _ ∷ _) s failed f e = absurd f

-- A buffer more behind what is posted, taken and queued.
order-append :
    (posts handed queue : List (List ℕ)) (buffer : List ℕ)
    → posts ++ (handed ++ (queue ++ (buffer ∷ []))) ≡ (posts ++ (handed ++ queue)) ++ (buffer ∷ [])
order-append posts handed queue buffer =
    ap (λ l. posts ++ l) (sym (append_assoc handed queue (buffer ∷ [])))
    ∙ sym (append_assoc posts (handed ++ queue) (buffer ∷ []))

enqueue-IsSound : (x : Sending) (buffer : List ℕ) → IsSound x → IsSound (enqueued x buffer)
unfolding send_pushed
enqueue-IsSound x buffer v = elim (Bool-cases x.session.send_registered) [
  | inl e ↦
      rw (e, append-nil x.tasks)
        (record {
          order =
              ap (λ l. posted x.session.trace ++ (l ++ (x.session.send_queue ++ (buffer ∷ []))))
                (taken-same x.tasks x.session _ refl)
              ∙ order-append (posted x.session.trace) (taken x.tasks x.session) x.session.send_queue
                  buffer
              ∙ ap (λ l. l ++ (buffer ∷ [])) v.order;
          fits = Fits-same x.tasks x.session _ x.failed (sym e) refl refl v.fits;
          idle = ground arith;
          live = ground (arith, v.live, e);
        })
  | inr e ↦
      let none_left = no_tasks x.tasks x.session x.failed v.fits e in
      let fits = subst (λ ts. Fits ts x.session x.failed) none_left v.fits in
      let order =
        subst
          (λ ts.
            posted x.session.trace ++ (taken ts x.session ++ x.session.send_queue) ≡ x.accepted)
          none_left v.order in
      rw (e, none_left)
        (record {
          order =
              order-append (posted x.session.trace) [] x.session.send_queue buffer
              ∙ ap (λ l. l ++ (buffer ∷ [])) order;
          fits = (refl, fits);
          idle = ground arith;
          live = ground (arith, v.live);
        })
]

other-IsSound :
    (x : Sending) (t : Session)
    → SameSending x.session t
    → IsSound x
    → IsSound (moved x t x.tasks x.accepted false)
other-IsSound x t k v = record {
  order =
      ap₂ ◌++◌ k.same_posts (ap₂ ◌++◌ (taken-same x.tasks x.session t k.same_buffers) k.same_queue)
      ∙ v.order;
  fits =
      Fits-same x.tasks x.session t x.failed k.same_registered k.same_owner k.same_buffers v.fits;
  idle = ground (arith, v.idle, k);
  live = ground (arith, v.live, k);
}

go_on-IsSound :
    (x : Sending) (os : Os) (app : App) (n : ℕ) (before : List Task) (task : Task)
    (behind : List Task)
    → KeepsSending app
    → x.tasks ≡ before ++ (task ∷ behind)
    → IsSound x
    → IsSound (advanced os app n before task behind x)
go_on-IsSound x os app n [] task [] k e v = advance-IsSound task x os app n k (only x task e v)
go_on-IsSound x os app n [] task (_ ∷ _) k e v =
    absurd (subst (λ ts. Fits ts x.session x.failed) e v.fits)
go_on-IsSound x os app n (_ ∷ []) task behind k e v =
    absurd (subst (λ ts. Fits ts x.session x.failed) e v.fits)
go_on-IsSound x os app n (_ ∷ _ ∷ _) task behind k e v =
    absurd (subst (λ ts. Fits ts x.session x.failed) e v.fits)

pub Step-IsSound : {x y : Sending} → Step x y → IsSound x → IsSound y
Step-IsSound {x} (enqueue buffer) v = enqueue-IsSound x buffer v
Step-IsSound {x} (go_on os app n before task behind k e) v =
    go_on-IsSound x os app n before task behind k e v
Step-IsSound {x} (other t k) v = other-IsSound x t k v

start-IsSound : (s : Session) → IsQuiet s → IsSound (start_on s)
start-IsSound s q = record {
  order = ground (arith, q.0, q.1);
  fits = (q.4, q.3);
  idle = λ _ _. q.1;
  live = ground (arith, q.2);
}

pub Reach-IsSound : {s : Session} {x : Sending} → IsQuiet s → Reach (start_on s) x → IsSound x
Reach-IsSound {s} q here = start-IsSound s q
Reach-IsSound q (later r st) = Step-IsSound st (Reach-IsSound q r)
