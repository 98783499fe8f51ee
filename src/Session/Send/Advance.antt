-- ===== src/Session/Send/Advance.antt =====
-- One part of RegisterSend or ProcessSend, from a state where the invariant holds.
use multi_thread_test.Common.{
  ◌==◌, if◌then◌else◌, Bool-cases, ℕ, ◌≡◌, refl, ap₂, ◌∙◌, subst, inl, inr, true, false, Option,
  none, some, [], ◌∷◌, ◌++◌, append-nil, append_assoc, arith,
}
use multi_thread_test.Session.{Session, Os, App, failure, take_queue, clear_send, send_next}
use multi_thread_test.Session.Send.{
  posted, KeepsSending, Task, register, drain, post, failing, clear, store, waiting, finish,
  answered, advance, Sending, is_failing, moved, advanced,
}
use multi_thread_test.Session.Send.Invariant.{
  At, Fits, taken, IsSound, disconnect-SameSending, handle_error-SameSending, Registered,
  disconnected-disconnect, send_next-Registered,
}

-- What a state gives a task that is the only one.
pub record Only (x : Sending) (task : Task) : Type 0 where
  only_order :
      posted x.session.trace ++ (taken (task ∷ []) x.session ++ x.session.send_queue) ≡ x.accepted
  only_registered : x.session.send_registered ≡ true
  only_at : At task x.session x.failed
  only_live : x.dropped ≡ false → x.session.connected ≡ true

pub only : (x : Sending) (task : Task) → x.tasks ≡ task ∷ [] → IsSound x → Only x task
only x task e v = record {
  only_order =
      subst
        (λ ts. posted x.session.trace ++ (taken ts x.session ++ x.session.send_queue) ≡ x.accepted)
        e v.order;
  only_registered = (subst (λ ts. Fits ts x.session x.failed) e v.fits).0;
  only_at = (subst (λ ts. Fits ts x.session x.failed) e v.fits).1;
  only_live = λ up. (v.live up).0;
}

sent_next-IsSound :
    (x : Sending) (t : Session)
    → posted x.session.trace ++ x.session.send_queue ≡ x.accepted
    → Registered x.session t
    → let left = if t.send_owner then waiting ∷ [] else [] in
      IsSound (moved x t (left ++ []) x.accepted (is_failing left))
sent_next-IsSound x t o r = elim (Bool-cases t.send_owner) [
  | inl e ↦ rw e (record {
    order = r.posts ∙ o;
    fits = (ground (arith, r.idle, e, Bool-cases t.send_registered), refl);
    idle = ground (arith, r.idle);
    live = ground (arith, r.live);
  })
  | inr e ↦ rw e (record {
    order = r.posts ∙ o;
    fits = (refl, r.buffers e);
    idle = ground (arith, r.idle);
    live = ground (arith, r.live, e);
  })
]

-- The task goes on, and no other is there.
abbrev pub AdvanceIsSound : Task → Type 0
AdvanceIsSound task =
    (x : Sending) (os : Os) (app : App) (n : ℕ)
    → KeepsSending app
    → Only x task
    → IsSound (advanced os app n [] task [] x)

register-IsSound : AdvanceIsSound register
unfolding advance
register-IsSound x os app n k v = elim (Bool-cases x.session.connected) [
  | inl e ↦ rw e (record {
    order = v.only_order;
    fits = (v.only_registered, (refl, v.only_at.1));
    idle = λ _ r. absurd (cc (r, v.only_registered));
    live = λ _. (refl, λ _. refl);
  })
  | inr e ↦ rw e (record {
    order = v.only_order;
    fits = v.only_at;
    idle = λ _ r. absurd (cc (r, v.only_registered));
    live = ground (arith, v.only_live, e);
  })
]

drain-IsSound : AdvanceIsSound drain
unfolding advance take_queue
drain-IsSound x os app n k v = record {
  order = ground (arith, v.only_order, v.only_at, append-nil x.session.send_queue);
  fits = (v.only_registered, v.only_at.0);
  idle = λ _ _. refl;
  live = ground (arith, v.only_live);
}

answered-IsSound :
    (x : Sending) (o : Option ℕ)
    → Only x post
    → let (t, left) = answered o x.session in
      IsSound (moved x t (left ++ []) x.accepted (is_failing left))
answered-IsSound x none v = record {
  order =
      append_assoc (posted x.session.trace) x.session.send_buffers x.session.send_queue
      ∙ v.only_order;
  fits = (v.only_registered, v.only_at);
  idle = λ _ r. absurd (cc (r, v.only_registered));
  live = ground (arith, v.only_live);
}
answered-IsSound x (some code) v = record {
  order =
      append_assoc (posted x.session.trace) x.session.send_buffers x.session.send_queue
      ∙ v.only_order;
  fits = (v.only_registered, refl);
  idle = λ f _. absurd (cc f);
  live = ground (arith, v.only_live);
}

post-IsSound : AdvanceIsSound post
unfolding advance
post-IsSound x os app n k v = answered-IsSound x (failure os.send) v

failing-IsSound : (code : ℕ) → AdvanceIsSound (failing code)
unfolding advance
failing-IsSound code x os app n k v =
    let same = handle_error-SameSending os code x.session in
    record {
      order = ground (arith, v.only_order, same);
      fits = (same.same_registered ∙ v.only_registered, v.only_at);
      idle = λ f _. absurd (cc (f, v.only_at));
      live = ground (arith, v.only_live, same);
    }

clear-IsSound : AdvanceIsSound clear
unfolding advance
clear-IsSound x os app n k v = record {
  order = v.only_order;
  fits = (v.only_registered, (refl, refl, v.only_at));
  idle = λ f _. absurd (cc (f, v.only_at));
  live = ground (arith, v.only_live);
}

store-IsSound : AdvanceIsSound store
unfolding advance
store-IsSound x os app n k v = record {
  order = v.only_order;
  fits = (v.only_at.0, v.only_at.1);
  idle = λ f _. absurd (cc (f, v.only_at.2));
  live = ground (arith, v.only_live);
}

waiting-IsSound : AdvanceIsSound waiting
unfolding advance
waiting-IsSound x os app n k v = elim (Bool-cases (n == 0)) [
  | inl e ↦
      let same = disconnect-SameSending os (clear_send x.session) in
      rw e (record {
        order = ap₂ ◌++◌ same.same_posts same.same_queue ∙ v.only_order;
        fits = (same.same_owner, same.same_buffers);
        idle = ground (arith, same, v.only_registered);
        live = ground (arith, disconnected-disconnect os (clear_send x.session));
      })
  | inr e ↦
      let same = k n (clear_send x.session) in
      rw e (record {
        order = ap₂ ◌++◌ same.same_posts same.same_queue ∙ v.only_order;
        fits = (same.same_registered ∙ v.only_registered, (same.same_owner, same.same_buffers));
        idle = ground (arith, same, v.only_registered);
        live = ground (arith, v.only_live);
      })
]

finish-IsSound : AdvanceIsSound finish
unfolding advance
finish-IsSound x os app n k v =
    let r =
      send_next-Registered os x.session x.session.send_queue refl v.only_registered v.only_at.0
        v.only_at.1 in
    sent_next-IsSound x (send_next os x.session) v.only_order r

pub advance-IsSound : (task : Task) → AdvanceIsSound task
advance-IsSound register = register-IsSound
advance-IsSound drain = drain-IsSound
advance-IsSound post = post-IsSound
advance-IsSound (failing code) = failing-IsSound code
advance-IsSound clear = clear-IsSound
advance-IsSound store = store-IsSound
advance-IsSound waiting = waiting-IsSound
advance-IsSound finish = finish-IsSound
