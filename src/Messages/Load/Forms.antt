-- ===== src/Messages/Load/Forms.antt =====
-- ThreadPool/ThreadPool/Common/imessage.cpp: the forms of a message that IMessage::load_from takes,
-- as the comment of IMessage::save_to writes them.
use multi_thread_test.Common.{
  leb, lt→ltb, length, take, drop, length-append, length-drop, take-append_length,
  drop-append_length, undefined, ok, fail, ℕ, ◌^◌, ◌≤◌, ◌<◌, ◌≡◌, refl, sym, ap, ◌∙◌, subst, ◌↔◌,
  ◌⊎◌, true, false, Option, none, some, List, [], ◌∷◌, ◌++◌, append-nil, arith,
}
use multi_thread_test.Archive.{Pod, R, is_negative, number, digits}
use multi_thread_test.Archive.Bytes.{stream, length-digits, number-digits, count_nonnegative}
use multi_thread_test.Messages.Requests
use multi_thread_test.Messages.Requests.{Request}
use multi_thread_test.Messages.Responses
use multi_thread_test.Messages.Responses.{Response}
use multi_thread_test.Messages.Load.{
  Libraries, run_load, load_zlib, load_lzma, load_from, props_size,
}

-- Plain, or compressed to `comp` by one of the libraries.
pub data Form : Type 0 where
  plain : Form
  zlib : (comp : List ℕ) → Form
  lzma : (props comp : List ℕ) → Form

abbrev pub packed : Form → (body : List ℕ) → List ℕ
packed plain body = b'N' ∷ body
packed (zlib comp) body = b'Z' ∷ (digits 4 (length body) ++ comp)
packed (lzma props comp) body = b'L' ∷ (digits 4 (length body) ++ (props ++ comp))

-- The library gives the body back from what it was compressed to.
abbrev pub Packs : Libraries → Form → (body : List ℕ) → Type 0
Packs lib plain body = Unit {0}
Packs lib (zlib comp) body =
    (length body < 2 ^ 31) × (0 < length comp) × (lib.zlib (length body) comp ≡ body)
Packs lib (lzma props comp) body =
    (length body < 2 ^ 31)
    × (length props ≡ props_size)
    × (0 < length comp)
    × (lib.lzma (length body) props comp ≡ body)

size_front :
    (size : ℕ) (rest : List ℕ)
    → size < 2 ^ 31
    → (leb 4 (length (digits 4 size ++ rest)) ≡ true)
      × (number (take 4 (digits 4 size ++ rest)) ≡ size)
      × (drop 4 (digits 4 size ++ rest) ≡ rest)
size_front size rest h = (
  ground (arith, length-append (digits 4 size) rest, length-digits 4 size),
  ap number (take-append_length 4 (digits 4 size) rest (sym (length-digits 4 size)))
      ∙ number-digits 4 size (omega (arith, h)),
  drop-append_length 4 (digits 4 size) rest (sym (length-digits 4 size)),
)

module _ {A : Type 0} (lib : Libraries) (on_load_from : A → R A) where
  -- load_from does with a body that is compressed by zlib or lzma, on any object, what it does
  -- with the plain body, also where on_load_from throws. For a library that gives the body back,
  -- and a body below 2 ^ 31 bytes.
  pub load_from-packed :
      (form : Form) (body : List ℕ) (obj : A)
      → Packs lib form body
      → load_from lib on_load_from (packed form body) obj
        ≡ load_from lib on_load_from (b'N' ∷ body) obj
  unfolding load_from load_zlib load_lzma
  load_from-packed plain body obj h = refl
  load_from-packed (zlib comp) body obj h =
      let (long, size, rest) = size_front (length body) comp h.0 in
      rw (long, size, rest, count_nonnegative (length body) h.0, lt→ltb _ _ h.1, h.2) refl
  load_from-packed (lzma props comp) body obj h =
      let (long, size, rest) = size_front (length body) (props ++ comp) h.0 in
      let inside : props_size < length (props ++ comp) =
        omega (arith, h.1, h.2, length-append props comp) in
      let some_front : 0 < length (props ++ comp) = omega (arith, inside) in
      rw
        (
          long,
          size,
          rest,
          count_nonnegative (length body) h.0,
          lt→ltb props_size _ inside,
          lt→ltb 0 _ some_front,
          take-append_length props_size props comp (sym h.1),
          drop-append_length props_size props comp (sym h.1),
          h.3,
        )
        refl

  load_from-plain :
      (body : List ℕ) (old obj : A)
      → on_load_from old (stream (body ++ [])) ≡ some (obj, stream [])
      → load_from lib on_load_from (b'N' ∷ body) old ≡ ok (some obj)
  unfolding load_from run_load
  load_from-plain body old obj h =
      let e : on_load_from old (stream body) ≡ some (obj, stream []) =
        subst (λ xs. on_load_from old (stream xs) ≡ some (obj, stream [])) (append-nil body) h in
      rw (e, run_load) refl

  -- Where the bytes of a compressed message end too early: in its size, before its data, or, with
  -- a size that is not negative, in the properties of lzma.
  abbrev pub IsCut : (buf : List ℕ) → Type 0
  IsCut [] = ⊥
  IsCut (comp ∷ buf) =
      ((comp ≡ b'Z') × (length buf ≤ 4))
      ⊎ ((comp ≡ b'L')
          × ((length buf ≤ 4) ⊎ ((length buf ≤ 9) × (is_negative (number (take 4 buf)) ≡ false))))

  -- load_from is undefined exactly on the compressed messages that are cut: one with less than
  -- five bytes behind its first, which hold its size and data, or one of lzma, with a size that is
  -- not negative, with less than ten.
  pub load_from-undefined :
      (buf : List ℕ) (obj : A) → (load_from lib on_load_from buf obj ≡ fail undefined) ↔ IsCut buf
  unfolding load_from load_zlib load_lzma
  load_from-undefined [] obj = ground arith
  load_from-undefined (comp ∷ buf) obj = ground (arith, length-drop 4 buf)

module _ (lib : Libraries) where
  load_from_made :
      {Area : Type 0} (pod : Pod Area) (form : Form) (r : Request Area)
      (made : Option (Request Area))
      → Packs lib form (Requests.on_save_to pod r)
      → Requests.RoundTrip.Loads pod [] made r
      → (old : Request Area) × (made ≡ some old)
        × (load_from lib (Requests.on_load_from pod) (packed form (Requests.on_save_to pod r)) old
            ≡ ok (some r))
  load_from_made pod form r none h loads = absurd loads
  load_from_made pod form r (some old) h loads =
      (old, refl, load_from-packed lib _ form _ old h ∙ load_from-plain lib _ _ old r loads)

  -- The request that RequestCreator makes for the id of a request becomes that request when
  -- load_from reads its bytes, plain or compressed. For each of the 13 classes of requests, with
  -- members in the range of their types, and a library that gives the body back.
  pub load_from-request :
      {Area : Type 0} (pod : Pod Area) (area : Area) (form : Form) (r : Request Area)
      → Requests.RoundTrip.IsValid pod r
      → Packs lib form (Requests.on_save_to pod r)
      → (old : Request Area) × (Requests.create area (Requests.msg_id r) ≡ some old)
        × (load_from lib (Requests.on_load_from pod) (packed form (Requests.on_save_to pod r)) old
            ≡ ok (some r))
  load_from-request pod area form r v h =
      load_from_made pod form r _ h (Requests.RoundTrip.create-load pod area r [] v)

  -- A new response becomes the response whose bytes load_from reads, plain or compressed: each of
  -- the nine, with all its polylines, polygons, links, nodes, passing rules, 3D data or heights,
  -- member for member, whatever the memory of a new PassInfo held. For members in the range of
  -- their types, and a library that gives the body back.
  pub load_from-response :
      (t_kind ttti_id : ℕ) (form : Form) (r : Response)
      → Responses.RoundTrip.IsValid r
      → Packs lib form (Responses.on_save_to t_kind ttti_id r)
      → load_from lib
          (Responses.on_load_from t_kind ttti_id)
          (packed form (Responses.on_save_to t_kind ttti_id r))
          (Responses.made_like r)
        ≡ ok (some r)
  load_from-response a b form r v h =
      load_from-packed lib _ form _ _ h
      ∙ load_from-plain lib _ _ _ r (Responses.RoundTrip.made_like-load a b r [] v)
