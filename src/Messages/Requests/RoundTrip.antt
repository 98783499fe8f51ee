-- ===== src/Messages/Requests/RoundTrip.antt =====
-- ThreadPool/ThreadPool/Common/request.h: the round trip of the requests.
use multi_thread_test.Common.{
  length, ℕ, ◌^◌, ◌<◌, ◌≡◌, ◌∙◌, Option, none, some, List, [], ◌∷◌, ◌++◌, arith,
}
use multi_thread_test.Archive.{Pod, short}
use multi_thread_test.Archive.Bytes.{
  stream, Stored, AllStored, StoredAll, word-Stored, stream_read-write, bind-some,
}
use multi_thread_test.Archive.RoundTrip.{IsShort, IsLong, long_then, last_word, last_dump}
use multi_thread_test.Messages.Requests.{
  ReqInt, ReqEllipseArea, ReqEllipseLoadtypeArea, ReqMapid, ReqLoadtypeMapid, Request, welcome,
  polylines_area, polygons_area, nodes_area, links_area, pass_infos_area, height_3d_infos,
  polylines_mapid, links_mapid, polygons_mapid, nodes_mapid, pass_infos_mapid, polygon_3d_infos,
  save_int, load_int, save_mapid, load_mapid, save_loadtype_mapid, load_loadtype_mapid, save_area,
  load_area, save_loadtype_area, load_loadtype_area, on_save_to, on_load_from, msg_id, create,
}

-- A text of UTF-16 code units that an int can count.
abbrev pub AllShort : List ℕ → Type 0
AllShort [] = Unit {0}
AllShort (c ∷ cs) = IsShort c × AllShort cs

pub record IsText (text : List ℕ) : Type 0 where
  pub inside : AllShort text
  pub counted : length text < 2 ^ 31

pub IsText-StoredAll : {text : List ℕ} → IsText text → StoredAll short text
IsText-StoredAll {text} h = record { all = inside text h.inside; counted = h.counted }
  where
    inside : (cs : List ℕ) → AllShort cs → AllStored short cs
    inside [] v = tt
    inside (c ∷ cs) v = (word-Stored 2 c (omega arith), inside cs v.1)

module _ {Area : Type 0} (pod : Pod Area) where
  abbrev pub IsByArea : ReqEllipseArea Area → Type 0
  IsByArea r = IsLong r.ellipsoid × Stored pod r.area

  abbrev pub IsByTypeArea : ReqEllipseLoadtypeArea Area → Type 0
  IsByTypeArea r = IsLong r.ellipsoid × IsLong r.load_type × Stored pod r.area

abbrev pub IsByTypeMapid : ReqLoadtypeMapid → Type 0
IsByTypeMapid r = IsLong r.load_type × IsText r.mapid

-- The members hold values of their types, and the area has a memory that gives it back.
abbrev pub IsValid : {Area : Type 0} → Pod Area → Request Area → Type 0
IsValid pod (welcome r) = IsLong r.number
IsValid pod (polylines_area r) = IsByTypeArea pod r
IsValid pod (polygons_area r) = IsByTypeArea pod r
IsValid pod (nodes_area r) = IsByTypeArea pod r
IsValid pod (links_area r) = IsByTypeArea pod r
IsValid pod (pass_infos_area r) = IsByTypeArea pod r
IsValid pod (height_3d_infos r) = IsByTypeArea pod r
IsValid pod (polylines_mapid r) = IsText r.mapid
IsValid pod (links_mapid r) = IsText r.mapid
IsValid pod (polygons_mapid r) = IsByTypeMapid r
IsValid pod (nodes_mapid r) = IsByTypeMapid r
IsValid pod (pass_infos_mapid r) = IsByTypeMapid r
IsValid pod (polygon_3d_infos r) = IsByArea pod r

load-save_int :
    (old r : ReqInt) (rest : List ℕ)
    → IsLong r.number
    → load_int old (stream (save_int r ++ rest)) ≡ some (r, stream rest)
unfolding load_int save_int
load-save_int old r rest h = last_word 4 _ _ _ _ h

load-save_mapid :
    (old r : ReqMapid) (rest : List ℕ)
    → IsText r.mapid
    → load_mapid old (stream (save_mapid r ++ rest)) ≡ some (r, stream rest)
unfolding load_mapid save_mapid
load-save_mapid old r rest h = last_dump short _ _ _ _ (IsText-StoredAll h)

load-save_loadtype_mapid :
    (old r : ReqLoadtypeMapid) (rest : List ℕ)
    → IsByTypeMapid r
    → load_loadtype_mapid old (stream (save_loadtype_mapid r ++ rest)) ≡ some (r, stream rest)
unfolding load_loadtype_mapid save_loadtype_mapid
load-save_loadtype_mapid old r rest h =
    long_then _ _ _ _ _ h.0 ∙ last_dump short _ _ _ _ (IsText-StoredAll h.1)

module _ {Area : Type 0} (pod : Pod Area) where
  load-save_area :
      (old r : ReqEllipseArea Area) (rest : List ℕ)
      → IsByArea pod r
      → load_area pod old (stream (save_area pod r ++ rest)) ≡ some (r, stream rest)
  unfolding load_area save_area
  load-save_area old r rest h =
      long_then _ _ _ _ _ h.0 ∙ bind-some _ (stream_read-write pod _ _ _ h.1)

  load-save_loadtype_area :
      (old r : ReqEllipseLoadtypeArea Area) (rest : List ℕ)
      → IsByTypeArea pod r
      → load_loadtype_area pod old (stream (save_loadtype_area pod r ++ rest))
        ≡ some (r, stream rest)
  unfolding load_loadtype_area save_loadtype_area
  load-save_loadtype_area old r rest h =
      long_then _ _ _ _ _ h.0
      ∙ long_then _ _ _ _ _ h.1
      ∙ bind-some _ (stream_read-write pod _ _ _ h.2)

  -- The request that RequestCreator makes for the id of a request becomes that request.
  abbrev pub Loads : (rest : List ℕ) → (made : Option (Request Area)) → Request Area → Type 0
  Loads rest none r = ⊥
  Loads rest (some old) r =
      on_load_from pod old (stream (on_save_to pod r ++ rest)) ≡ some (r, stream rest)

  pub create-load :
      (area : Area) (r : Request Area) (rest : List ℕ)
      → IsValid pod r
      → Loads rest (create area (msg_id r)) r
  unfolding create msg_id on_load_from on_save_to
  create-load area (welcome r) rest v = bind-some _ (load-save_int _ r rest v)
  create-load area (polylines_area r) rest v = bind-some _ (load-save_loadtype_area _ r rest v)
  create-load area (polygons_area r) rest v = bind-some _ (load-save_loadtype_area _ r rest v)
  create-load area (nodes_area r) rest v = bind-some _ (load-save_loadtype_area _ r rest v)
  create-load area (links_area r) rest v = bind-some _ (load-save_loadtype_area _ r rest v)
  create-load area (pass_infos_area r) rest v = bind-some _ (load-save_loadtype_area _ r rest v)
  create-load area (height_3d_infos r) rest v = bind-some _ (load-save_loadtype_area _ r rest v)
  create-load area (polylines_mapid r) rest v = bind-some _ (load-save_mapid _ r rest v)
  create-load area (links_mapid r) rest v = bind-some _ (load-save_mapid _ r rest v)
  create-load area (polygons_mapid r) rest v = bind-some _ (load-save_loadtype_mapid _ r rest v)
  create-load area (nodes_mapid r) rest v = bind-some _ (load-save_loadtype_mapid _ r rest v)
  create-load area (pass_infos_mapid r) rest v = bind-some _ (load-save_loadtype_mapid _ r rest v)
  create-load area (polygon_3d_infos r) rest v = bind-some _ (load-save_area _ r rest v)
