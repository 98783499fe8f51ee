-- ===== src/Messages/Tests.antt =====
-- ThreadPool/ThreadPool/Common: messages at concrete values.
use multi_thread_test.Common.{
  replicate, undefined, ok, fail, ℕ, ◌-◌, ◌^◌, ◌≡◌, refl, ◌↔◌, some, List, [], ◌∷◌, arith,
}
use multi_thread_test.Archive.{long, word, digits, stream_write}
use multi_thread_test.Messages.GeoHeight.{geo_height-Stored}
use multi_thread_test.Messages.Requests
use multi_thread_test.Messages.Requests.{Request}
use multi_thread_test.Messages.Responses
use multi_thread_test.Messages.Responses.{Response}
use multi_thread_test.Messages.Load.{Libraries, load_from}
use multi_thread_test.Messages.Load.Forms.{
  plain, lzma, packed, load_from-packed, load_from-undefined, load_from-request, load_from-response,
  IsCut,
}

-- Libraries that store a body as it is.
abbrev storing : Libraries
storing = record { zlib = λ size source. source; lzma = λ size props source. source }

-- Height data of two objects, one of them with two heights.
abbrev heights : Response
heights = Responses.height_3d_infos (record {
  objs =
      record {
        obj_id = 7;
        map_id = 2 ^ 32 - 1;
        b3d_id = replicate 15 b'x';
        heights =
            record { r_height = 5; r_dem_height = 300 }
            ∷ record { r_height = 0; r_dem_height = 2 ^ 63 }
            ∷ [];
      }
      ∷ record { obj_id = 8; map_id = 1; b3d_id = replicate 15 0; heights = [] }
      ∷ [];
})

heights-IsValid : Responses.RoundTrip.IsValid heights
heights-IsValid = record {
  inside = (
    record {
      obj_id = omega arith;
      map_id = omega arith;
      b3d_id = refl;
      heights = record {
        all = (
          geo_height-Stored _ (omega arith) (omega arith),
          (geo_height-Stored _ (omega arith) (omega arith), tt),
        );
        counted = omega arith;
      };
    },
    (
      record {
        obj_id = omega arith;
        map_id = omega arith;
        b3d_id = refl;
        heights = record { all = tt; counted = omega arith };
      },
      tt,
    ),
  );
  counted = omega arith;
}

load_from-response_example :
    load_from storing
      (Responses.on_load_from 9 9)
      (packed plain (Responses.on_save_to 9 9 heights))
      (Responses.made_like heights)
    ≡ ok (some heights)
load_from-response_example = load_from-response storing 9 9 plain heights heights-IsValid tt

-- A request for the polygons of houses on a map sheet.
abbrev by_mapid : Request ℕ
by_mapid = Requests.polygons_mapid (record { load_type = 214; mapid = b'3' ∷ b'7' ∷ 44032 ∷ [] })

load_from-request_example :
    (old : Request ℕ) × (Requests.create 0 100501 ≡ some old)
    × (load_from storing
          (Requests.on_load_from long)
          (packed plain (Requests.on_save_to long by_mapid))
          old
        ≡ ok (some by_mapid))
unfolding Requests.msg_id
load_from-request_example =
    load_from-request storing long 0 plain by_mapid
      (
        omega arith,
        record { inside = (omega arith, (omega arith, (omega arith, tt))); counted = omega arith },
      )
      tt

abbrev packed_body : List ℕ
packed_body = 1 ∷ 2 ∷ 3 ∷ []

load_from-packed_example :
    load_from storing
      (Requests.on_load_from long)
      (packed (lzma (replicate 5 0) packed_body) packed_body)
      by_mapid
    ≡ load_from storing (Requests.on_load_from long) (b'N' ∷ packed_body) by_mapid
load_from-packed_example =
    load_from-packed storing (Requests.on_load_from long) (lzma (replicate 5 0) packed_body)
      packed_body by_mapid (omega arith, refl, omega arith, refl)

-- A compressed message that ends within its size.
load_from-undefined_example :
    (load_from storing (Requests.on_load_from long) (b'Z' ∷ 1 ∷ 0 ∷ []) by_mapid ≡ fail undefined)
    ↔ IsCut storing (Requests.on_load_from long) (b'Z' ∷ 1 ∷ 0 ∷ [])
load_from-undefined_example =
    load_from-undefined storing (Requests.on_load_from long) (b'Z' ∷ 1 ∷ 0 ∷ []) by_mapid

welcome_bytes :
    Requests.on_save_to long (Requests.welcome (record { number = 258 })) ≡ 2 ∷ 1 ∷ 0 ∷ 0 ∷ []
unfolding Requests.on_save_to Requests.save_int stream_write word digits
welcome_bytes = refl
