-- ===== src/Messages/GeoHeight.antt =====
-- ThreadPool/ThreadPool/Common/response_common.h: out::GeoHeight, dumped as its memory.
use multi_thread_test.Common.{
  take, drop, length-append, take-append_length, drop-append_length, ℕ, ◌^◌, ◌<◌, refl, sym, ◌∙◌,
  ◌++◌, arith,
}
use multi_thread_test.Archive.{Pod, double}
use multi_thread_test.Archive.Bytes.{Stored, word-Stored, length-word_bytes}

pub record GeoHeight : Type 0 where
  pub r_height : ℕ
  pub r_dem_height : ℕ

abbrev pub geo_height : Pod GeoHeight
geo_height = record {
  size = 16;
  zeroed = record { r_height = 0; r_dem_height = 0 };
  to_bytes = λ g. double.to_bytes g.r_height ++ double.to_bytes g.r_dem_height;
  of_bytes = λ bytes. record {
    r_height = double.of_bytes (take 8 bytes);
    r_dem_height = double.of_bytes (drop 8 bytes);
  };
}

-- Two doubles are had back from the memory of a GeoHeight.
pub geo_height-Stored :
    (g : GeoHeight) → g.r_height < 2 ^ 64 → g.r_dem_height < 2 ^ 64 → Stored geo_height g
geo_height-Stored g h k =
    let first : Stored double g.r_height = word-Stored 8 g.r_height (omega (arith, h)) in
    let second : Stored double g.r_dem_height = word-Stored 8 g.r_dem_height (omega (arith, k)) in
    let a = double.to_bytes g.r_height in
    let b = double.to_bytes g.r_dem_height in
    let eight = length-word_bytes 8 g.r_height in
    record {
      sized = length-append a b ∙ rw (eight, length-word_bytes 8 g.r_dem_height) refl;
      restored =
          rw
            (
              take-append_length 8 a b (sym eight),
              drop-append_length 8 a b (sym eight),
              first.restored,
              second.restored,
            )
            refl;
    }
