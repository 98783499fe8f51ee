-- ===== src/Archive/Objects.antt =====
-- ThreadPool/ThreadPool/Common/ae_binary_iarchive.h and ae_binary_oarchive.h: read_iteratable and
-- write_iteratable, for a class with on_save_to and on_load_from.
use multi_thread_test.Common.{length, ℕ, ◌%◌, ◌^◌, List, [], ◌∷◌, ◌++◌}
use multi_thread_test.Archive.{R, ◌⨾◌, ret, ◌>>=◌, stream_write, stream_read, long, resize}

-- A class that an archive stores: its default constructor and its two members.
pub record Class (A : Type 0) : Type 0 where
  pub initial : A
  pub on_save_to : A → List ℕ
  pub on_load_from : A → R A

module _ {A : Type 0} (class : Class A) where
  unfoldable pub save_all : List A → List ℕ
  save_all [] = []
  save_all (x ∷ xs) = class.on_save_to x ++ save_all xs

  unfoldable pub load_all : List A → R (List A)
  load_all [] = ret []
  load_all (x ∷ xs) = do x' ← class.on_load_from x; xs' ← load_all xs; ret (x' ∷ xs')

  unfoldable pub write_iteratable : List A → List ℕ
  write_iteratable datas = stream_write long (length datas % 2 ^ 32) ⨾ save_all datas

  unfoldable pub read_iteratable : List A → R (List A)
  read_iteratable datas = do
    count ← stream_read long 0
    datas' ← resize class.initial count datas
    load_all datas'
