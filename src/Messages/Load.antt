-- ===== src/Messages/Load.antt =====
-- ThreadPool/ThreadPool/Common/imessage.h and imessage.cpp: the header of a message and
-- IMessage::load_from, in a build without ASSERT. CZlibManager::UnCompress and LzmaUncompress are
-- other libraries' code: what they leave in a buffer of `size` bytes is a parameter.
pub mod Forms
use multi_thread_test.Common.{
  ltb, leb, ◌==◌, if◌then◌else◌, length, take, drop, Result, ◌>>◌, require, undefined, ok, fail, ℕ,
  ◌*◌, Bool, true, false, ◌&&◌, not, Option, none, some, List, [], ◌∷◌,
}
use multi_thread_test.Archive.{R, InStream, is_positive, is_negative, number}

-- MsgHeader; a message of class `msgid` in `bodysize` bytes.
pub record MsgHeader : Type 0 where
  pub msgid : ℕ
  pub bodysize : ℕ

-- eNetID::Max
abbrev pub max_id : ℕ
max_id = 500902

-- `a < b` for the ints that two bit patterns stand for.
unfoldable pub int_less : (a b : ℕ) → Bool
int_less a b =
    if is_negative a
    then (if is_negative b then ltb a b else true)
    else if is_negative b
    then false
    else ltb a b

-- MsgHeader::IsValid
unfoldable pub is_valid : MsgHeader → Bool
unfolding int_less is_positive is_negative
is_valid h =
    not (int_less h.msgid 0)
    && int_less h.msgid max_id
    && int_less 0 h.bodysize
    && int_less h.bodysize (100 * 1024 * 1024)

-- The two libraries' functions: what a buffer of `size` bytes holds afterwards.
pub record Libraries : Type 0 where
  pub zlib : (size : ℕ) → (source : List ℕ) → List ℕ
  pub lzma : (size : ℕ) → (props source : List ℕ) → List ℕ

-- LZMA_PROPS_SIZE
abbrev pub props_size : ℕ
props_size = 5

module _ {A : Type 0} (lib : Libraries) (on_load_from : A → R A) where
  -- `none` is an exception that has been thrown.
  unfoldable pub run_load : (bytes : List ℕ) → A → Option A
  run_load bytes obj = elim (on_load_from obj (record { rest = bytes; good = true })) [
    | none ↦ none
    | some (obj', s) ↦ some obj'
  ]

  -- The part of a compressed message behind its size. An access behind the end of comp_buf is
  -- undefined, and std::string(ori_size, 0) throws on a negative size.
  unfoldable pub load_zlib : (ori_size : ℕ) → (comp : List ℕ) → A → Result (Option A)
  unfolding run_load
  load_zlib ori_size comp obj =
      require (ltb 0 (length comp))
      >> ok (if is_negative ori_size then none else run_load (lib.zlib ori_size comp) obj)

  unfoldable pub load_lzma : (ori_size : ℕ) → (comp : List ℕ) → A → Result (Option A)
  unfolding run_load
  load_lzma ori_size comp obj =
      if ltb 0 (length comp)
      then (if is_negative ori_size
          then ok none
          else require (ltb props_size (length comp))
            >> ok (run_load (lib.lzma ori_size (take props_size comp) (drop props_size comp)) obj))
      else fail undefined

  -- `ori_size` is not initialised: with fewer than four bytes of it in the buffer it is undefined.
  unfoldable pub load_from : (buf : List ℕ) → A → Result (Option A)
  load_from [] obj = ok (some obj)
  load_from (comp ∷ buf) obj =
      if comp == b'N'
      then ok (run_load buf obj)
      else if comp == b'Z'
      then (require (leb 4 (length buf)) >> load_zlib (number (take 4 buf)) (drop 4 buf) obj)
      else if comp == b'L'
      then (require (leb 4 (length buf)) >> load_lzma (number (take 4 buf)) (drop 4 buf) obj)
      else ok (some obj)
