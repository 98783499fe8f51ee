-- ===== src/PacketSession/Frames.antt =====
-- What a stream of packets is, independently of the loop.
use multi_thread_test.Common.{
  length, take, drop, length-append, length-take, length-drop, take-append-drop, drop_front, ℕ,
  zero, suc, ◌+◌, ◌-◌, ◌≤◌, ◌<◌, ◌≡◌, refl, sym, ap, ◌∙◌, subst, ◌⊎◌, inl, inr, List, [], ◌∷◌, ◌++◌,
  append_assoc, arith, flatten, dec_lt,
}
use multi_thread_test.PacketSession.{header_size, u16_at}

-- The size field of the packet that `bytes` begin with.
abbrev pub claimed : List ℕ → ℕ
claimed bytes = u16_at bytes 0

-- Not yet a whole packet: no header, or fewer bytes than the header claims.
abbrev pub Incomplete : List ℕ → Type 0
Incomplete bytes = (length bytes < header_size) ⊎ (length bytes < claimed bytes)

-- `bytes` are the packets of the list, one behind the other, and then an incomplete rest. Each is as
-- long as the header where it starts claims.
pub data Frames : List ℕ → List (List ℕ) → List ℕ → Type 0 where
  partial : {bytes : List ℕ} → Incomplete bytes → Frames bytes [] bytes
  packet :
      (p : List ℕ) {later rest : List ℕ} {packets : List (List ℕ)}
      → header_size ≤ length (p ++ later)
      → 0 < length p
      → claimed (p ++ later) ≡ length p
      → Frames later packets rest
      → Frames (p ++ later) (p ∷ packets) rest

-- The stream meets, behind some packets, a header that claims a packet of no bytes.
pub data Stuck : List ℕ → Type 0 where
  empty_packet : {bytes : List ℕ} → header_size ≤ length bytes → claimed bytes ≡ 0 → Stuck bytes
  behind :
      (p : List ℕ) {later : List ℕ}
      → header_size ≤ length (p ++ later)
      → 0 < length p
      → claimed (p ++ later) ≡ length p
      → Stuck later
      → Stuck (p ++ later)

pub claimed-append : (a b : List ℕ) → header_size ≤ length a → claimed (a ++ b) ≡ claimed a
claimed-append [] b h = absurd (omega arith)
claimed-append (x ∷ []) b h = absurd (omega arith)
claimed-append (x ∷ y ∷ a) b h = refl

-- What a stream of frames is made of.
pub Frames-flatten :
    {bytes rest : List ℕ} {packets : List (List ℕ)}
    → Frames bytes packets rest
    → (bytes ≡ flatten packets ++ rest) × Incomplete rest
unfolding flatten
Frames-flatten (partial i) = (refl, i)
Frames-flatten {rest} (packet p {packets = ps} h n c f) = (
  ap (◌++◌ p) (Frames-flatten f).0 ∙ sym (append_assoc p (flatten ps) rest),
  (Frames-flatten f).1,
)

pub Frames-count :
    {bytes rest : List ℕ} {packets : List (List ℕ)}
    → Frames bytes packets rest
    → length packets + length rest ≤ length bytes
Frames-count (partial i) = omega arith
Frames-count (packet p {later} h n c f) = omega (arith, Frames-count f, length-append p later)

-- The bytes of the packets are those in front of the rest.
pub Frames-drop :
    {bytes rest : List ℕ} {packets : List (List ℕ)}
    → Frames bytes packets rest
    → drop (length bytes - length rest) bytes ≡ rest
Frames-drop {bytes} {rest} {packets} f =
    drop_front (length bytes - length rest) (flatten packets) rest bytes (Frames-flatten f).0 refl

-- The two ways a stream can go on.
abbrev pub Framing : List ℕ → Type 0
Framing bytes =
    ((packets : List (List ℕ)) × (rest : List ℕ) × Frames bytes packets rest) ⊎ Stuck bytes

Framing-packet :
    (p later : List ℕ)
    → header_size ≤ length (p ++ later)
    → 0 < length p
    → claimed (p ++ later) ≡ length p
    → Framing later
    → Framing (p ++ later)
Framing-packet p later h n c (inl (ps, rest, f)) = inl (p ∷ ps, rest, packet p h n c f)
Framing-packet p later h n c (inr f) = inr (behind p h n c f)

Framing-cut :
    (bytes : List ℕ)
    → header_size ≤ length bytes
    → 0 < claimed bytes
    → claimed bytes ≤ length bytes
    → Framing (drop (claimed bytes) bytes)
    → Framing bytes
Framing-cut bytes h n c f = subst Framing whole (
    Framing-packet (take (claimed bytes) bytes) (drop (claimed bytes) bytes) (rw whole h)
      (omega (arith, cut)) (ap claimed whole ∙ sym cut) f)
  where
    whole : take (claimed bytes) bytes ++ drop (claimed bytes) bytes ≡ bytes
    whole = take-append-drop (claimed bytes) bytes

    cut : length (take (claimed bytes) bytes) ≡ claimed bytes
    cut = omega (arith, length-take (claimed bytes) bytes)

Framing-below : (k : ℕ) (bytes : List ℕ) → length bytes < k → Framing bytes
Framing-below zero bytes lt = absurd (omega arith)
Framing-below (suc k) bytes lt = elim (dec_lt (length bytes) header_size) [
  | yes short ↦ inl ([], bytes, partial (inl short))
  | no four ↦ elim (dec_lt (length bytes) (claimed bytes)) [
    | yes short ↦ inl ([], bytes, partial (inr short))
    | no whole ↦ elim (dec_lt 0 (claimed bytes)) [
      | yes more ↦ Framing-cut bytes (omega arith) more (omega arith) (
          Framing-below k (drop (claimed bytes) bytes)
            (omega (arith, length-drop (claimed bytes) bytes)))
      | no nothing ↦ inr (empty_packet (omega arith) (omega arith))
    ]
  ]
]

-- Every stream is either a list of packets with an incomplete rest, or stuck.
pub Framing-total : (bytes : List ℕ) → Framing bytes
Framing-total bytes = Framing-below (length bytes + 1) bytes (omega arith)

-- Packets are recognised the same when more bytes follow: the rest of the first part is completed
-- by the second.
pub Frames-append :
    {a rest ends : List ℕ} {ps qs : List (List ℕ)} (b : List ℕ)
    → Frames a ps rest
    → Frames (rest ++ b) qs ends
    → Frames (a ++ b) (ps ++ qs) ends
Frames-append b (partial i) g = g
Frames-append {ends} {qs} b (packet p {later} {packets = ps} h n c f) g =
    subst (λ (l : List ℕ). Frames l (p ∷ (ps ++ qs)) ends) (sym (append_assoc p later b))
      (packet p (omega (arith, length-append (p ++ later) b, ap length (append_assoc p later b))) n
        (ap claimed (sym (append_assoc p later b)) ∙ claimed-append (p ++ later) b h ∙ c)
        (Frames-append b f g))

-- Values of type BYTE.
abbrev pub IsBytes : List ℕ → Type 0
IsBytes [] = Unit {0}
IsBytes (x ∷ xs) = (x < 256) × IsBytes xs

pub IsBytes-append : (xs ys : List ℕ) → IsBytes xs → IsBytes ys → IsBytes (xs ++ ys)
IsBytes-append [] ys b c = c
IsBytes-append (x ∷ xs) ys b c = (b.0, IsBytes-append xs ys b.1 c)

pub IsBytes-append_right : (xs ys : List ℕ) → IsBytes (xs ++ ys) → IsBytes ys
IsBytes-append_right [] ys b = b
IsBytes-append_right (x ∷ xs) ys b = IsBytes-append_right xs ys b.1

pub IsBytes-append_left : (xs ys : List ℕ) → IsBytes (xs ++ ys) → IsBytes xs
IsBytes-append_left [] ys b = tt
IsBytes-append_left (x ∷ xs) ys b = (b.0, IsBytes-append_left xs ys b.1)

claimed-lt : (xs : List ℕ) → IsBytes xs → claimed xs < 0x10000
claimed-lt [] b = omega arith
claimed-lt (x ∷ []) b = omega arith
claimed-lt (x ∷ y ∷ xs) b = omega arith

pub Frames-IsBytes :
    {bytes rest : List ℕ} {packets : List (List ℕ)}
    → Frames bytes packets rest
    → IsBytes bytes
    → IsBytes rest × (length rest < 0x10000)
Frames-IsBytes (partial {bytes} i) b = (b, omega (arith, i, claimed-lt bytes b))
Frames-IsBytes (packet p {later} h n c f) b = Frames-IsBytes f (IsBytes-append_right p later b)
