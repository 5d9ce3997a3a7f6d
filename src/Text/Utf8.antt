-- ===== src/Text/Utf8.antt =====
-- UTF-8 and UTF-16 as the standard library has them: `str::as_bytes`, `String::from_utf8`,
-- `char::len_utf8` and `char::len_utf16`. A character is a Unicode scalar value.
use native.Mathlib.Decide.{dec_lt}
use data_looker.Prelude.{
  ℕ, zero, suc, ◌+◌, ◌-◌, ◌*◌, ◌/◌, ◌%◌, ◌≤◌, ◌<◌, ◌≡◌, ◌∙◌, refl, sym, ap, ◌⊎◌, Bool, ◌&&◌, ◌||◌,
  Option, none, some, List, [], ◌∷◌, ◌++◌, arith, ltb, leb, if◌then◌else◌, All, length,
  append_assoc,
}

abbrev pub IsScalar : ℕ → Type 0
IsScalar c = (c < 0xd800) ⊎ ((0xe000 ≤ c) × (c ≤ 0x10ffff))

abbrev scalar : ℕ → Bool
scalar c = ltb c 0xd800 || (leb 0xe000 c && leb c 0x10ffff)

unfoldable pub encode_char : ℕ → List ℕ
encode_char c =
    if ltb c 0x80
    then c ∷ []
    else if ltb c 0x800
    then (0xc0 + c / 64) ∷ (0x80 + c % 64) ∷ []
    else if ltb c 0x10000
    then (0xe0 + c / 4096) ∷ (0x80 + c / 64 % 64) ∷ (0x80 + c % 64) ∷ []
    else (0xf0 + c / 262144) ∷ (0x80 + c / 4096 % 64) ∷ (0x80 + c / 64 % 64) ∷ (0x80 + c % 64) ∷ []

-- `as_bytes`.
unfoldable pub as_bytes : List ℕ → List ℕ
unfolding encode_char
as_bytes [] = []
as_bytes (c ∷ s) = encode_char c ++ as_bytes s

unfoldable pub len_utf8 : ℕ → ℕ
len_utf8 c = if ltb c 0x80 then 1 else if ltb c 0x800 then 2 else if ltb c 0x10000 then 3 else 4

unfoldable pub len_utf16 : ℕ → ℕ
len_utf16 c = if ltb c 0x10000 then 1 else 2

abbrev with_char : ℕ → Option (List ℕ) → Option (List ℕ)
with_char c none = none
with_char c (some s) = some (c ∷ s)

-- `need` continuation bytes are still to come of a character whose bits so far are `acc`; one that
-- could have been written shorter, below `least`, is refused.
unfoldable pub decode : List ℕ → ℕ → ℕ → ℕ → Option (List ℕ)
decode [] zero acc least = some []
decode [] (suc need) acc least = none
decode (b ∷ s) zero acc least =
    let one = with_char b (decode s 0 0 0) in
    let two = decode s 1 (b - 0xc0) 0x80 in
    let three = decode s 2 (b - 0xe0) 0x800 in
    let four = decode s 3 (b - 0xf0) 0x10000 in
    if ltb b 0x80
    then one
    else if ltb b 0xc0
    then none
    else if ltb b 0xe0
    then two
    else if ltb b 0xf0
    then three
    else if ltb b 0xf8
    then four
    else none
decode (b ∷ s) (suc zero) acc least =
    let c = acc * 64 + (b - 0x80) in
    let rest = with_char c (decode s 0 0 0) in
    if leb 0x80 b && ltb b 0xc0 && leb least c && scalar c then rest else none
decode (b ∷ s) (suc (suc need)) acc least =
    let rest = decode s (suc need) (acc * 64 + (b - 0x80)) least in
    if leb 0x80 b && ltb b 0xc0 then rest else none

-- `String::from_utf8`.
unfoldable pub from_utf8 : List ℕ → Option (List ℕ)
unfolding decode
from_utf8 bytes = decode bytes 0 0 0

decode-lead :
    (need a least : ℕ) (b : ℕ) (s : List ℕ)
    → ((need ≡ 1) × (b ≡ 0xc0 + a) × (a < 32) × (least ≡ 0x80))
      ⊎ ((need ≡ 2) × (b ≡ 0xe0 + a) × (a < 16) × (least ≡ 0x800))
      ⊎ ((need ≡ 3) × (b ≡ 0xf0 + a) × (a < 8) × (least ≡ 0x10000))
    → decode (b ∷ s) 0 0 0 ≡ decode s need a least
unfolding decode
decode-lead need a least b s h = ground arith

decode-more :
    (need acc least a : ℕ) (s : List ℕ)
    → a < 64
    → decode ((0x80 + a) ∷ s) (suc (suc need)) acc least ≡ decode s (suc need) (acc * 64 + a) least
unfolding decode
decode-more need acc least a s h = ground arith

decode-last :
    (acc least a c : ℕ) (s : List ℕ)
    → a < 64
    → c ≡ acc * 64 + a
    → least ≤ c
    → IsScalar c
    → decode ((0x80 + a) ∷ s) 1 acc least ≡ with_char c (decode s 0 0 0)
unfolding decode
decode-last acc least a c s h e l v = ground arith

abbrev b1 : ℕ → ℕ
b1 c = c % 64

abbrev b2 : ℕ → ℕ
b2 c = c / 64 % 64

abbrev b3 : ℕ → ℕ
b3 c = c / 4096 % 64

-- A character is read back from its bytes, whatever follows them.
pub decode-encode_char :
    (c : ℕ) (s : List ℕ)
    → IsScalar c
    → decode (encode_char c ++ s) 0 0 0 ≡ with_char c (decode s 0 0 0)
unfolding encode_char
decode-encode_char c s h = elim (dec_lt c 0x80) [
  | yes p ↦ unfold decode in ground arith
  | no p ↦ elim (dec_lt c 0x800) [
    | yes q ↦ ground (
      arith,
      decode-lead 1 (c / 64) 0x80 (0xc0 + c / 64) ((0x80 + b1 c) ∷ s),
      decode-last (c / 64) 0x80 (b1 c) c s,
    )
    | no q ↦ elim (dec_lt c 0x10000) [
      | yes r ↦ ground (
        arith,
        decode-lead 2 (c / 4096) 0x800 (0xe0 + c / 4096) ((0x80 + b2 c) ∷ (0x80 + b1 c) ∷ s),
        decode-more 0 (c / 4096) 0x800 (b2 c) ((0x80 + b1 c) ∷ s),
        decode-last (c / 4096 * 64 + b2 c) 0x800 (b1 c) c s,
      )
      | no r ↦ ground (
        arith,
        decode-lead 3 (c / 262144) 0x10000 (0xf0 + c / 262144)
            ((0x80 + b3 c) ∷ (0x80 + b2 c) ∷ (0x80 + b1 c) ∷ s),
        decode-more 1 (c / 262144) 0x10000 (b3 c) ((0x80 + b2 c) ∷ (0x80 + b1 c) ∷ s),
        decode-more 0 (c / 262144 * 64 + b3 c) 0x10000 (b2 c) ((0x80 + b1 c) ∷ s),
        decode-last ((c / 262144 * 64 + b3 c) * 64 + b2 c) 0x10000 (b1 c) c s,
      )
    ]
  ]
]

-- A text is read back from its bytes.
pub from_utf8-as_bytes : (s : List ℕ) → All IsScalar s → from_utf8 (as_bytes s) ≡ some s
unfolding from_utf8 as_bytes
from_utf8-as_bytes [] h = unfold decode in refl
from_utf8-as_bytes (c ∷ s) h =
    decode-encode_char c (as_bytes s) h.0 ∙ ap (with_char c) (from_utf8-as_bytes s h.1)

pub length-encode_char : (c : ℕ) → length (encode_char c) ≡ len_utf8 c
unfolding encode_char len_utf8
length-encode_char c = ground arith

pub as_bytes-append : (s t : List ℕ) → as_bytes (s ++ t) ≡ as_bytes s ++ as_bytes t
unfolding as_bytes
as_bytes-append [] t = refl
as_bytes-append (c ∷ s) t = simp (as_bytes-append s t, append_assoc)

pub as_bytes-ascii : (s : List ℕ) → All (λ c. c < 0x80) s → as_bytes s ≡ s
unfolding as_bytes encode_char
as_bytes-ascii [] h = refl
as_bytes-ascii (c ∷ s) h = ground (arith, as_bytes-ascii s h.1)

ascii-IsScalar : (s : List ℕ) → All (λ c. c < 0x80) s → All IsScalar s
ascii-IsScalar [] h = tt
ascii-IsScalar (c ∷ s) h = (omega arith, ascii-IsScalar s h.1)

pub from_utf8-ascii : (s : List ℕ) → All (λ c. c < 0x80) s → from_utf8 s ≡ some s
from_utf8-ascii s h =
    ap from_utf8 (sym (as_bytes-ascii s h)) ∙ from_utf8-as_bytes s (ascii-IsScalar s h)
