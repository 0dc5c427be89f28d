-- ===== src/Datagram/Decode.antt =====
-- A reader of OSC 1.0, and what it finds in the bytes that `osc_datagram` makes.
use softcut_py.Base.{
  ℕ, zero, suc, ◌+◌, ◌-◌, ◌*◌, ◌/◌, ◌%◌, ◌^◌, ◌<◌, ◌≡◌, ◌≢◌, refl, sym, ◌∙◌, ap, arith, Bool-cases,
  inl, inr, Option, none, some, List, [], ◌∷◌, ◌++◌, All, length, length-append, drop, replicate,
  length-replicate, if◌then◌else◌, ltb, ◌==◌, nat_eq,
}
use mathlib.Core.List.{append_assoc}
use softcut_py.Base.Int.{ℤ, pos, negsuc}
use softcut_py.Base.Exec.{ok, err, ok-injective, struct_error}
use softcut_py.Datagram.{pad, pack_int, big_endian}

-- The bytes up to the first zero.
unfoldable pub text_of : List ℕ → List ℕ
text_of [] = []
text_of (zero ∷ bytes) = []
text_of (suc b ∷ bytes) = suc b ∷ text_of bytes

-- What follows a text of that length and its padding.
unfoldable pub after_text : List ℕ → List ℕ → List ℕ
after_text text bytes = drop (length text + (4 - length text % 4)) bytes

-- A signed number of four bytes, the high one first.
unfoldable pub number : ℕ → ℤ
number v = if ltb v (2 ^ 31) then pos v else negsuc (2 ^ 32 - 1 - v)

-- An argument as it is read: a number, the four bytes of a float, or the bytes of a text.
pub data Read : Type 0 where
  number_arg : ℤ → Read
  float_arg : List ℕ → Read
  text_arg : List ℕ → Read

abbrev pub Rest : Type 0
Rest = List ℕ → Option (List Read)

abbrev pub put_first : Read → Option (List Read) → Option (List Read)
put_first r none = none
put_first r (some reads) = some (r ∷ reads)

unfoldable pub read_number : Rest → List ℕ → Option (List Read)
read_number rest (a ∷ b ∷ c ∷ d ∷ bytes) =
    put_first (number_arg (number (a * 2 ^ 24 + b * 2 ^ 16 + c * 2 ^ 8 + d))) (rest bytes)
read_number rest _ = none

unfoldable pub read_float : Rest → List ℕ → Option (List Read)
read_float rest (a ∷ b ∷ c ∷ d ∷ bytes) = put_first (float_arg (a ∷ b ∷ c ∷ d ∷ [])) (rest bytes)
read_float rest _ = none

unfoldable pub read_text : Rest → List ℕ → Option (List Read)
read_text rest bytes =
    put_first (text_arg (text_of bytes)) (rest (after_text (text_of bytes) bytes))

-- The arguments that the tags ask for, and nothing after them.
unfoldable pub read_args : List ℕ → List ℕ → Option (List Read)
unfolding read_number read_float read_text
read_args [] [] = some []
read_args [] (b ∷ bytes) = none
read_args (t ∷ tags) bytes =
    if t == b'i'
    then read_number (read_args tags) bytes
    else if t == b'f'
    then read_float (read_args tags) bytes
    else if t == b's'
    then read_text (read_args tags) bytes
    else none

abbrev pub with_address : List ℕ → Option (List Read) → Option (List ℕ × List Read)
with_address address none = none
with_address address (some reads) = some (address, reads)

-- The tags begin with a comma.
unfoldable pub read_tagged : List ℕ → List ℕ → List ℕ → Option (List ℕ × List Read)
unfolding read_args
read_tagged address [] body = none
read_tagged address (c ∷ tags) body =
    if c == b',' then with_address address (read_args tags body) else none

-- A message: its address and its arguments.
unfoldable pub decode : List ℕ → Option (List ℕ × List Read)
unfolding read_tagged
decode bytes =
    let address = text_of bytes in
    let more = after_text address bytes in
    let tags = text_of more in read_tagged address tags (after_text tags more)

-- No byte is zero.
abbrev pub NoZero : List ℕ → Type 0
NoZero = All (λ b. b ≢ 0)

text_of-append : (raw rest : List ℕ) → NoZero raw → text_of (raw ++ (0 ∷ rest)) ≡ raw
unfolding text_of
text_of-append [] rest h = refl
text_of-append (zero ∷ raw) rest (h, _) = absurd (h refl)
text_of-append (suc b ∷ raw) rest (_, h) = ap (λ r. suc b ∷ r) (text_of-append raw rest h)

drop-length : (xs ys : List ℕ) → drop (length xs) (xs ++ ys) ≡ ys
drop-length [] ys = refl
drop-length (x ∷ xs) ys = drop-length xs ys

pub text_of-pad : (raw rest : List ℕ) → NoZero raw → text_of (pad raw ++ rest) ≡ raw
unfolding pad
text_of-pad raw rest h =
    let k = 3 - length raw % 4 in
    let one_more : 4 - length raw % 4 ≡ suc k = omega arith in
    rw one_more (
      ap text_of (append_assoc raw (replicate (suc k) 0) rest)
      ∙ text_of-append raw (replicate k 0 ++ rest) h)

length-pad : (raw : List ℕ) → length (pad raw) ≡ length raw + (4 - length raw % 4)
unfolding pad
length-pad raw =
    length-append raw (replicate (4 - length raw % 4) 0)
    ∙ ap (λ n. length raw + n) (length-replicate (4 - length raw % 4) 0)

pub after_text-pad : (raw rest : List ℕ) → after_text raw (pad raw ++ rest) ≡ rest
unfolding after_text
after_text-pad raw rest = rw (← length-pad raw) (drop-length (pad raw) rest)

number-big_endian :
    (v : ℕ)
    → v < 2 ^ 32
    → v / 2 ^ 24 * 2 ^ 24 + v / 2 ^ 16 % 256 * 2 ^ 16 + v / 2 ^ 8 % 256 * 2 ^ 8 + v % 256 ≡ v
number-big_endian v h = omega arith

-- The four bytes of a number, as they stand for it.
wire : ℤ → ℕ
wire (pos n) = n
wire (negsuc n) = 2 ^ 32 - 1 - n

pack_int-big_endian :
    (i : ℤ) {bytes : List ℕ}
    → pack_int i ≡ ok bytes
    → (big_endian (wire i) ≡ bytes) × (wire i < 2 ^ 32) × (number (wire i) ≡ i)
unfolding pack_int wire number
pack_int-big_endian (pos n) {bytes} h = elim (Bool-cases (ltb n (2 ^ 31))) [
  | inl small ↦
      (ok-injective (big_endian n) bytes (sym (rw small refl) ∙ h), ground arith, rw small refl)
  | inr large ↦ absurd (refused (sym (rw large refl) ∙ h))
]
  where
    refused : err struct_error ≡ ok bytes → ⊥
    refused e = cc
pack_int-big_endian (negsuc n) {bytes} h = elim (Bool-cases (ltb n (2 ^ 31))) [
  | inl small ↦ (
    ok-injective (big_endian (2 ^ 32 - 1 - n)) bytes (sym (rw small refl) ∙ h),
    omega arith,
    ground arith,
  )
  | inr large ↦ absurd (refused (sym (rw large refl) ∙ h))
]
  where
    refused : err struct_error ≡ ok bytes → ⊥
    refused e = cc

-- A packed integer reads back.
pub read_number-pack_int :
    (rest : Rest) (i : ℤ) {bytes : List ℕ} (more : List ℕ)
    → pack_int i ≡ ok bytes
    → read_number rest (bytes ++ more) ≡ put_first (number_arg i) (rest more)
unfolding read_number
read_number-pack_int rest i {bytes} more h =
    let (same, small, back) = pack_int-big_endian i h in
    ap (λ bs. read_number rest (bs ++ more)) (sym same)
    ∙ ap (λ v. put_first (number_arg (number v)) (rest more)) (number-big_endian (wire i) small)
    ∙ ap (λ j. put_first (number_arg j) (rest more)) back

pub read_text-pad :
    (rest : Rest) (raw more : List ℕ)
    → NoZero raw
    → read_text rest (pad raw ++ more) ≡ put_first (text_arg raw) (rest more)
unfolding read_text
read_text-pad rest raw more h =
    rw (text_of-pad raw more h)
      (ap (λ bs. put_first (text_arg raw) (rest bs)) (after_text-pad raw more))

pub read_float-four :
    (rest : Rest) (bytes more : List ℕ)
    → length bytes ≡ 4
    → read_float rest (bytes ++ more) ≡ put_first (float_arg bytes) (rest more)
unfolding read_float
read_float-four rest (a ∷ b ∷ c ∷ d ∷ []) more h = refl
read_float-four rest [] more h = absurd (omega arith)
read_float-four rest (a ∷ []) more h = absurd (omega arith)
read_float-four rest (a ∷ b ∷ []) more h = absurd (omega arith)
read_float-four rest (a ∷ b ∷ c ∷ []) more h = absurd (omega arith)
read_float-four rest (a ∷ b ∷ c ∷ d ∷ e ∷ bytes) more h = absurd (omega arith)
