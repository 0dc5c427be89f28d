-- ===== src/Datagram/RoundTrip.antt =====
-- A message that `osc_datagram` encodes is read back whole.
use softcut_py.Base.{
  ℕ, ◌≡◌, ◌≢◌, refl, sym, subst, ◌∙◌, ap, arith, some, List, [], ◌∷◌, ◌++◌, map, length, String,
}
use softcut_py.Base.Exec.{Result, ok, err, and_then-eq-ok, ok-injective}
use softcut_py.Platform.{Platform}
use softcut_py.Osc
use softcut_py.Datagram.{pad, pack_int, encode_arg, encode_args, osc_datagram}
use softcut_py.Datagram.Decode.{
  Read, number_arg, float_arg, text_arg, put_first, with_address, read_args, read_tagged, decode,
  NoZero, text_of-pad, after_text-pad, read_number-pack_int, read_text-pad, read_float-four,
}

module _ (p : Platform) where
  open p use {F, utf8, pack_float}

  abbrev pub bytes_of : Result (List ℕ) → List ℕ
  bytes_of (ok bytes) = bytes
  bytes_of (err e) = []

  -- An argument as a reader shows it.
  abbrev pub shown : Osc.Arg p → Read
  shown (Osc.int i) = number_arg i
  shown (Osc.float x) = float_arg (bytes_of (pack_float x))
  shown (Osc.str s) = text_arg (utf8 s)
  shown (Osc.boolean b) = text_arg []

  -- The texts among the arguments have no zero byte.
  abbrev pub TextsNoZero : List (Osc.Arg p) → Type 0
  TextsNoZero [] = Unit
  TextsNoZero (Osc.str s ∷ args) = NoZero (utf8 s) × TextsNoZero args
  TextsNoZero (_ ∷ args) = TextsNoZero args

  -- What is left to show of one argument: its tag is no zero, and its bytes are read as it.
  Reads : Osc.Arg p → ℕ → List ℕ → Type 0
  Reads a tag bytes =
      (tag ≢ 0)
      × ((tags more : List ℕ)
          → read_args (tag ∷ tags) (bytes ++ more) ≡ put_first (shown a) (read_args tags more))

  module _ (four : (x : F) (bytes : List ℕ) → pack_float x ≡ ok bytes → length bytes ≡ 4) where
    encode_arg-Reads :
        (a : Osc.Arg p) (args : List (Osc.Arg p)) {encoded : ℕ × List ℕ}
        → TextsNoZero (a ∷ args)
        → encode_arg p a ≡ ok encoded
        → Reads a encoded.0 encoded.1
    unfolding encode_arg Reads read_args
    encode_arg-Reads (Osc.boolean b) args texts h = cc
    encode_arg-Reads (Osc.int i) args {encoded} texts h =
        let (bytes, packed, e) = and_then-eq-ok (pack_int i) _ h in
        let same = ok-injective (b'i', bytes) encoded e in
        subst (λ (r : ℕ × List ℕ). Reads (Osc.int i) r.0 r.1) same
          (
            (λ z. omega (arith, z)),
            λ tags more. read_number-pack_int (read_args tags) i more packed,
          )
    encode_arg-Reads (Osc.float x) args {encoded} texts h =
        let (bytes, packed, e) = and_then-eq-ok (pack_float x) _ h in
        let same = ok-injective (b'f', bytes) encoded e in
        let back : bytes_of (pack_float x) ≡ bytes = ap bytes_of packed in
        subst (λ (r : ℕ × List ℕ). Reads (Osc.float x) r.0 r.1) same
          (
            (λ z. omega (arith, z)),
            λ tags more.
                read_float-four (read_args tags) bytes more (four x bytes packed)
                ∙ ap (λ bs. put_first (float_arg bs) (read_args tags more)) (sym back),
          )
    encode_arg-Reads (Osc.str s) args {encoded} (text, _) h =
        let same = ok-injective (b's', pad (utf8 s)) encoded h in
        subst (λ (r : ℕ × List ℕ). Reads (Osc.str s) r.0 r.1) same
          ((λ z. omega (arith, z)), λ tags more. read_text-pad (read_args tags) (utf8 s) more text)

    encode_args-reads :
        (args : List (Osc.Arg p)) {encoded : List ℕ × List ℕ}
        → TextsNoZero args
        → encode_args p args ≡ ok encoded
        → NoZero encoded.0 × (read_args encoded.0 encoded.1 ≡ some (map shown args))
    unfolding encode_args read_args Reads
    encode_args-reads [] {encoded} texts h =
        subst (λ (r : List ℕ × List ℕ). NoZero r.0 × (read_args r.0 r.1 ≡ some []))
          (ok-injective ([], []) encoded h) (tt, refl)
    encode_args-reads (a ∷ args) {encoded} texts h =
        let (first, e1, h1) = and_then-eq-ok (encode_arg p a) _ h in
        let (rest, e2, h2) = and_then-eq-ok (encode_args p args) _ h1 in
        let (no_zero, reads) = encode_arg-Reads a args texts e1 in
        let (no_zeros, later) = encode_args-reads args (later_texts a args texts) e2 in
        subst
          (λ (r : List ℕ × List ℕ). NoZero r.0 × (read_args r.0 r.1 ≡ some (map shown (a ∷ args))))
          (ok-injective (first.0 ∷ rest.0, first.1 ++ rest.1) encoded h2)
          ((no_zero, no_zeros), reads rest.0 rest.1 ∙ ap (put_first (shown a)) later)
      where
        later_texts :
            (a : Osc.Arg p) (args : List (Osc.Arg p)) → TextsNoZero (a ∷ args) → TextsNoZero args
        later_texts (Osc.str s) args (_, texts) = texts
        later_texts (Osc.int i) args texts = texts
        later_texts (Osc.float x) args texts = texts
        later_texts (Osc.boolean b) args texts = texts

    -- A message that is encoded at all is read back whole from its bytes, with nothing left over: the
    -- same address, each integer as it was, each float as its four bytes, each text as it was. This
    -- asks that a packed float has four bytes, and that neither the address nor a text argument
    -- has a zero byte.
    pub decode-osc_datagram :
        (address : String) (args : List (Osc.Arg p)) {bytes : List ℕ}
        → NoZero (utf8 address)
        → TextsNoZero args
        → osc_datagram p address args ≡ ok bytes
        → decode bytes ≡ some (utf8 address, map shown args)
    unfolding osc_datagram decode read_tagged
    decode-osc_datagram address args {bytes} clean texts h =
        let (encoded, e, h1) = and_then-eq-ok (encode_args p args) _ h in
        let (no_zeros, reads) = encode_args-reads args texts e in
        let name = utf8 address in
        let tags = b',' ∷ encoded.0 in
        let more = pad tags ++ encoded.1 in
        let tags_clean : NoZero tags = ((λ z. omega (arith, z)), no_zeros) in
        subst (λ (bs : List ℕ). decode bs ≡ some (name, map shown args))
          (ok-injective (pad name ++ more) bytes h1)
          (rw
            (
              text_of-pad name more clean,
              after_text-pad name more,
              text_of-pad tags encoded.1 tags_clean,
              after_text-pad tags encoded.1,
            )
            (ap (with_address name) reads))
