-- ===== src/Norns/Shape/Regions.antt =====
-- The buffer and disk operations keep the layout of the host.
use softcut_py.Base.{
  ℕ, zero, suc, ◌≡◌, refl, ◌∙◌, ap, String, Option, some, List, [], ◌∷◌, map, length, set, get_or,
  get_elem?, Bool,
}
use softcut_py.Base.Int.{ℤ, negsuc, int_eq}
use softcut_py.Base.Exec.{Exec, Result, ok, err, modify, ◌>>=◌, resume, or_raise}
use softcut_py.Base.Exec.Keeps.{
  Keeps, Keeps-if, Keeps-bind, Keeps-lift, Keeps-gets, Keeps-for_each, Keeps-pure,
}
use softcut_py.Platform.{Platform}
use softcut_py.Buffers.{buffer_apply}
use softcut_py.Buffers.Region.{length-buffer_apply}
use softcut_py.Engine.Shape
use softcut_py.Wav.{Disk}
use softcut_py.Norns.{Host}
use softcut_py.Norns.Regions.{
  on_disk, samples_or, frames_of, array_of, samples_at, store_array, apply_at, apply,
  buffer_read_mono, buffer_read_stereo, segment, buffer_write_mono, buffer_write_stereo,
  clear_count, clear_region, buffer_clear_channel, buffer_clear, buffer_clear_region,
  buffer_clear_region_channel, buffer_copy_mono, buffer_copy_stereo,
}
use softcut_py.Norns.Shape.{Layout, layout, HasLayout}

-- Storing a list of the same length keeps the lengths.
map-length-set {ℓ} :
    {A : Type ℓ} (xss : List (List A)) (i : ℕ) (xs : List A)
    → length xs ≡ length (get_or xss i [])
    → map length (set xss i xs) ≡ map length xss
map-length-set [] i xs h = refl
map-length-set (ys ∷ xss) zero xs h = ap (λ (n : ℕ). n ∷ map length xss) h
map-length-set (ys ∷ xss) (suc i) xs h =
    ap (λ (ns : List ℕ). length ys ∷ ns) (map-length-set xss i xs h)

module _ (p : Platform) where
  open p use {F, S, narrow}

  samples_at-eq : (a : ℕ) (h : Host p) → samples_at p a h ≡ get_or h.engine.arrays a []
  samples_at-eq a h = from_list h.engine.arrays a
    where
      from_list : (xss : List (List S)) (i : ℕ) → samples_or p (get_elem? xss i) ≡ get_or xss i []
      from_list [] i = refl
      from_list (xs ∷ xss) zero = refl
      from_list (xs ∷ xss) (suc i) = from_list xss i

  layout-store_array :
      (a : ℕ) (xs : List S) (h : Host p)
      → length xs ≡ length (samples_at p a h)
      → layout p (store_array p a xs h) ≡ layout p h
  unfolding Shape.shape
  layout-store_array a xs h e =
      ap
        (λ (ns : List ℕ). record {
          shape = record {
            voice_count = length h.engine.voices;
            gain_count = length h.engine.fb;
            array_lengths = ns;
          };
          buf = h.buf;
          voices = h.voices;
          sample_rate = h.sample_rate;
        })
        (map-length-set h.engine.arrays a xs (e ∙ ap length (samples_at-eq a h)))

  module _ {l : Layout F} where
    on_disk-HasLayout : {A : Type 0} (m : Exec Disk A) → Keeps (HasLayout p l) (on_disk p m)
    on_disk-HasLayout m = record { at = λ h k. record { same = k.same } }

    frames_of-HasLayout : (x : F) → Keeps (HasLayout p l) (frames_of p x)
    frames_of-HasLayout x = record { at = λ h k. k }

    array_of-HasLayout : (b : ℤ) → Keeps (HasLayout p l) (array_of p b)
    unfolding array_of or_raise
    array_of-HasLayout b = record { at = λ h k. k }

    apply_at-HasLayout :
        (a : ℕ) (start : ℤ) (src : Option (List S)) (preserve mix : F) (fade count : ℤ)
        → Keeps (HasLayout p l) (apply_at p a start src preserve mix fade count)
    unfolding apply_at ◌>>=◌
    apply_at-HasLayout a start src preserve mix fade count = record {
      at = λ h k.
          by_result h
            (buffer_apply p (samples_at p a h) start src (narrow preserve) (narrow mix) fade count)
            (λ xs e. length-buffer_apply p (samples_at p a h) start src _ _ fade count e) k;
    }
      where
        by_result :
            (h : Host p) (r : Result (List S))
            → ((xs : List S) → r ≡ ok xs → length xs ≡ length (samples_at p a h))
            → HasLayout p l h
            → HasLayout p l (resume r (λ xs. modify (store_array p a xs)) h).1
        by_result h (ok xs) same k = record {
          same = layout-store_array a xs h (same xs refl) ∙ k.same;
        }
        by_result h (err e) same k = k

    apply-HasLayout :
        (a : ℕ) (start : ℤ) (src : List S) (preserve mix : F) (fade : ℤ)
        → Keeps (HasLayout p l) (apply p a start src preserve mix fade)
    unfolding apply
    apply-HasLayout a start src preserve mix fade =
        apply_at-HasLayout a start (some src) preserve mix fade (negsuc 0)

    segment-HasLayout :
        (xs : List S) (s0 : ℤ) (dur : F) → Keeps (HasLayout p l) (segment p xs s0 dur)
    unfolding segment
    segment-HasLayout xs s0 dur =
        Keeps-if _ _ _ (Keeps-pure _) (Keeps-bind _ _ (frames_of-HasLayout dur) (λ n. Keeps-pure _))

    clear_count-HasLayout :
        (n : ℕ) (s0 : ℤ) (dur : F) → Keeps (HasLayout p l) (clear_count p n s0 dur)
    unfolding clear_count
    clear_count-HasLayout n s0 dur = Keeps-if _ _ _ (Keeps-pure _) (frames_of-HasLayout dur)

    ruleset region_rules = (
      Keeps-pure, Keeps-lift, Keeps-gets, Keeps-bind, Keeps-for_each, on_disk-HasLayout,
      frames_of-HasLayout, array_of-HasLayout, apply_at-HasLayout, apply-HasLayout,
      segment-HasLayout, clear_count-HasLayout,
    )

    pub buffer_read_mono-HasLayout :
        (file : String) (start_src start_dst dur : F) (ch_src ch_dst : ℤ) (preserve mix : F)
        → Keeps
            (HasLayout p l)
            (buffer_read_mono p file start_src start_dst dur ch_src ch_dst preserve mix)
    unfolding buffer_read_mono
    buffer_read_mono-HasLayout file start_src start_dst dur ch_src ch_dst preserve mix =
        search region_rules depth 20

    pub buffer_read_stereo-HasLayout :
        (file : String) (start_src start_dst dur preserve mix : F)
        → Keeps (HasLayout p l) (buffer_read_stereo p file start_src start_dst dur preserve mix)
    unfolding buffer_read_stereo
    buffer_read_stereo-HasLayout file start_src start_dst dur preserve mix =
        search region_rules depth 20

    pub buffer_write_mono-HasLayout :
        (file : String) (first dur : F) (ch : ℤ)
        → Keeps (HasLayout p l) (buffer_write_mono p file first dur ch)
    unfolding buffer_write_mono
    buffer_write_mono-HasLayout file first dur ch = search region_rules depth 20

    pub buffer_write_stereo-HasLayout :
        (file : String) (first dur : F)
        → Keeps (HasLayout p l) (buffer_write_stereo p file first dur)
    unfolding buffer_write_stereo
    buffer_write_stereo-HasLayout file first dur = search region_rules depth 30

    pub clear_region-HasLayout :
        (ch : ℤ) (first dur fade_time preserve : F)
        → Keeps (HasLayout p l) (clear_region p ch first dur fade_time preserve)
    unfolding clear_region
    clear_region-HasLayout ch first dur fade_time preserve = search region_rules depth 20

    pub buffer_clear_channel-HasLayout :
        (ch : ℤ) → Keeps (HasLayout p l) (buffer_clear_channel p ch)
    unfolding buffer_clear_channel
    buffer_clear_channel-HasLayout ch = clear_region-HasLayout ch _ _ _ _

    pub buffer_clear-HasLayout : Keeps (HasLayout p l) (buffer_clear p)
    unfolding buffer_clear
    buffer_clear-HasLayout = Keeps-for_each _ _ buffer_clear_channel-HasLayout

    pub buffer_clear_region-HasLayout :
        (first dur fade_time preserve : F)
        → Keeps (HasLayout p l) (buffer_clear_region p first dur fade_time preserve)
    unfolding buffer_clear_region
    buffer_clear_region-HasLayout first dur fade_time preserve =
        Keeps-for_each _ _ (λ b. clear_region-HasLayout b first dur fade_time preserve)

    pub buffer_clear_region_channel-HasLayout :
        (ch : ℤ) (first dur fade_time preserve : F)
        → Keeps (HasLayout p l) (buffer_clear_region_channel p ch first dur fade_time preserve)
    unfolding buffer_clear_region_channel
    buffer_clear_region_channel-HasLayout = clear_region-HasLayout

    pub buffer_copy_mono-HasLayout :
        (src_ch dst_ch : ℤ) (start_src start_dst dur fade_time preserve : F) (backwards : Bool)
        → Keeps
            (HasLayout p l)
            (buffer_copy_mono p src_ch dst_ch start_src start_dst dur fade_time preserve backwards)
    unfolding buffer_copy_mono
    buffer_copy_mono-HasLayout src_ch dst_ch start_src start_dst dur fade_time preserve backwards =
        search region_rules depth 20

    -- Copying within and between the two buffers keeps the layout too.
    pub buffer_copy_stereo-HasLayout :
        (start_src start_dst dur fade_time preserve : F) (backwards : Bool)
        → Keeps
            (HasLayout p l)
            (buffer_copy_stereo p start_src start_dst dur fade_time preserve backwards)
    unfolding buffer_copy_stereo
    buffer_copy_stereo-HasLayout start_src start_dst dur fade_time preserve backwards =
        Keeps-for_each _ _
          λ b. buffer_copy_mono-HasLayout b b start_src start_dst dur fade_time preserve backwards
