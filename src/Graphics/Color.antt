-- ===== src/Graphics/Color.antt =====
-- `PackRgb`: the three fields of a pixel.
use vardar_os.Bits.{bit_and_low, bit_or-lt, bit_or_fields}
use vardar_os.Bits.Pow.{pow_add}
use native.Mathlib.Nat.{pow-le-pow_right, mul-lt-mul_of_pos_right, one-le-pow, mod-eq_of_lt}
use vardar_os.Prelude.{
  Option, ap, arith, bit_or, false, inl, inr, ltb, lt→ltb, none, refl, some, sub32, sym, u32, ℕ,
  ◌%◌, ◌&&◌, ◌*◌, ◌+◌, ◌-◌, ◌<<<◌, ◌<◌, ◌>>>◌, ◌^◌, ◌∙◌, ◌≡◌, ◌≢◌, ◌≤◌, ◌⊎◌,
}
use vardar_os.Graphics.{Framebuffer, Rgb, abs_right_shift, pack_color, pack_rgb}
use mathlib.Core.Option

-- Fields of 8 bits, as `ABS_RIGHT_SHIFT` needs them.
pub record IsEightBit (fb : Framebuffer) : Type 0 where
  pub red : fb.red_mask_size ≡ 8
  pub green : fb.green_mask_size ≡ 8
  pub blue : fb.blue_mask_size ≡ 8
  pub red_at : fb.red_mask_shift < 32
  pub green_at : fb.green_mask_shift < 32
  pub blue_at : fb.blue_mask_shift < 32

abbrev packed_color : ℕ → ℕ → ℕ
packed_color color shift = u32 ((color % 512) <<< shift)

-- A colour as a pixel.
unfoldable pub packed_rgb : Rgb → Framebuffer → ℕ
packed_rgb c fb =
    bit_or (bit_or (packed_color c.r fb.red_mask_shift) (packed_color c.g fb.green_mask_shift))
      (packed_color c.b fb.blue_mask_shift)

pub packed_rgb-lt : (c : Rgb) (fb : Framebuffer) → packed_rgb c fb < 2 ^ 32
unfolding packed_rgb
packed_rgb-lt c fb = bit_or-lt 32 _ _ (bit_or-lt 32 _ _ (omega arith) (omega arith)) (omega arith)

pack_color_lem :
    (color size shift : ℕ)
    → size ≡ 8
    → shift < 32
    → pack_color color size shift ≡ some (packed_color color shift)
unfolding pack_color abs_right_shift Option.bind
pack_color_lem color size shift eight lt =
    let below = lt→ltb shift 32 lt in
    let whole : (color >>> 0) * 1 + (color <<< 0) * 0 ≡ color = omega arith in
    rw (eight, below, whole) (ap (λ (t : ℕ). some (t * 2 ^ shift % 2 ^ 32)) (bit_and_low 9 color))

-- `PackRgb` on fields of 8 bits.
pub pack_rgb_lem :
    (c : Rgb) (fb : Framebuffer)
    → fb.framebuffer_bpp ≡ 32
    → IsEightBit fb
    → pack_rgb c fb ≡ some (packed_rgb c fb)
unfolding pack_rgb packed_rgb Option.bind
pack_rgb_lem c fb deep e =
    rw
      (
        deep,
        pack_color_lem c.r fb.red_mask_size fb.red_mask_shift e.red e.red_at,
        pack_color_lem c.b fb.blue_mask_size fb.blue_mask_shift e.blue e.blue_at,
        pack_color_lem c.g fb.green_mask_size fb.green_mask_shift e.green e.green_at,
      )
      refl

field-lt : (v size shift w : ℕ) → v < 2 ^ size → shift + size ≤ w → v * 2 ^ shift < 2 ^ w
field-lt v size shift w lt fits =
    let top : 2 ^ size * 2 ^ shift ≡ 2 ^ (size + shift) = sym (pow_add 2 size shift) in
    let le : 2 ^ (size + shift) ≤ 2 ^ w =
      pow-le-pow_right {n = 2} (omega arith) (omega (arith, fits)) in
    omega (
      arith,
      top,
      le,
      mul-lt-mul_of_pos_right {m = v} {n = 2 ^ size} {k = 2 ^ shift} lt
          (one-le-pow shift 2 (omega arith)),
    )

-- Three numbers in fields that do not meet, the lowest last.
or_fields :
    (u v w size_v size_w i j k : ℕ)
    → v < 2 ^ size_v
    → w < 2 ^ size_w
    → j + size_v ≤ i
    → k + size_w ≤ j
    → bit_or (bit_or (u * 2 ^ i) (v * 2 ^ j)) (w * 2 ^ k) ≡ u * 2 ^ i + v * 2 ^ j + w * 2 ^ k
or_fields u v w size_v size_w i j k lt_v lt_w above below =
    let split : 2 ^ i ≡ 2 ^ (i - j) * 2 ^ j =
      ap (λ (t : ℕ). 2 ^ t) (omega (arith, above)) ∙ pow_add 2 (i - j) j in
    let upper = bit_or_fields i u (v * 2 ^ j) (field-lt v size_v j i lt_v above) in
    let joined : u * 2 ^ i + v * 2 ^ j ≡ (u * 2 ^ (i - j) + v) <<< j =
      omega (arith, ap (λ (t : ℕ). u * t) split) in
    ap (λ t. bit_or t (w * 2 ^ k)) (upper ∙ joined)
    ∙ bit_or_fields j (u * 2 ^ (i - j) + v) (w * 2 ^ k) (field-lt w size_w k j lt_w below)
    ∙ ap (λ (t : ℕ). t + w * 2 ^ k) (sym joined)

-- On a frame buffer of 32 bits per pixel, whose three fields have 8 bits, do not meet, and stand with red
-- above green above blue, `PackRgb` is the sum of the three colours, each at the place of its field.
pub pack_rgb-fields :
    (c : Rgb) (fb : Framebuffer)
    → fb.framebuffer_bpp ≡ 32
    → IsEightBit fb
    → c.r < 256
    → c.g < 256
    → c.b < 256
    → fb.red_mask_shift + 8 ≤ 32
    → fb.green_mask_shift + 8 ≤ fb.red_mask_shift
    → fb.blue_mask_shift + 8 ≤ fb.green_mask_shift
    → pack_rgb c fb
      ≡ some (
          c.r * 2 ^ fb.red_mask_shift
          + c.g * 2 ^ fb.green_mask_shift
          + c.b * 2 ^ fb.blue_mask_shift)
unfolding packed_rgb
pack_rgb-fields c fb deep e r g b top middle low =
    let at = λ (v shift : ℕ) (lt : v < 256) (fits : shift + 8 ≤ 32).
      let small : v % 512 ≡ v = omega (arith, lt) in
      ap (λ (t : ℕ). t * 2 ^ shift % 2 ^ 32) small ∙ mod-eq_of_lt (field-lt v 8 shift 32 lt fits) in
    pack_rgb_lem c fb deep e
    ∙ ap some (
        rw
          (
            at c.r fb.red_mask_shift r top,
            at c.g fb.green_mask_shift g (omega (arith, middle, top)),
            at c.b fb.blue_mask_shift b (omega (arith, low, middle, top)),
          )
          (or_fields c.r c.g c.b 8 8 fb.red_mask_shift fb.green_mask_shift fb.blue_mask_shift g b
            middle low))

pack_color-undefined :
    (color size shift : ℕ) → size < 256 → size ≢ 8 → pack_color color size shift ≡ none
unfolding pack_color abs_right_shift Option.bind
pack_color-undefined color size shift lt ne =
    let out : (ltb (sub32 8 size) 32 && ltb (sub32 0 (sub32 8 size)) 32) ≡ false =
      ground (arith, lt, ne) in
    rw out refl

bind_all : (o : Option ℕ) (k : ℕ → Option ℕ) → ((x : ℕ) → k x ≡ none) → Option.bind o k ≡ none
unfolding Option.bind
bind_all none k all = refl
bind_all (some x) k all = all x

-- `PackRgb` is undefined on a frame buffer of 32 bits per pixel with a field that has not 8 bits.
pub pack_rgb-undefined :
    (c : Rgb) (fb : Framebuffer)
    → fb.framebuffer_bpp ≡ 32
    → fb.red_mask_size < 256
    → fb.green_mask_size < 256
    → fb.blue_mask_size < 256
    → (fb.red_mask_size ≢ 8) ⊎ ((fb.green_mask_size ≢ 8) ⊎ (fb.blue_mask_size ≢ 8))
    → pack_rgb c fb ≡ none
unfolding pack_rgb Option.bind
pack_rgb-undefined c fb deep red green blue other = elim other [
  | inl r ↦ rw (deep, pack_color-undefined c.r fb.red_mask_size fb.red_mask_shift red r) refl
  | inr (inl g) ↦
      rw (deep, pack_color-undefined c.g fb.green_mask_size fb.green_mask_shift green g)
        (bind_all (pack_color c.r fb.red_mask_size fb.red_mask_shift)
          (λ r.
            Option.bind (pack_color c.b fb.blue_mask_size fb.blue_mask_shift)
              (λ b. Option.map (λ (g : ℕ). bit_or (bit_or r g) b) none))
          (λ r.
            bind_all (pack_color c.b fb.blue_mask_size fb.blue_mask_shift)
              (λ b. Option.map (λ (g : ℕ). bit_or (bit_or r g) b) none) (λ b. refl)))
  | inr (inr b) ↦
      rw (deep, pack_color-undefined c.b fb.blue_mask_size fb.blue_mask_shift blue b)
        (bind_all (pack_color c.r fb.red_mask_size fb.red_mask_shift) (λ r. none) (λ r. refl))
]
