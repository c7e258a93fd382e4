-- ===== src/Graphics.antt =====
-- src/kernel/graphics: graphics_types.c, graphics_ctx.c and the record of font.h. The pixels lie in
-- the byte memory, and an operation is `none` where it sets a bit of the dirty rows by an undefined
-- shift.
pub mod Color
pub mod Draw
pub mod Shown
pub mod Flush
pub mod Marks
pub mod Place
pub mod Rect
pub mod Glyph
pub mod Scroll
pub mod Terminal
use mathlib.Core.Option
use vardar_os.Prelude.{
  leb, ltb, ◌&&◌, Option, add64, bit_and, bit_or, if◌then◌else◌, int_pattern, leb, ltb, none, some,
  sub32, suc, u32, u64, u8, zero, ℕ, ◌&&◌, ◌*◌, ◌+◌, ◌-◌, ◌/◌, ◌<<<◌, ◌==◌, ◌>>>◌, ◌^◌,
}
use vardar_os.Memory.{Memory, write32}
use vardar_os.Utils.String.{memmove}
use vardar_os.Utils.Misc.{clear_nth_bit, get_nth_bit, set_nth_bit}

-- `stivale2_struct_tag_framebuffer`, its fields that the code reads.
pub record Framebuffer : Type 0 where
  pub framebuffer_addr : ℕ
  pub framebuffer_width : ℕ
  pub framebuffer_height : ℕ
  pub framebuffer_pitch : ℕ
  pub framebuffer_bpp : ℕ
  pub red_mask_size : ℕ
  pub red_mask_shift : ℕ
  pub green_mask_size : ℕ
  pub green_mask_shift : ℕ
  pub blue_mask_size : ℕ
  pub blue_mask_shift : ℕ

pub record Rgb : Type 0 where
  pub r : ℕ
  pub g : ℕ
  pub b : ℕ

pub record Coordinate : Type 0 where
  pub x : ℕ
  pub y : ℕ

pub record Dimensions : Type 0 where
  pub width : ℕ
  pub height : ℕ

-- `matrix c j` is the `j`-th row of the bitmap of the character `c`.
pub record Font : Type 0 where
  pub matrix : ℕ → ℕ → ℕ
  pub rgb : Rgb
  pub font_height : ℕ
  pub font_width : ℕ

-- `GLOBAL_CTX`, and the memory of the back buffer and of the frame buffer.
pub record Screen : Type 0 where
  pub fb : Framebuffer
  pub dirty_block_str : ℕ
  pub buffer : ℕ
  pub num_rows : ℕ
  pub row_height : ℕ
  pub memory : Memory

-- The macro, on an unsigned shift: `shift >= 0` is 1 and `shift < 0` is 0, and both terms are computed.
-- A shift by 32 or more is undefined.
unfoldable pub abs_right_shift : ℕ → ℕ → Option ℕ
abs_right_shift num shift =
    if ltb shift 32 && ltb (sub32 0 shift) 32
    then some ((num >>> shift) * 1 + (num <<< sub32 0 shift) * 0)
    else none

-- One colour: compressed to the size of its field, masked, and moved to its place. `2 << mask_size` is
-- an `int`.
unfoldable pub pack_color : ℕ → ℕ → ℕ → Option ℕ
pack_color color mask_size mask_shift =
    Option.bind (abs_right_shift color (sub32 8 mask_size)) (λ shifted.
      if ltb mask_size 30 && ltb mask_shift 32
      then some (u32 (bit_and shifted (u32 (sub32 (u32 (2 <<< mask_size)) 1)) <<< mask_shift))
      else none)

unfoldable pub pack_rgb : Rgb → Framebuffer → Option ℕ
pack_rgb c fb =
    if fb.framebuffer_bpp == 32
    then Option.bind (pack_color c.r fb.red_mask_size fb.red_mask_shift) (λ r.
      Option.bind (pack_color c.b fb.blue_mask_size fb.blue_mask_shift) (λ b.
        Option.map (λ g. bit_or (bit_or r g) b)
          (pack_color c.g fb.green_mask_size fb.green_mask_shift)))
    else some 0

-- The pixels of `BACK_BUFFER`.
abbrev pub back_buffer_length : ℕ
back_buffer_length = 4147200

unfoldable pub init_graphics_ctx : Framebuffer → ℕ → Memory → Screen
init_graphics_ctx fb back_buffer m = record {
  fb = fb;
  dirty_block_str = 0;
  buffer = back_buffer;
  num_rows = 64;
  row_height = u8 (fb.framebuffer_height / 64);
  memory = m;
}

-- An `int`.
unfoldable pub pixel_index : Screen → Coordinate → ℕ
pixel_index s c = int_pattern (c.x + c.y * s.fb.framebuffer_width)

-- `GLOBAL_CTX.buffer + index`.
abbrev pub pixel_at : Screen → ℕ → ℕ
pixel_at s index = add64 s.buffer (u64 (index * 4))

-- `count` pixels from the address `dest` on.
unfoldable pub fill_pixels : ℕ → Memory → ℕ → ℕ → Memory
fill_pixels zero m dest packed = m
fill_pixels (suc count) m dest packed = fill_pixels count (write32 m dest packed) (dest + 4) packed

-- `ClearScreen`. It is undefined where it writes past the end of `BACK_BUFFER`.
unfoldable pub clear_screen : Screen → Rgb → Option Screen
clear_screen s c =
    let num_pixels = s.fb.framebuffer_height * s.fb.framebuffer_width in
    if leb num_pixels back_buffer_length
    then Option.map
        (λ packed. record s {
          memory = fill_pixels num_pixels s.memory s.buffer packed;
          dirty_block_str = 2 ^ 64 - 1;
        })
        (pack_rgb c s.fb)
    else none

-- The loop of `WriteBackCell`, with the two indices.
unfoldable pub write_back_rows : ℕ → Screen → Memory → ℕ → ℕ → Memory
write_back_rows zero s m buff_index screen_index = m
write_back_rows (suc rows) s m buff_index screen_index =
    write_back_rows rows s
      (memmove m (s.fb.framebuffer_addr + screen_index) (s.buffer + buff_index * 4)
        (s.fb.framebuffer_width * s.fb.framebuffer_bpp / 8))
      (buff_index + s.fb.framebuffer_width) (screen_index + s.fb.framebuffer_pitch)

unfoldable pub write_back_cell : Screen → ℕ → Option Screen
write_back_cell s cell_ind =
    let m =
      write_back_rows s.row_height s s.memory (cell_ind * s.row_height * s.fb.framebuffer_width)
        (cell_ind * s.row_height * s.fb.framebuffer_pitch) in
    Option.map (λ dirty. record s { memory = m; dirty_block_str = dirty })
      (clear_nth_bit s.dirty_block_str cell_ind)

-- The loop of `WriteBack` from the row `x` on.
unfoldable pub write_back_from : ℕ → Screen → ℕ → Option Screen
write_back_from zero s x = some s
write_back_from (suc rows) s x = Option.bind (get_nth_bit s.dirty_block_str x) (λ bit.
    Option.bind (if bit == 0 then some s else write_back_cell s x)
      (λ t. write_back_from rows t (x + 1)))

unfoldable pub write_back : Screen → Option Screen
write_back s = write_back_from s.num_rows s 0

-- `for(int i = row; i < row + count; ++i) SetNthBit(&dirty_block_str, i)`.
unfoldable pub mark_rows : ℕ → ℕ → ℕ → Option ℕ
mark_rows zero dirty row = some dirty
mark_rows (suc count) dirty row =
    Option.bind (set_nth_bit dirty row) (λ d. mark_rows count d (row + 1))

abbrev pub mark_dirty : Screen → ℕ → ℕ → Memory → Option Screen
mark_dirty s row end m =
    Option.map (λ dirty. record s { memory = m; dirty_block_str = dirty })
      (mark_rows (end - row) s.dirty_block_str row)
