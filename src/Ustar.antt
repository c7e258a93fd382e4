-- ===== src/Ustar.antt =====
-- src/kernel/vfs/ustar.c and ustar.h: the files of a ustar archive in memory. Names are C strings;
-- `fuel` bounds each loop. A pointer 0 is NULL.
pub mod Size
use mathlib.Core.Option
use vardar_os.Prelude.{
  leb, ◌&&◌, ◌<◌, Bool, List, Option, [], false, if_null, if◌then◌else◌, int_pattern, ltb, none,
  not, some, sub32, suc, true, u32, zero, ℕ, ◌%◌, ◌*◌, ◌+◌, ◌-◌, ◌/◌, ◌==◌, ◌^◌, ◌∷◌,
}
use vardar_os.Prelude.Int.{is_zero}
use vardar_os.Memory.{Memory, write64}
use vardar_os.Utils.String.{memmove, strcmp, strlen, strncmp}
use vardar_os.Heap.{Heap, kalloc}
use vardar_os.Heap.Realloc.{krealloc}

-- The offsets of the fields of `ustar_entry_t`.
abbrev pub ustar_size : ℕ
ustar_size = 124

abbrev pub ustar_filetype : ℕ
ustar_filetype = 156

abbrev pub ustar_signature : ℕ
ustar_signature = 257

abbrev pub block_size : ℕ
block_size = 512

-- One round of `oct2bin`: `n * 8 + (c - '0')` of the int with the pattern `n`, and of a signed char.
-- Both are counted from -2 ^ 31 on, the second from -2 ^ 31 - 256. An overflow is undefined.
unfoldable pub oct2bin_step : ℕ → ℕ → Option ℕ
oct2bin_step n c =
    let times = 8 * ((n + 2 ^ 31) % 2 ^ 32) in
    let sum = times - (2 ^ 34 - 2 ^ 31) + (if ltb c 128 then c + 208 else c - 48) in
    if leb (2 ^ 34 - 2 ^ 31) times
      && ltb times (2 ^ 34 + 2 ^ 31)
      && leb 256 sum
      && ltb sum (2 ^ 32 + 256)
    then some ((sum - 256 + 2 ^ 31) % 2 ^ 32)
    else none

-- The loop of `oct2bin` over `size` characters from `c`; `n` is the pattern of the int.
unfoldable pub oct2bin_loop : Memory → ℕ → ℕ → ℕ → Option ℕ
oct2bin_loop m c zero n = some n
oct2bin_loop m c (suc size) n = Option.bind (oct2bin_step n (m c)) (oct2bin_loop m (c + 1) size)

unfoldable pub oct2bin : Memory → ℕ → ℕ → Option ℕ
oct2bin m str size = oct2bin_loop m str size 0

-- `struct stivale2_module`: the name's address, and the begin of the module.
pub record Module : Type 0 where
  pub string : ℕ
  pub begin : ℕ

-- `ustar_from_module`.
unfoldable pub ustar_from_module : ℕ → Memory → List Module → ℕ → Option ℕ
ustar_from_module fuel m [] ustar_name = some 0
ustar_from_module fuel m (x ∷ xs) ustar_name =
    if_null none
      (λ order. if is_zero order then some x.begin else ustar_from_module fuel m xs ustar_name)
      (strcmp fuel m x.string ustar_name)

-- The address of the entry after one of `len` bytes: at least one block further on.
unfoldable pub next_entry : ℕ → ℕ → ℕ
next_entry ustar_ptr len =
    let num_blocks = if len % block_size == 0 then len / block_size else len / block_size + 1 in
    ustar_ptr + block_size * (if ltb 0 num_blocks then num_blocks else 1)

-- The size of an entry: an int, converted to a size_t.
unfoldable pub entry_size : Memory → ℕ → Option ℕ
entry_size m ustar_ptr = Option.map int_pattern (oct2bin m (ustar_ptr + ustar_size) 11)

-- What `ustar_read` returns for an entry: one byte after the allocation. `NULL + 1` is 1.
unfoldable pub read_entry : ℕ → Heap → Memory → ℕ → ℕ → Option (ℕ × Memory)
read_entry fuel h m ustar_ptr len =
    Option.map
      (λ (allocation, m1).
        (allocation + 1, memmove m1 (allocation + 1) (ustar_ptr + block_size) len))
      (kalloc fuel h m len)

-- `ustar` is the address of the string "ustar" in the code.
unfoldable pub ustar_read : ℕ → Heap → Memory → ℕ → ℕ → ℕ → Option (ℕ × Memory)
ustar_read zero h m ustar ustar_ptr filename = none
ustar_read (suc fuel) h m ustar ustar_ptr filename =
    if not (is_zero (strncmp m (ustar_ptr + ustar_signature) ustar 5))
    then some (0, m)
    else if_null none
        (λ len.
          if_null none
            (λ name_length.
              let rest = ustar_read fuel h m ustar (next_entry ustar_ptr len) filename in
              if is_zero (strncmp m ustar_ptr filename (name_length + 1))
              then read_entry fuel h m ustar_ptr len
              else rest)
            (strlen fuel m ustar_ptr))
        (entry_size m ustar_ptr)

-- The variables of the loop of `ustar_readdir`.
pub record ReadDir : Type 0 where
  pub memory : Memory
  pub found_dir : Bool
  pub results : ℕ
  pub num_results : ℕ
  pub arr_size : ℕ

-- Storing the entry at `ustar_ptr`: the array grows when the count, before it is increased, is above
-- its size; the entry then goes to the index after the increase.
unfoldable pub add_result : ℕ → Heap → ReadDir → ℕ → Option ReadDir
add_result fuel h r ustar_ptr =
    let grown : Option ReadDir =
      if ltb r.arr_size r.num_results
      then Option.map
          (λ (results, m). record r { memory = m; results = results; arr_size = r.arr_size * 2 })
          (krealloc fuel h r.memory r.results (r.arr_size * 2 * 8))
      else some r in
    if_null none
      (λ g.
        Option.map
          (λ (copy, m).
            let m1 = write64 m (g.results + 8 * (r.num_results + 1)) copy in
            record g { num_results = r.num_results + 1; memory = memmove m1 copy ustar_ptr 512 })
          (kalloc fuel h g.memory 512))
      grown

unfoldable pub readdir_entry : ℕ → Heap → ReadDir → ℕ → ℕ → ℕ → Option ReadDir
readdir_entry fuel h r ustar_ptr dirname name_length =
    if not (is_zero (strncmp r.memory ustar_ptr dirname (name_length + 1)))
    then some r
    else if r.memory (ustar_ptr + ustar_filetype) == 0x35
    then some (record r { found_dir = true })
    else add_result fuel h r ustar_ptr

unfoldable pub readdir_loop : ℕ → Heap → ReadDir → ℕ → ℕ → ℕ → Option ReadDir
readdir_loop zero h r ustar ustar_ptr dirname = none
readdir_loop (suc fuel) h r ustar ustar_ptr dirname =
    if not (is_zero (strncmp r.memory (ustar_ptr + ustar_signature) ustar 5))
    then some r
    else if_null none
        (λ len.
          if_null none
            (λ name_length.
              if_null none (λ r1. readdir_loop fuel h r1 ustar (next_entry ustar_ptr len) dirname)
                (readdir_entry fuel h r ustar_ptr dirname name_length))
            (strlen fuel r.memory dirname))
        (entry_size r.memory ustar_ptr)

unfoldable pub ustar_readdir : ℕ → Heap → Memory → ℕ → ℕ → ℕ → Option (ℕ × Memory)
ustar_readdir fuel h m ustar ustar_ptr dirname =
    if_null none
      (λ (results, m1).
        let start : ReadDir = record {
          memory = m1;
          found_dir = false;
          results = results;
          num_results = 0;
          arr_size = 1;
        } in
        Option.map (λ r. (if r.found_dir then r.results else 0, r.memory))
          (readdir_loop fuel h start ustar ustar_ptr dirname))
      (kalloc fuel h m 8)
