-- ===== src/Linear/FileStore.antt =====
-- Flushing a mapped file: SWTPM_NVRAM_LinearFile_Flush of src/swtpm/swtpm_nvstore_linear_file.c. The
-- rest of that file is calls of the system.
use Prim.Native.Nat.{bit_and}
use native.Mathlib.Nat.{div-add-mod', mod-lt}
use swtpm.Common.{
  ℕ, ◌+◌, ◌-◌, ◌*◌, ◌/◌, ◌%◌, ◌^◌, ◌≤◌, ◌<◌, ◌≡◌, refl, Bool, true, false, Option, none, some, ◌==◌,
  leb, u32_mod, if◌then◌else◌, arith,
}
use swtpm.Common.Bits.{pow_pos, high_digits}
use swtpm.Common.Result.{Rc, success, error, fail}

-- x & ~(pagesize - 1), of numbers of 32 bits
unfoldable pub page_down : ℕ → ℕ → ℕ
page_down pagesize x = bit_and x (u32_mod - pagesize)

-- the offset and the count that msync is given; `none` where the count overflows
unfoldable pub msync_range : ℕ → ℕ → ℕ → Option (ℕ × ℕ)
msync_range pagesize offset count =
    if leb u32_mod (count + (pagesize - 1))
    then none
    else some (page_down pagesize offset, page_down pagesize (count + (pagesize - 1)))

module _ {W : Type 0} (msync : ℕ → ℕ → W → Bool × W) where
  -- msync's code; `true` is 0
  unfoldable pub synced : Bool × W → Rc × W
  synced (true, w) = (success, w)
  synced (false, w) = (error fail, w)

  unfoldable pub flush_pages : Option (ℕ × ℕ) → W → Rc × W
  flush_pages none w = (error fail, w)
  flush_pages (some (offset, count)) w = synced (msync offset count w)

  -- sysconf(_SC_PAGESIZE), `none` for a negative number
  unfoldable pub flush_by : Option ℕ → ℕ → ℕ → W → Rc × W
  flush_by none offset count w = (error fail, w)
  flush_by (some n) offset count w =
      if n == 0
      then (error fail, w)
      else if leb u32_mod n
      then (error fail, w)
      else flush_pages (msync_range n offset count) w

  -- SWTPM_NVRAM_LinearFile_Flush, by whether the file is mapped
  unfoldable pub flush_file : Bool → Option ℕ → ℕ → ℕ → W → Rc × W
  flush_file false page offset count w = (error fail, w)
  flush_file true page offset count w = flush_by page offset count w

-- The pages of a range: whole pages, as few as hold the count, that start at or before the offset.
pub record ArePages (pagesize offset count start size : ℕ) : Type 0 where
  pub whole_start : start ≡ offset / pagesize * pagesize
  pub starts_before : start ≤ offset
  pub near : offset < start + pagesize
  pub pages : ℕ
  pub whole_pages : size ≡ pages * pagesize
  pub enough_pages : count ≤ size
  pub no_page_more : size < count + pagesize
  pub reaches : offset % pagesize + count ≤ size → offset + count ≤ start + size
  pub misses : size < offset % pagesize + count → start + size < offset + count

page_down-pages : (k x : ℕ) → k ≤ 32 → x < u32_mod → page_down (2 ^ k) x ≡ x / 2 ^ k * 2 ^ k
unfolding page_down
page_down-pages k x h small = high_digits 32 k x h small

pages-ArePages :
    (p offset count : ℕ)
    → 0 < p
    → ArePages p offset count (offset / p * p) ((count + (p - 1)) / p * p)
pages-ArePages p offset count pos =
    let o = div-add-mod' offset p in
    let o_mod = mod-lt offset pos in
    let c = div-add-mod' (count + (p - 1)) p in
    let c_mod = mod-lt (count + (p - 1)) pos in
    record {
      whole_start = refl;
      starts_before = omega (arith, o, o_mod);
      near = omega (arith, o, o_mod);
      pages = (count + (p - 1)) / p;
      whole_pages = refl;
      enough_pages = omega (arith, c, c_mod);
      no_page_more = omega (arith, c, c_mod, pos);
      reaches = λ within. omega (arith, o, within);
      misses = λ beyond. omega (arith, o, beyond);
    }

-- The pages that SWTPM_NVRAM_LinearFile_Flush passes to msync, for a page size 2 ^ k of 32 bits and an offset
-- of 32 bits, if the count does not overflow: they start at or before the offset, less than a page before it, and are
-- the least whole number of pages that has as many bytes as asked for. They contain every byte that was
-- asked for exactly where what the offset is into its page and the count do not pass the rounded count.
pub msync_range-ArePages :
    (k offset count : ℕ)
    → k < 32
    → offset < u32_mod
    → count + (2 ^ k - 1) < u32_mod
    → (start : ℕ) × (size : ℕ) × (msync_range (2 ^ k) offset count ≡ some (start, size))
      × ArePages (2 ^ k) offset count start size
unfolding msync_range
msync_range-ArePages k offset count h small fits =
    let room : leb u32_mod (count + (2 ^ k - 1)) ≡ false = ground arith in
    let start = page_down-pages k offset (omega arith) small in
    let size = page_down-pages k (count + (2 ^ k - 1)) (omega arith) fits in
    (
      offset / 2 ^ k * 2 ^ k,
      (count + (2 ^ k - 1)) / 2 ^ k * 2 ^ k,
      rw (room, start, size) refl,
      pages-ArePages (2 ^ k) offset count (pow_pos k),
    )
