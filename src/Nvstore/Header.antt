-- ===== src/Nvstore/Header.antt =====
-- The header that src/swtpm/swtpm_nvstore.c puts in front of a blob, and takes off.
use swtpm.Common.{
  ℕ, ◌+◌, ◌%◌, ◌≡◌, ◌<◌, ◌≤◌, refl, Bool, List, ◌++◌, u16_mod, u32_mod, get16, get32, be16_value,
  be32_value, length, get_or, drop, arith,
}
use swtpm.Common.Result.{ok, if-eq-ok}
use swtpm.Nvstore.{
  HeaderInfo, header_size, header_version, blob_header, prepend_header, check_header,
}

-- Flags of 16 bits, and a blob below 2 ^ 32 bytes: CheckHeader accepts what PrependHeader has made,
-- with the flags and the version, and the bytes from *dataoffset on are those that were given.
pub check_header-prepend_header :
    (can_alloc : ℕ → Bool) (bytes blob : List ℕ) (flags : ℕ)
    → flags < u16_mod
    → header_size + length bytes < u32_mod
    → prepend_header can_alloc bytes flags ≡ ok blob
    → (check_header blob
        ≡ ok (record { dataoffset = header_size; hdrflags = flags; hdrversion = header_version }))
      × (drop header_size blob ≡ bytes)
unfolding prepend_header check_header blob_header
check_header-prepend_header can_alloc bytes blob flags small fits h =
    let exact : (header_size + length bytes) % u32_mod ≡ header_size + length bytes = omega arith in
    let (alloc, e) = if-eq-ok _ (can_alloc (header_size + length bytes)) _ (rw exact at h) in
    let made : blob_header flags (header_size + length bytes) ++ bytes ≡ blob = ground (arith, e) in
    rw (← made)
      (ground (arith, be16_value flags small, be32_value (header_size + length bytes) fits), refl)

-- What CheckHeader accepts: the blob has a header whose length is that of the blob and whose size is
-- that of the header, and it asks for no version above this one.
pub check_header-Accepted :
    (blob : List ℕ) {info : HeaderInfo}
    → check_header blob ≡ ok info
    → (header_size ≤ length blob)
      × (get32 blob 6 ≡ length blob)
      × (get_or blob 1 0 ≤ header_version)
      × (info.dataoffset ≡ header_size)
      × (info.hdrflags ≡ get16 blob 4)
      × (info.hdrversion ≡ get_or blob 0 0)
unfolding check_header
check_header-Accepted blob {info} h = ground arith
