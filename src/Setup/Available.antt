-- ===== src/Setup/Available.antt =====
-- What swtpm_tpm2_get_all_pcr_banks of src/swtpm_setup/swtpm.c makes of a TPM's response.
use swtpm.Common.{
  ℕ, zero, suc, ◌+◌, ◌*◌, ◌≡◌, ◌<◌, ◌≤◌, refl, sym, ap, ◌∙◌, true, false, some, List, [], ◌∷◌, ◌++◌,
  ltb, ge→ltb, length, drop, get_or, get16, be16, be32, u16_mod, be16_value, length-append,
  length-drop, drop-append, drop-add, arith,
}
use swtpm.Setup.{Bytes, Sockets, Link, transfer}
use swtpm.Setup.Banks.{
  bank_name, banks_from, banks_of, banks_answered, pcrs_request, get_all_pcr_banks,
}

-- TPMS_PCR_SELECTION of the TPM 2.0 specification: the hash algorithm and a bitmap of PCRs.
pub record Selection : Type 0 where
  pub alg : ℕ
  pub bitmap : Bytes

abbrev pub selection_bytes : Selection → Bytes
selection_bytes s = be16 s.alg ++ length s.bitmap ∷ s.bitmap

abbrev pub selections_bytes : List Selection → Bytes
selections_bytes [] = []
selections_bytes (s ∷ ss) = selection_bytes s ++ selections_bytes ss

-- A response to TPM2_GetCapability: a header of ten bytes, moreData, TPM_CAP_PCRS, and a
-- TPML_PCR_SELECTION.
abbrev pub capability_response : Bytes → ℕ → List Selection → Bytes
capability_response header more ss =
    header ++ more ∷ (be32 5 ++ (be32 (length ss) ++ selections_bytes ss))

-- every algorithm is one of 16 bits
pub data AlgsFit : List Selection → Type 0 where
  none_left : AlgsFit []
  one_fits : {s : Selection} {ss : List Selection} → s.alg < u16_mod → AlgsFit ss → AlgsFit (s ∷ ss)

-- the algorithms' names
abbrev pub names_of : List Selection → List Bytes
names_of [] = []
names_of (s ∷ ss) = bank_name s.alg ∷ names_of ss

pub get_or-drop : (n k : ℕ) (xs : Bytes) → get_or xs (n + k) 0 ≡ get_or (drop n xs) k 0
get_or-drop zero k xs = ap (λ i. get_or xs i 0) {x = zero + k} {y = k} (omega arith)
get_or-drop (suc n) k [] = refl
get_or-drop (suc n) k (x ∷ xs) =
    ap (λ i. get_or (x ∷ xs) i 0) {x = suc n + k} {y = suc (n + k)} (omega arith)
    ∙ get_or-drop n k xs

pub get16-drop : (n : ℕ) (xs : Bytes) → get16 xs n ≡ get16 (drop n xs) 0
get16-drop n xs =
    ap (λ i. get_or xs i 0 * 256 + get_or xs (n + 1) 0) {x = n} {y = n + 0} (omega arith)
    ∙ (λ i. get_or-drop n 0 xs i * 256 + get_or-drop n 1 xs i)

-- The loop reads what stands at the offset.
banks_from-selections :
    (resp : Bytes) (offset : ℕ) (ss : List Selection)
    → AlgsFit ss
    → drop offset resp ≡ selections_bytes ss
    → offset ≤ length resp
    → banks_from resp (length ss) offset ≡ some (names_of ss)
unfolding banks_from
banks_from-selections resp offset [] fits e h = refl
banks_from-selections resp offset (s ∷ ss) (one_fits alg_fits fits) e h =
    let size = length s.bitmap in
    let whole : length (drop offset resp) ≡ 3 + (size + length (selections_bytes ss)) =
      ap length e ∙ omega (arith, length-append s.bitmap (selections_bytes ss)) in
    let left : offset + 3 + size ≤ length resp = omega (arith, whole, length-drop offset resp) in
    let two : ltb (length resp) (offset + 2) ≡ false = ge→ltb _ _ (omega (arith, left)) in
    let three : ltb (length resp) (offset + 3) ≡ false = ge→ltb _ _ (omega (arith, left)) in
    let alg_is : get16 resp offset ≡ s.alg =
      get16-drop offset resp ∙ ap (λ r. get16 r 0) e ∙ be16_value s.alg alg_fits in
    let size_is : get_or resp (offset + 2) 0 ≡ size =
      get_or-drop offset 2 resp ∙ ap (λ r. get_or r 2 0) e in
    let rest : drop (offset + 3 + size) resp ≡ selections_bytes ss =
      drop-add (offset + 3) size resp
      ∙ ap (drop size) (drop-add offset 3 resp ∙ ap (drop 3) e)
      ∙ drop-append size s.bitmap (selections_bytes ss) refl in
    let next = banks_from-selections resp (offset + 3 + size) ss fits rest left in
    rw (two, three, size_is, next, alg_is) refl

-- Reading a whole response.
pub banks_of-capability_response :
    (header : Bytes) (more : ℕ) (ss : List Selection)
    → length header ≡ 10
    → length ss ≤ 20
    → AlgsFit ss
    → banks_of (capability_response header more ss) ≡ some (names_of ss)
unfolding banks_of
banks_of-capability_response header more ss ten few fits =
    let resp = capability_response header more ss in
    let tail = more ∷ (be32 5 ++ (be32 (length ss) ++ selections_bytes ss)) in
    let behind : drop 10 resp ≡ tail = drop-append 10 header tail (sym ten) in
    let size : length resp ≡ 19 + length (selections_bytes ss) =
      omega (arith, length-append header tail, ten) in
    let long : ltb (length resp) 19 ≡ false = ge→ltb _ _ (omega (arith, size)) in
    let count : get16 resp 17 ≡ length ss =
      get16-drop 17 resp
      ∙ ap (λ r. get16 r 0) (drop-add 10 7 resp ∙ ap (drop 7) behind)
      ∙ be16_value (length ss) (omega (arith, few)) in
    let at_most : ltb 20 (length ss) ≡ false = ge→ltb _ _ few in
    rw (long, count, at_most)
      (banks_from-selections resp 19 ss fits (drop-add 10 9 resp ∙ ap (drop 9) behind)
        (omega (arith, size)))

module _ {W : Type 0} (sockets : Sockets W) where
  -- Where the TPM answers TPM2_GetCapability with at most 20 PCR banks, in a response that fits the buffer, swtpm_tpm2_get_all_pcr_banks
  -- gives the names of just these banks, in their order, whatever the lengths of their bitmaps.
  pub get_all_pcr_banks-Named :
      (l l' : Link W) (header : Bytes) (more : ℕ) (ss : List Selection)
      → length header ≡ 10
      → length ss ≤ 20
      → AlgsFit ss
      → transfer sockets false (pcrs_request sockets) 256 l
        ≡ record { done = true; out = capability_response header more ss; link = l' }
      → get_all_pcr_banks sockets l ≡ (some (names_of ss), l')
  unfolding get_all_pcr_banks banks_answered
  get_all_pcr_banks-Named l l' header more ss ten few fits answer =
      rw (answer, banks_of-capability_response header more ss ten few fits) refl
