-- ===== src/Setup/Banks.antt =====
-- The PCR banks in src/swtpm_setup/swtpm.c: which there are, and which are to be active. A name is the
-- list of its bytes.
use swtpm.Common.{
  ℕ, zero, suc, ◌+◌, ◌/◌, ◌%◌, Bool, true, false, ◌||◌, Option, none, some, List, [], ◌∷◌, ◌++◌,
  ◌==◌, ltb, if◌then◌else◌, length, get_or, get16, be16, be32,
}
use mathlib.Core.Option as Option
use swtpm.Nvstore.Crypt.{bytes_eq}
use swtpm.Setup.{
  Bytes, Sockets, Link, Outcome, request, authblock, authblock_size, transfer, command,
  st_no_sessions, st_sessions, cc_getcapability, cc_pcr_allocate, rh_platform, rs_pw,
}

-- banks_to_names: sha1, sha256, sha384, sha512, sm3-256, sha3-256, sha3-384, sha3-512
abbrev pub banks_to_names : List (ℕ × Bytes)
banks_to_names =
    (0x4, 115 ∷ 104 ∷ 97 ∷ 49 ∷ [])
    ∷ (0xb, 115 ∷ 104 ∷ 97 ∷ 50 ∷ 53 ∷ 54 ∷ [])
    ∷ (0xc, 115 ∷ 104 ∷ 97 ∷ 51 ∷ 56 ∷ 52 ∷ [])
    ∷ (0xd, 115 ∷ 104 ∷ 97 ∷ 53 ∷ 49 ∷ 50 ∷ [])
    ∷ (0x12, 115 ∷ 109 ∷ 51 ∷ 45 ∷ 50 ∷ 53 ∷ 54 ∷ [])
    ∷ (0x27, 115 ∷ 104 ∷ 97 ∷ 51 ∷ 45 ∷ 50 ∷ 53 ∷ 54 ∷ [])
    ∷ (0x28, 115 ∷ 104 ∷ 97 ∷ 51 ∷ 45 ∷ 51 ∷ 56 ∷ 52 ∷ [])
    ∷ (0x29, 115 ∷ 104 ∷ 97 ∷ 51 ∷ 45 ∷ 53 ∷ 49 ∷ 50 ∷ [])
    ∷ []

unfoldable pub name_in : List (ℕ × Bytes) → ℕ → Option Bytes
name_in [] alg = none
name_in ((a, name) ∷ rest) alg = if a == alg then some name else name_in rest alg

-- get_name_for_bank
unfoldable pub get_name_for_bank : ℕ → Option Bytes
unfolding name_in
get_name_for_bank alg = name_in banks_to_names alg

unfoldable pub alg_in : List (ℕ × Bytes) → Bytes → ℕ
alg_in [] name = 0
alg_in ((a, n) ∷ rest) name = if bytes_eq n name then a else alg_in rest name

-- get_hashalg_by_bankname
unfoldable pub get_hashalg_by_bankname : Bytes → ℕ
unfolding alg_in
get_hashalg_by_bankname name = alg_in banks_to_names name

-- a digit of %x
abbrev hex_digit : ℕ → ℕ
hex_digit d = if ltb d 10 then 48 + d else 87 + d

-- "%02x" of a uint16_t
unfoldable pub hex_of : ℕ → Bytes
hex_of x =
    let low = hex_digit (x / 16 % 16) ∷ hex_digit (x % 16) ∷ [] in
    if ltb x 256
    then low
    else if ltb x 4096
    then hex_digit (x / 256) ∷ low
    else hex_digit (x / 4096) ∷ hex_digit (x / 256 % 16) ∷ low

abbrev pub name_or_hex : ℕ → Option Bytes → Bytes
name_or_hex alg none = hex_of alg
name_or_hex alg (some name) = name

-- the name of a bank
unfoldable pub bank_name : ℕ → Bytes
bank_name alg = name_or_hex alg (get_name_for_bank alg)

-- the loop over the banks of a response; `none` is a response that is too short
unfoldable pub banks_from : Bytes → ℕ → ℕ → Option (List Bytes)
banks_from resp zero offset = some []
banks_from resp (suc count) offset =
    if ltb (length resp) (offset + 2)
    then none
    else if ltb (length resp) (offset + 3)
    then none
    else Option.map (λ names. bank_name (get16 resp offset) ∷ names)
        (banks_from resp count (offset + 3 + get_or resp (offset + 2) 0))

-- the banks of a whole response
unfoldable pub banks_of : Bytes → Option (List Bytes)
banks_of resp =
    if ltb (length resp) 19
    then none
    else if ltb 20 (get16 resp 17)
    then none
    else banks_from resp (get16 resp 17) 19

abbrev is_some : Option (List Bytes) → Bool
is_some none = false
is_some (some names) = true

module _ {W : Type 0} (sockets : Sockets W) where
  -- TPM2_GetCapability of TPM2_CAP_PCRS
  unfoldable pub pcrs_request : Bytes
  pcrs_request = request st_no_sessions cc_getcapability (be32 5 ++ (be32 0 ++ be32 64))

  unfoldable pub banks_answered : Outcome Bytes W → Option (List Bytes) × Link W
  banks_answered r = (if r.done then banks_of r.out else none, r.link)

  -- swtpm_tpm2_get_all_pcr_banks; `none` where it does not return 0
  unfoldable pub get_all_pcr_banks : Link W → Option (List Bytes) × Link W
  get_all_pcr_banks l = banks_answered (transfer sockets false pcrs_request 256 l)

-- What the loops of swtpm_tpm2_set_active_pcr_banks keep: *active, pcrselects, count, and the set
-- bits of activated_mask, which has 64 in the code.
pub record Selected : Type 0 where
  pub active : List Bytes
  pub pcrselects : Bytes
  pub count : ℕ
  pub activated : List ℕ

abbrev pub no_banks : Selected
no_banks = record { active = []; pcrselects = []; count = 0; activated = [] }

-- the index of a name
unfoldable pub index_from : ℕ → Bytes → List Bytes → Option ℕ
index_from j name [] = none
index_from j name (n ∷ ns) = if bytes_eq name n then some j else index_from (j + 1) name ns

unfoldable pub has_bit : ℕ → List ℕ → Bool
has_bit j [] = false
has_bit j (i ∷ is) = (i == j) || has_bit j is

unfoldable pub has_name : Bytes → List Bytes → Bool
has_name name [] = false
has_name name (n ∷ ns) = bytes_eq n name || has_name name ns

-- sizeof(pcrselects)
abbrev pub pcrselects_size : ℕ
pcrselects_size = 60

-- a name that is available at index j
unfoldable pub select_at : Bytes → ℕ → Selected → Option Selected
select_at name j s =
    let alg = get_hashalg_by_bankname name in
    if alg == 0 || has_bit j s.activated
    then some s
    else if ltb pcrselects_size (length s.pcrselects + 6)
    then none
    else some (record {
      active = s.active ++ name ∷ [];
      pcrselects = s.pcrselects ++ (be16 alg ++ 3 ∷ 255 ∷ 255 ∷ 255 ∷ []);
      count = s.count + 1;
      activated = j ∷ s.activated;
    })

abbrev pub select_found : Bytes → Option ℕ → Selected → Option Selected
select_found name none s = some s
select_found name (some j) s = select_at name j s

-- the loop over the banks that the user has chosen
unfoldable pub select_all : List Bytes → List Bytes → Option Selected → Option Selected
select_all all_pcr_banks names none = none
select_all all_pcr_banks [] (some s) = some s
select_all all_pcr_banks (n ∷ ns) (some s) =
    select_all all_pcr_banks ns (select_found n (index_from 0 n all_pcr_banks) s)

-- a bank that there is: deactivated, if it is not chosen
unfoldable pub deselect_one : List Bytes → Bytes → Selected → Option Selected
deselect_one pcr_banks n s =
    if has_name n pcr_banks
    then some s
    else if ltb pcrselects_size (length s.pcrselects + 6)
    then none
    else some (record s {
      pcrselects = s.pcrselects ++ (be16 (get_hashalg_by_bankname n) ++ 3 ∷ 0 ∷ 0 ∷ 0 ∷ []);
      count = s.count + 1;
    })

-- the loop over the banks that there are
unfoldable pub deselect_all : List Bytes → List Bytes → Option Selected → Option Selected
deselect_all pcr_banks names none = none
deselect_all pcr_banks [] (some s) = some s
deselect_all pcr_banks (n ∷ ns) (some s) = deselect_all pcr_banks ns (deselect_one pcr_banks n s)

-- where there is something to activate
unfoldable pub some_selected : Option Selected → Option Selected
some_selected none = none
some_selected (some s) = if s.count == 0 then none else some s

unfoldable pub pcr_allocate_request : Selected → Bytes
pcr_allocate_request s = request st_sessions cc_pcr_allocate (
    be32 rh_platform
    ++ (be32 authblock_size ++ (authblock rs_pw ++ (be32 s.count ++ s.pcrselects))))

module _ {W : Type 0} (sockets : Sockets W) where
  unfoldable pub allocate : Option Selected → Link W → Option (List Bytes) × Link W
  allocate none l = (none, l)
  allocate (some s) l =
      let (taken, l') = command sockets (pcr_allocate_request s) l in
      (if taken then some s.active else none, l')

  -- swtpm_tpm2_set_active_pcr_banks: the banks that it has activated, `none` where it does not
  -- return 0
  unfoldable pub set_active_pcr_banks :
      List Bytes → List Bytes → Link W → Option (List Bytes) × Link W
  set_active_pcr_banks pcr_banks all_pcr_banks l =
      allocate
        (deselect_all pcr_banks all_pcr_banks
          (some_selected (select_all all_pcr_banks pcr_banks (some no_banks))))
        l
