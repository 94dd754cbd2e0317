-- ===== src/Setup/Created.antt =====
-- What swtpm_tpm2_createprimary_ek_rsa of src/swtpm_setup/swtpm.c reads from the TPM's response.
use Prim.Native.Nat.{bit_or}
use swtpm.Common.{
  ℕ, ◌+◌, ◌*◌, ◌≡◌, ◌<◌, refl, sym, ap, ◌∙◌, inl, inr, Bool, true, false, Option, some, ◌++◌, ◌==◌,
  ==_iff, ltb, ge→ltb, if◌then◌else◌, length, take, drop, get_or, get16, get32, be16, be32, u16_mod,
  u32_mod, be16_value, be32_value, length-append, take-append, drop-append, drop-add, Bool-cases,
  arith,
}
use swtpm.Setup.{Bytes, Sockets, Link, Outcome, transfer, rh_endorsement}
use swtpm.Setup.Available.{get_or-drop, get16-drop}
use swtpm.Setup.Primary.{
  PkParams, create_symkeydata, public_fields, alg_rsa, createprimary_request, print_as_hex,
  too_small, Key, handled, createprimary, rsa_parsed, createprimary_rsa, get_ek_params_rsa,
  ek_rsa_2048, ek_rsa_high, EkRequest, ek_rsa_request, ek_rsa_for, create_ek, ek_rsa_with,
  createprimary_ek_rsa,
}

-- A response to TPM2_CreatePrimary: a header of ten bytes, the handle, the size of the parameters,
-- and a TPM2B_PUBLIC with its fields, then the modulus, and the rest.
abbrev pub key_response : Bytes → ℕ → ℕ → ℕ → Bytes → Bytes → Bytes → Bytes
key_response header handle parameters public fields modulus rest =
    header
    ++ (be32 handle
        ++ (be32 parameters
            ++ (be16 public ++ (fields ++ (be16 (length modulus) ++ (modulus ++ rest))))))

get32-drop : (n : ℕ) (xs : Bytes) → get32 xs n ≡ get32 (drop n xs) 0
get32-drop n xs =
    ap
      (λ i.
        get_or xs i 0 * 16777216
        + get_or xs (n + 1) 0 * 65536
        + get_or xs (n + 2) 0 * 256
        + get_or xs (n + 3) 0)
      {x = n} {y = n + 0} (omega arith)
    ∙ (λ i.
        get_or-drop n 0 xs i * 16777216
        + get_or-drop n 1 xs i * 65536
        + get_or-drop n 2 xs i * 256
        + get_or-drop n 3 xs i)

module _ (header fields modulus rest : Bytes) (handle parameters public : ℕ)
    (ten : length header ≡ 10) (handle_fits : handle < u32_mod)
    (fits : length modulus < u16_mod) where
  abbrev resp : Bytes
  resp = key_response header handle parameters public fields modulus rest

  abbrev off : ℕ
  off = 10 + (10 + length fields)

  behind : drop off resp ≡ be16 (length modulus) ++ (modulus ++ rest)
  behind =
      drop-add 10 (10 + length fields) resp
      ∙ ap (drop (10 + length fields)) (drop-append 10 header _ (sym ten))
      ∙ drop-add 10 (length fields) _
      ∙ drop-append (length fields) fields (be16 (length modulus) ++ (modulus ++ rest)) refl

  handle_is : get32 resp 10 ≡ handle
  handle_is =
      get32-drop 10 resp
      ∙ ap (λ r. get32 r 0) (drop-append 10 header _ (sym ten))
      ∙ be32_value handle handle_fits

  length_is : get16 resp off ≡ length modulus
  length_is = get16-drop off resp ∙ ap (λ r. get16 r 0) behind ∙ be16_value (length modulus) fits

  modulus_is : take (length modulus) (drop (off + 2) resp) ≡ modulus
  modulus_is =
      ap (take (length modulus)) (drop-add off 2 resp ∙ ap (drop 2) behind)
      ∙ take-append (length modulus) modulus rest refl

  whole : length resp ≡ 22 + length fields + length modulus + length rest
  whole = omega (
    arith,
    ten,
    length-append header (
        be32 handle
        ++ (be32 parameters
            ++ (be16 public ++ (fields ++ (be16 (length modulus) ++ (modulus ++ rest)))))),
    length-append fields (be16 (length modulus) ++ (modulus ++ rest)),
    length-append modulus rest,
  )

  module _ {W : Type 0} (sockets : Sockets W) (link : Link W) where
    -- the handle and the modulus, in a response read at this offset
    abbrev found : Outcome Key W
    found = record {
      done = true;
      out = record { handle = handle; param = print_as_hex modulus };
      link = link;
    }

    rsa_parsed-key_response :
        rsa_parsed sockets
          (length modulus)
          off
          true
          (handled sockets (record { done = true; out = resp; link = link }))
        ≡ found
    unfolding rsa_parsed handled
    rsa_parsed-key_response =
        let a : ltb (length resp) 14 ≡ false = ge→ltb _ _ (omega (arith, whole)) in
        let b : ltb (length resp) (off + 2) ≡ false = ge→ltb _ _ (omega (arith, whole)) in
        let c : (length modulus == length modulus) ≡ true = (==_iff _ _).1 refl in
        let d : ltb (length resp) (off + 2 + length modulus) ≡ false =
          ge→ltb _ _ (omega (arith, whole)) in
        rw (a, b, length_is, c, d, modulus_is, handle_is) refl

-- The offset and the size of the modulus are those of the public area that is asked for.
record IsRight (pk : PkParams) (e : EkRequest) : Type 0 where
  off_is : e.off ≡ 10 + (10 + length (public_fields alg_rsa e.keyflags e.pk))
  keysize_is : e.pk.keysize ≡ pk.keysize
  fits : pk.keysize < u16_mod

-- parameters whose policy and scheme leave the modulus at this distance
record Fits (addlen : ℕ) (pk : PkParams) : Type 0 where
  lengths : length pk.authpolicy + length pk.schemedata ≡ 40 + addlen
  has_symkey : (pk.symkey_len == 0) ≡ false
  small : pk.keysize < u16_mod

length-public_fields :
    (alg keyflags : ℕ) (pk : PkParams)
    → length (public_fields alg keyflags pk)
      ≡ 10
        + (length pk.authpolicy + (length (create_symkeydata pk.symkey_len) + length pk.schemedata))
unfolding public_fields
length-public_fields alg keyflags pk = omega (
  arith,
  length-append pk.authpolicy (create_symkeydata pk.symkey_len ++ pk.schemedata),
  length-append (create_symkeydata pk.symkey_len) pk.schemedata,
)

length-create_symkeydata : (n : ℕ) → (n == 0) ≡ false → length (create_symkeydata n) ≡ 6
unfolding create_symkeydata
length-create_symkeydata n e = rw e refl

length-no_symkey : length (create_symkeydata 0) ≡ 2
unfolding create_symkeydata
length-no_symkey = refl

ek_rsa_request-IsRight :
    (flags addlen : ℕ) (allowsigning decryption : Bool) (pk : PkParams)
    → Fits addlen pk
    → IsRight pk (ek_rsa_request flags addlen allowsigning decryption pk)
unfolding ek_rsa_request
ek_rsa_request-IsRight flags addlen true true pk f = record {
  off_is = omega (
    arith,
    length-public_fields alg_rsa (bit_or flags 0x600b2) (record pk { symkey_len = 0 }),
    length-no_symkey,
    f.lengths,
  );
  keysize_is = refl;
  fits = f.small;
}
ek_rsa_request-IsRight flags addlen true false pk f = record {
  off_is = omega (
    arith,
    length-public_fields alg_rsa (bit_or flags 0x400b2) (record pk { symkey_len = 0 }),
    length-no_symkey,
    f.lengths,
  );
  keysize_is = refl;
  fits = f.small;
}
ek_rsa_request-IsRight flags addlen false d pk f = record {
  off_is = omega (
    arith,
    length-public_fields alg_rsa (bit_or flags 0x300b2) pk,
    length-create_symkeydata pk.symkey_len f.has_symkey,
    f.lengths,
  );
  keysize_is = refl;
  fits = f.small;
}

high-Fits : (bits : ℕ) → bits < 5000 → Fits 16 (ek_rsa_high bits)
high-Fits bits h = record { lengths = refl; has_symkey = refl; small = omega arith }

-- the entries of the table
get_ek_params_rsa-Fits :
    (keysize : ℕ) (pk : PkParams)
    → get_ek_params_rsa keysize ≡ some pk
    → Fits (if keysize == 2048 then 0 else 16) pk
unfolding get_ek_params_rsa
get_ek_params_rsa-Fits keysize pk h = elim (Bool-cases (keysize == 2048)) [
  | inl e ↦
      let same : ek_rsa_2048 ≡ pk = cc (rw e at h) in
      rw (e, ← same) (record { lengths = refl; has_symkey = refl; small = omega arith })
  | inr e ↦ elim (Bool-cases (keysize == 3072)) [
    | inl e' ↦
        let same : ek_rsa_high 3072 ≡ pk = cc (rw (e, e') at h) in
        rw (e, ← same) (high-Fits 3072 (omega arith))
    | inr e' ↦ elim (Bool-cases (keysize == 4096)) [
      | inl e'' ↦
          let same : ek_rsa_high 4096 ≡ pk = cc (rw (e, e', e'') at h) in
          rw (e, ← same) (high-Fits 4096 (omega arith))
      | inr e'' ↦ cc (rw (e, e', e'') at h)
    ]
  ]
]

ek_rsa_for-IsRight :
    (keysize : ℕ) (allowsigning decryption : Bool) (pk : PkParams)
    → get_ek_params_rsa keysize ≡ some pk
    → IsRight pk (ek_rsa_for keysize allowsigning decryption pk)
unfolding ek_rsa_for
ek_rsa_for-IsRight keysize s d pk h =
    let f = get_ek_params_rsa-Fits keysize pk h in
    elim (Bool-cases (keysize == 2048)) [
      | inl e ↦ rw e (ek_rsa_request-IsRight 0 0 s d pk (rw e at f))
      | inr e ↦ rw e (ek_rsa_request-IsRight 0x40 16 s d pk (rw e at f))
    ]

module _ {W : Type 0} (sockets : Sockets W) where
  -- Where the TPM answers the TPM2_CreatePrimary for an RSA endorsement key, of a supported size and
  -- of any kind, with a header of ten bytes, a handle of 32 bits, the public fields that were asked
  -- for and a modulus of that size, and a buffer for the template has room for it:
  -- swtpm_tpm2_createprimary_ek_rsa returns 0, with that handle and the digits of just that modulus.
  pub createprimary_ek_rsa-Found :
      (keysize : ℕ) (allowsigning decryption : Bool) (ektemplate : Option ℕ) (pk : PkParams)
      (header modulus rest : Bytes) (handle parameters public : ℕ) (l l' : Link W)
      → get_ek_params_rsa keysize ≡ some pk
      → length header ≡ 10
      → handle < u32_mod
      → length modulus ≡ pk.keysize
      → (let e = ek_rsa_for keysize allowsigning decryption pk in
          let fields = public_fields alg_rsa e.keyflags e.pk in
          (too_small ektemplate (fields ++ e.pk.nonce) ≡ false)
          × (transfer sockets false
                (createprimary_request rh_endorsement (fields ++ e.pk.nonce))
                2048
                l
              ≡ record {
                done = true;
                out = key_response header handle parameters public fields modulus rest;
                link = l';
              }))
      → createprimary_ek_rsa sockets keysize allowsigning decryption ektemplate true l ≡ record {
        done = true;
        out = record { handle = handle; param = print_as_hex modulus };
        link = l';
      }
  unfolding createprimary_ek_rsa ek_rsa_with create_ek createprimary_rsa createprimary
  createprimary_ek_rsa-Found keysize s d ektemplate pk header modulus rest handle parameters public
        l l' k ten hf n (room, answer) =
      let e = ek_rsa_for keysize s d pk in
      let right = ek_rsa_for-IsRight keysize s d pk k in
      let same : length modulus ≡ e.pk.keysize = n ∙ sym right.keysize_is in
      let read =
        rsa_parsed-key_response header (public_fields alg_rsa e.keyflags e.pk) modulus rest handle
          parameters public ten hf (omega (arith, n, right.fits)) sockets l' in
      rw (k, room, answer, right.off_is, sym same) read
