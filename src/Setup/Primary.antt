-- ===== src/Setup/Primary.antt =====
-- Primary keys in src/swtpm_setup/swtpm.c: TPM2_CreatePrimary, the public area that is asked for, and
-- what is read from the response. *curr_handle is always asked for, and what a
-- failed call leaves in it is not told; messages and time limits are left out.
use Prim.Native.Nat.{bit_or}
use swtpm.Common.{
  ℕ, ◌+◌, ◌/◌, ◌%◌, Bool, true, false, ◌&&◌, ◌||◌, not, Option, none, some, [], ◌∷◌, ◌++◌, ◌==◌,
  ltb, if◌then◌else◌, length, take, drop, replicate, get16, get32, be16, be32,
}
use swtpm.Setup.{
  Bytes, Sockets, Link, Outcome, request, authblock, authblock_size, transfer, st_sessions,
  cc_createprimary, rh_endorsement, rs_pw,
}

-- struct pk_params as far as it is read here; `nonce2` is `none` for NULL
pub record PkParams : Type 0 where
  pub nonce : Bytes
  pub nonce2 : Option Bytes
  pub hashalg : ℕ
  pub authpolicy : Bytes
  pub schemedata : Bytes
  pub symkey_len : ℕ
  pub keysize : ℕ

-- create_symkeydata: TPM2_ALG_AES with TPM2_ALG_CFB, or TPM2_ALG_NULL
unfoldable pub create_symkeydata : ℕ → Bytes
create_symkeydata symkey_len =
    if symkey_len == 0 then be16 0x10 else be16 0x6 ++ (be16 symkey_len ++ be16 0x43)

-- the public area up to the key itself; the algorithm is TPM2_ALG_RSA or TPM2_ALG_ECC
unfoldable pub public_fields : ℕ → ℕ → PkParams → Bytes
unfolding create_symkeydata
public_fields alg keyflags pk =
    be16 alg
    ++ (be16 pk.hashalg
        ++ (be32 keyflags
            ++ (be16 (length pk.authpolicy)
                ++ (pk.authpolicy ++ (create_symkeydata pk.symkey_len ++ pk.schemedata)))))

abbrev pub alg_rsa : ℕ
alg_rsa = 0x1

abbrev pub alg_ecc : ℕ
alg_ecc = 0x23

abbrev pub nonce2_of : PkParams → Option Bytes → Bytes
nonce2_of pk none = pk.nonce
nonce2_of pk (some nonce2) = nonce2

-- the request of swtpm_tpm2_createprimary
unfoldable pub createprimary_request : ℕ → Bytes → Bytes
createprimary_request primaryhandle public = request st_sessions cc_createprimary (
    be32 primaryhandle
    ++ (be32 authblock_size
        ++ (authblock rs_pw
            ++ (be16 4 ++ (be32 0 ++ (be16 (length public) ++ (public ++ (be32 0 ++ be16 0))))))))

-- print_as_hex of src/utils/swtpm_utils.c
abbrev pub hex_char : ℕ → ℕ
hex_char d = if ltb d 10 then 48 + d else 87 + d

unfoldable pub print_as_hex : Bytes → Bytes
print_as_hex [] = []
print_as_hex (b ∷ bs) = hex_char (b / 16) ∷ hex_char (b % 16) ∷ print_as_hex bs

-- ektemplate is too small, where it is given
unfoldable pub too_small : Option ℕ → Bytes → Bool
too_small none public = false
too_small (some ektemplate_len) public = ltb ektemplate_len (length public)

-- *curr_handle, and the key's parameter where it is asked for
pub record Key : Type 0 where
  pub handle : ℕ
  pub param : Bytes

abbrev pub empty_key : Key
empty_key = record { handle = 0; param = [] }

module _ {W : Type 0} (sockets : Sockets W) where
  unfoldable pub handled : Outcome Bytes W → Outcome (Bytes × ℕ) W
  handled r =
      if not r.done || ltb (length r.out) 14
      then record { done = false; out = (r.out, 0); link = r.link }
      else record { done = true; out = (r.out, get32 r.out 10); link = r.link }

  -- swtpm_tpm2_createprimary: the response and the handle
  unfoldable pub createprimary : ℕ → Option ℕ → Bytes → Link W → Outcome (Bytes × ℕ) W
  createprimary primaryhandle ektemplate public l =
      if too_small ektemplate public
      then record { done = false; out = ([], 0); link = l }
      else handled (transfer sockets false (createprimary_request primaryhandle public) 2048 l)

  unfoldable pub failed : Link W → Outcome Key W
  failed l = record { done = false; out = empty_key; link = l }

  -- the modulus at an offset of the response
  unfoldable pub rsa_parsed : ℕ → ℕ → Bool → Outcome (Bytes × ℕ) W → Outcome Key W
  rsa_parsed keysize off wants_param r =
      let resp = r.out.0 in
      let modlen = get16 resp off in
      if not r.done
      then failed r.link
      else if ltb (length resp) (off + 2)
      then failed r.link
      else if not (modlen == keysize)
      then failed r.link
      else if wants_param && ltb (length resp) (off + 2 + modlen)
      then failed r.link
      else record {
        done = true;
        out = record {
          handle = r.out.1;
          param = if wants_param then print_as_hex (take modlen (drop (off + 2) resp)) else [];
        };
        link = r.link;
      }

  -- swtpm_tpm2_createprimary_rsa
  unfoldable pub createprimary_rsa : ℕ → ℕ → PkParams → ℕ → Option ℕ → Bool → Link W → Outcome Key W
  createprimary_rsa primaryhandle keyflags pk off ektemplate wants_param l =
      rsa_parsed pk.keysize off wants_param
        (createprimary primaryhandle ektemplate (public_fields alg_rsa keyflags pk ++ pk.nonce) l)

  -- the coordinates: "x=", "y=", and ",id=" with the description of the key
  unfoldable pub ecc_param : Bytes → Bytes → Bytes → Bytes
  ecc_param keydescription x y =
      120 ∷ 61 ∷ print_as_hex x
      ++ (44 ∷ 121 ∷ 61 ∷ print_as_hex y ++ 44 ∷ 105 ∷ 100 ∷ 61 ∷ keydescription)

  unfoldable pub ecc_parsed : Bytes → ℕ → ℕ → Bool → Outcome (Bytes × ℕ) W → Outcome Key W
  ecc_parsed keydescription keysize off wants_param r =
      let resp = r.out.0 in
      let ksize1 = get16 resp off in
      let off2 = off + 2 + ksize1 in
      let ksize2 = get16 resp off2 in
      if not r.done
      then failed r.link
      else if ltb (length resp) (off + 2) || ltb (length resp) (off2 + 2)
      then failed r.link
      else if not (ksize1 == keysize) || not (ksize2 == keysize)
      then failed r.link
      else if wants_param
          && (ltb (length resp) (off + 2 + ksize1) || ltb (length resp) (off2 + 2 + ksize2))
      then failed r.link
      else record {
        done = true;
        out = record {
          handle = r.out.1;
          param =
              if wants_param
              then ecc_param keydescription (take ksize1 (drop (off + 2) resp))
                  (take ksize2 (drop (off2 + 2) resp))
              else [];
        };
        link = r.link;
      }

  -- swtpm_tpm2_createprimary_ecc
  unfoldable pub createprimary_ecc :
      ℕ → ℕ → Bytes → PkParams → ℕ → Option ℕ → Bool → Link W → Outcome Key W
  createprimary_ecc primaryhandle keyflags keydescription pk off ektemplate wants_param l =
      ecc_parsed keydescription pk.keysize off wants_param (
        createprimary primaryhandle ektemplate
          (public_fields alg_ecc keyflags pk ++ (pk.nonce ++ nonce2_of pk pk.nonce2)) l)

-- PolicyA_SHA256 and PolicyB_SHA384
abbrev pub policy_a_sha256 : Bytes
policy_a_sha256 =
    0x83 ∷ 0x71 ∷ 0x97 ∷ 0x67 ∷ 0x44 ∷ 0x84 ∷ 0xb3 ∷ 0xf8 ∷ 0x1a ∷ 0x90 ∷ 0xcc ∷ 0x8d ∷ 0x46 ∷ 0xa5
    ∷ 0xd7 ∷ 0x24 ∷ 0xfd ∷ 0x52 ∷ 0xd7 ∷ 0x6e ∷ 0x06 ∷ 0x52 ∷ 0x0b ∷ 0x64 ∷ 0xf2 ∷ 0xa1 ∷ 0xda
    ∷ 0x1b ∷ 0x33 ∷ 0x14 ∷ 0x69 ∷ 0xaa ∷ []

abbrev pub policy_b_sha384 : Bytes
policy_b_sha384 =
    0xb2 ∷ 0x6e ∷ 0x7d ∷ 0x28 ∷ 0xd1 ∷ 0x1a ∷ 0x50 ∷ 0xbc ∷ 0x53 ∷ 0xd8 ∷ 0x82 ∷ 0xbc ∷ 0xf5 ∷ 0xfd
    ∷ 0x3a ∷ 0x1a ∷ 0x07 ∷ 0x41 ∷ 0x48 ∷ 0xbb ∷ 0x35 ∷ 0xd3 ∷ 0xb4 ∷ 0xe4 ∷ 0xcb ∷ 0x1c ∷ 0x0a
    ∷ 0xd9 ∷ 0xbd ∷ 0xe4 ∷ 0x19 ∷ 0xca ∷ 0xcb ∷ 0x47 ∷ 0xba ∷ 0x09 ∷ 0x69 ∷ 0x96 ∷ 0x46 ∷ 0x15
    ∷ 0x0f ∷ 0x9f ∷ 0xc0 ∷ 0x00 ∷ 0xf3 ∷ 0xf8 ∷ 0x0e ∷ 0x12 ∷ []

-- the entries of ek_params for RSA
abbrev pub ek_rsa_2048 : PkParams
ek_rsa_2048 = record {
  nonce = be16 0x100 ++ replicate 0x100 0;
  nonce2 = none;
  hashalg = 0xb;
  authpolicy = policy_a_sha256;
  schemedata = be16 0x10 ++ (be16 2048 ++ be32 0);
  symkey_len = 128;
  keysize = 256;
}

abbrev pub ek_rsa_high : ℕ → PkParams
ek_rsa_high bits = record {
  nonce = be16 0;
  nonce2 = none;
  hashalg = 0xc;
  authpolicy = policy_b_sha384;
  schemedata = be16 0x10 ++ (be16 bits ++ be32 0);
  symkey_len = 256;
  keysize = bits / 8;
}

-- get_ek_params for KEYALGO_RSA
unfoldable pub get_ek_params_rsa : ℕ → Option PkParams
get_ek_params_rsa keysize =
    if keysize == 2048
    then some ek_rsa_2048
    else if keysize == 3072
    then some (ek_rsa_high 3072)
    else if keysize == 4096
    then some (ek_rsa_high 4096)
    else none

-- What swtpm_tpm2_createprimary_ek_rsa makes of the kind of key: the flags, the parameters and the
-- offset of the modulus.
pub record EkRequest : Type 0 where
  pub keyflags : ℕ
  pub pk : PkParams
  pub off : ℕ

unfoldable pub ek_rsa_request : ℕ → ℕ → Bool → Bool → PkParams → EkRequest
ek_rsa_request flags addlen true true pk = record {
  keyflags = bit_or flags 0x600b2;
  pk = record pk { symkey_len = 0 };
  off = 72 + addlen;
}
ek_rsa_request flags addlen true false pk = record {
  keyflags = bit_or flags 0x400b2;
  pk = record pk { symkey_len = 0 };
  off = 72 + addlen;
}
ek_rsa_request flags addlen false decryption pk = record {
  keyflags = bit_or flags 0x300b2;
  pk = pk;
  off = 76 + addlen;
}

-- the switch on the key's size
unfoldable pub ek_rsa_for : ℕ → Bool → Bool → PkParams → EkRequest
ek_rsa_for keysize allowsigning decryption pk =
    if keysize == 2048
    then ek_rsa_request 0 0 allowsigning decryption pk
    else ek_rsa_request 0x40 16 allowsigning decryption pk

module _ {W : Type 0} (sockets : Sockets W) where
  unfoldable pub create_ek : EkRequest → Option ℕ → Bool → Link W → Outcome Key W
  create_ek e ektemplate wants_param l =
      createprimary_rsa sockets rh_endorsement e.keyflags e.pk e.off ektemplate wants_param l

  unfoldable pub ek_rsa_with :
      Option PkParams → ℕ → Bool → Bool → Option ℕ → Bool → Link W → Outcome Key W
  ek_rsa_with none keysize allowsigning decryption ektemplate wants_param l = failed sockets l
  ek_rsa_with (some pk) keysize allowsigning decryption ektemplate wants_param l =
      create_ek (ek_rsa_for keysize allowsigning decryption pk) ektemplate wants_param l

  -- swtpm_tpm2_createprimary_ek_rsa
  unfoldable pub createprimary_ek_rsa : ℕ → Bool → Bool → Option ℕ → Bool → Link W → Outcome Key W
  createprimary_ek_rsa keysize allowsigning decryption ektemplate wants_param l =
      ek_rsa_with (get_ek_params_rsa keysize) keysize allowsigning decryption ektemplate wants_param
        l
