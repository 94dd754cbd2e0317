-- ===== src/Nvstore/RoundTrip.antt =====
-- What src/swtpm/swtpm_nvstore.c encrypts, it decrypts.
use swtpm.Common.{
  ℕ, ◌+◌, ◌≡◌, ◌<◌, ◌≤◌, inl, inr, refl, sym, ap, ◌∙◌, true, false, Option, some, List, [], u32_mod,
  ltb, ◌==◌, length, arith,
}
use swtpm.Common.Result.{ok}
use swtpm.Crypto.{Crypto, CryptoLaws}
use swtpm.Aes.{symmetric_key_data_encrypt}
use swtpm.Aes.RoundTrip.{symmetric_key_data_decrypt-encrypt, length-symmetric_key_data_encrypt}
use swtpm.Tlv.{TlvData, append, find_tag, tag_hmac}
use swtpm.Tlv.RoundTrip.{find_tag-append_nil}
use swtpm.Tlv.Bounds.{length-append_nil}
use swtpm.Nvstore.{EncryptionKey, has_flag, aes256_key_size}
use swtpm.Nvstore.Crypt.{
  IvecState, checked_and_decrypted, ivec_bytes, get_ivec, roll_and_set_global_ivec, swtpm_hmac,
  encrypted_entries, encrypt_data, decrypt_data, decrypt_data_v2,
}
use swtpm.Nvstore.Entries.{
  encrypted_entries-ok, found_entry, get_ivec-payload?, entries_of, roll-Fits, length-swtpm_hmac,
  check_hmac_self, IsUsable, AreTags, encoded_length-ivec, valid, first_data, first_hmac,
  first_ivec,
}

-- What is encrypted with a usable key, and put into one stream, is decrypted with the same key, by
-- the flags that name its size.
module _ {R : Type 0} {crypto : Crypto R} (laws : CryptoLaws crypto) (key : EncryptionKey)
    {tag tag_ivec : ℕ} (tags : AreTags tag tag_ivec) (bytes buffer : List ℕ) (usable : IsUsable key)
    (fits : length bytes + 32 < u32_mod) where
  checked_and_decrypted-encrypted :
      (ivec : Option (List ℕ)) (tmp md : List ℕ)
      → length (ivec_bytes ivec) ≤ aes256_key_size
      → symmetric_key_data_encrypt crypto bytes key.symkey ivec ≡ ok tmp
      → swtpm_hmac crypto key.symkey tmp ivec ≡ some md
      → append crypto.can_alloc [] (entries_of tag tag_ivec tmp md ivec) ≡ ok buffer
      → checked_and_decrypted crypto key.symkey
          (get_ivec buffer tag_ivec)
          (find_tag buffer tag_hmac)
          (find_tag buffer tag)
        ≡ ok bytes
  unfolding checked_and_decrypted
  checked_and_decrypted-encrypted ivec tmp md p e m a =
      let small = length-symmetric_key_data_encrypt crypto bytes tmp key.symkey ivec e in
      let v =
        valid tags tmp md ivec small.0 (length-swtpm_hmac laws key.symkey tmp md ivec m)
          (omega arith) in
      let td = entries_of tag tag_ivec tmp md ivec in
      let (encrypted, there, same, _) =
        found_entry crypto.can_alloc td buffer tag v a (first_data tags tmp md ivec) in
      let (hmac, there', same', n) =
        found_entry crypto.can_alloc td buffer tag_hmac v a (first_hmac tags tmp md ivec) in
      let vector : get_ivec buffer tag_ivec ≡ ivec =
        get_ivec-payload? buffer tag_ivec
        ∙ find_tag-append_nil crypto.can_alloc td tag_ivec v a
        ∙ first_ivec tags tmp md ivec in
      rw
        (
          vector,
          there,
          there',
          check_hmac_self laws hmac encrypted key.symkey tmp md ivec m same' n same,
          same,
        )
        (symmetric_key_data_decrypt-encrypt crypto laws bytes tmp key.symkey ivec usable.sized fits
          e)

  key-pos : 0 < key.symkey.user_key_length
  key-pos = elim usable.sized [ inl e ↦ omega arith | inr e ↦ omega arith ]

  key_small : key.symkey.user_key_length ≤ aes256_key_size
  key_small = elim usable.sized [ inl e ↦ omega arith | inr e ↦ omega arith ]

  encrypt_data_usable :
      (s : IvecState R)
      → encrypt_data crypto key tag bytes tag_ivec s ≡ (
        encrypted_entries crypto key.symkey tag bytes tag_ivec
            (roll_and_set_global_ivec crypto key.symkey.user_key_length s).0,
        (roll_and_set_global_ivec crypto key.symkey.user_key_length s).1,
      )
  unfolding encrypt_data
  encrypt_data_usable s =
      let set : ltb 0 key.symkey.user_key_length ≡ true = ground (arith, key-pos) in
      rw (set, usable.mode) refl

  decrypt_data_usable :
      (hdrflags flag_256bitkey : ℕ)
      → has_flag hdrflags flag_256bitkey ≡ (key.symkey.user_key_length == aes256_key_size)
      → decrypt_data crypto key buffer tag 2 tag_ivec hdrflags flag_256bitkey
        ≡ checked_and_decrypted crypto key.symkey
            (get_ivec buffer tag_ivec)
            (find_tag buffer tag_hmac)
            (find_tag buffer tag)
  unfolding decrypt_data decrypt_data_v2
  decrypt_data_usable hdrflags flag_256bitkey f =
      let set : (key.symkey.user_key_length == 0) ≡ false = ground (arith, key-pos) in
      rw (set, usable.mode, f) (elim usable.sized [ inl e ↦ rw e refl | inr e ↦ rw e refl ])

  -- Under CryptoLaws. A key of 16 or 32 bytes in AES-CBC mode, tags that differ, header flags that tell the key's size,
  -- data that stay below 2 ^ 32 bytes with their pad, and a g_ivec of at most 32 bytes: where
  -- EncryptData gives entries and they are put into one stream, DecryptData gives the data back. This
  -- holds with a vector and where none could be allocated.
  pub decrypt_data-encrypt_data :
      (s : IvecState R) (hdrflags flag_256bitkey : ℕ) (td : List TlvData)
      → length s.g_ivec ≤ aes256_key_size
      → has_flag hdrflags flag_256bitkey ≡ (key.symkey.user_key_length == aes256_key_size)
      → (encrypt_data crypto key tag bytes tag_ivec s).0 ≡ ok td
      → append crypto.can_alloc [] td ≡ ok buffer
      → decrypt_data crypto key buffer tag 2 tag_ivec hdrflags flag_256bitkey ≡ ok bytes
  decrypt_data-encrypt_data s hdrflags flag_256bitkey td p f h a =
      let ivec = (roll_and_set_global_ivec crypto key.symkey.user_key_length s).0 in
      let (tmp, md, e, m, made) =
        encrypted_entries-ok laws key tag tag_ivec bytes ivec td
          (ap (λ p. p.0) (sym (encrypt_data_usable s)) ∙ h) in
      decrypt_data_usable hdrflags flag_256bitkey f
      ∙ checked_and_decrypted-encrypted ivec tmp md
          (roll-Fits laws aes256_key_size key.symkey.user_key_length s key_small p).0 e m
          (rw (← made) at a)

  pub length-encrypted :
      (s : IvecState R) (td : List TlvData)
      → length s.g_ivec ≤ aes256_key_size
      → (encrypt_data crypto key tag bytes tag_ivec s).0 ≡ ok td
      → append crypto.can_alloc [] td ≡ ok buffer
      → (length buffer ≤ length bytes + 114)
        × (0 < length buffer)
        × (length (encrypt_data crypto key tag bytes tag_ivec s).1.g_ivec ≤ aes256_key_size)
  length-encrypted s td p h a =
      let ivec = (roll_and_set_global_ivec crypto key.symkey.user_key_length s).0 in
      let r = roll-Fits laws aes256_key_size key.symkey.user_key_length s key_small p in
      let (tmp, md, e, m, made) =
        encrypted_entries-ok laws key tag tag_ivec bytes ivec td
          (ap (λ p. p.0) (sym (encrypt_data_usable s)) ∙ h) in
      let small = length-symmetric_key_data_encrypt crypto bytes tmp key.symkey ivec e in
      let sized = length-swtpm_hmac laws key.symkey tmp md ivec m in
      let v = valid tags tmp md ivec small.0 sized (omega (arith, r.0)) in
      let n =
        length-append_nil crypto.can_alloc (entries_of tag tag_ivec tmp md ivec) v
          (rw (← made) at a) in
      (
        omega (arith, n, small.1, sized, key_small, encoded_length-ivec tag_ivec ivec, r.0),
        omega (arith, n),
        rw (encrypt_data_usable s) r.1,
      )
