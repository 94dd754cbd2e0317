-- ===== src/Ctrl/Streams.antt =====
-- The transfers of src/swtpm/ctrlchannel.c do not depend on how the bytes arrive.
use swtpm.Common.{
  ℕ, zero, suc, ◌+◌, ◌-◌, ◌≤◌, ◌<◌, ◌≡◌, refl, sym, ap, ◌∙◌, true, false, List, [], ◌∷◌, ◌++◌, ◌==◌,
  ltb, min, if◌then◌else◌, length, take, arith, length-append,
}
use mathlib.Core.List.{append_assoc}
use swtpm.Common.Result.{ioerror, Rc, success, error, ◌>>>◌}
use swtpm.Host.{Host}
use swtpm.Ctrl.{Read, got, Env}
use swtpm.Ctrl.Blobs.{
  Gathered, after_read, gather, setstate_data_size, hash_data_size, hash_rest, hash_all,
}

-- the reads that give these pieces
unfoldable pub reads_of : List (List ℕ) → List Read
reads_of [] = []
reads_of (piece ∷ pieces) = got piece ∷ reads_of pieces

unfoldable pub joined : List (List ℕ) → List ℕ
joined [] = []
joined (piece ∷ pieces) = piece ++ joined pieces

-- what reads of at most `limit` bytes can give
pub data ArePieces (limit : ℕ) : List (List ℕ) → Type 0 where
  empty : ArePieces limit []
  more :
      (piece : List ℕ) (pieces : List (List ℕ))
      → 0 < length piece
      → length piece ≤ limit
      → ArePieces limit pieces
      → ArePieces limit (piece ∷ pieces)

take_short : (n : ℕ) (xs : List ℕ) → length xs ≤ n → take n xs ≡ xs
take_short zero [] h = refl
take_short zero (x ∷ xs) h = absurd (omega arith)
take_short (suc n) [] h = refl
take_short (suc n) (x ∷ xs) h = ap (λ r. x ∷ r) (take_short n xs (omega arith))

pub append-nil : (xs : List ℕ) → xs ++ [] ≡ xs
append-nil [] = refl
append-nil (x ∷ xs) = ap (λ r. x ∷ r) (append-nil xs)

-- The loop of ctrlchannel_receive_state collects what it was announced, however it arrives: with pieces that
-- each fit a read and that make up the rest, it gives what is collected, what was just read, and the pieces.
pub gather-joined :
    (pieces : List (List ℕ)) (remain : ℕ) (blob bytes : List ℕ)
    → ArePieces setstate_data_size pieces
    → length bytes + length (joined pieces) ≡ remain
    → gather (reads_of pieces) remain blob bytes ≡ Gathered.whole (blob ++ bytes ++ joined pieces)
unfolding gather after_read reads_of joined
gather-joined [] remain blob bytes empty h =
    let exact : (remain == length bytes) ≡ true = ground arith in
    let enough : ltb remain (length bytes) ≡ false = ground arith in
    rw (enough, exact, append-nil (blob ++ bytes)) refl
gather-joined (piece ∷ pieces) remain blob bytes (more _ _ some_bytes fits rest) h =
    let total = length-append piece (joined pieces) in
    let unfinished : (remain == length bytes) ≡ false = ground (arith, total) in
    let enough : ltb remain (length bytes) ≡ false = ground (arith, total) in
    let not_the_end : (length piece == 0) ≡ false = ground arith in
    rw
      (
        enough,
        unfinished,
        not_the_end,
        take_short setstate_data_size piece fits,
        gather-joined pieces (remain - length bytes) (blob ++ bytes) piece rest
            (omega (arith, total)),
      )
      (ap Gathered.whole (append_assoc (blob ++ bytes) piece (joined pieces)))

module _ {T R W : Type 0} (env : Env T R W) where
  -- A hash is of the bytes, in whatever portions they are given.
  unfoldable pub HashesBytes : Type 0
  HashesBytes =
      (xs ys : List ℕ) (h : Host T R W)
      → env.libtpms.hash_data (xs ++ ys) h
        ≡ (env.libtpms.hash_data xs h >>> env.libtpms.hash_data ys)

  hash_rest_done : (remain : ℕ) (r : Rc × Host T R W) → remain ≡ 0 → hash_rest env [] remain r ≡ r
  unfolding hash_rest
  hash_rest_done remain (error c, h) e = refl
  hash_rest_done remain (success, h) e =
      let done : (remain == 0) ≡ true = ground arith in rw done refl

  hash_rest-joined :
      (law : HashesBytes) (pieces : List (List ℕ)) (remain : ℕ) (bytes : List ℕ) (h : Host T R W)
      → ArePieces hash_data_size pieces
      → length (joined pieces) ≡ remain
      → hash_rest env (reads_of pieces) remain (env.libtpms.hash_data bytes h)
        ≡ env.libtpms.hash_data (bytes ++ joined pieces) h
  unfolding hash_rest reads_of joined HashesBytes
  hash_rest-joined law [] remain bytes h empty e =
      hash_rest_done remain (env.libtpms.hash_data bytes h) (sym e)
      ∙ ap (λ b. env.libtpms.hash_data b h) (sym (append-nil bytes))
  hash_rest-joined law (piece ∷ pieces) remain bytes h (more _ _ some_bytes fits rest) e =
      rw (law bytes (piece ++ joined pieces) h) (
        by_result (hash_rest-joined law pieces (remain - length piece) piece)
          (env.libtpms.hash_data bytes h))
    where
      by_result :
          ((h' : Host T R W)
            → ArePieces hash_data_size pieces
            → length (joined pieces) ≡ remain - length piece
            → hash_rest env
                (reads_of pieces)
                (remain - length piece)
                (env.libtpms.hash_data piece h')
              ≡ env.libtpms.hash_data (piece ++ joined pieces) h')
          → (r : Rc × Host T R W)
          → hash_rest env (reads_of (piece ∷ pieces)) remain r
            ≡ (r >>> env.libtpms.hash_data (piece ++ joined pieces))
      by_result again (error c, h') = refl
      by_result again (success, h') = by_portion (take (min remain hash_data_size) piece) (
          take_short (min remain hash_data_size) piece
            (omega (arith, length-append piece (joined pieces))))
        where
          by_portion :
              (portion : List ℕ)
              → portion ≡ piece
              → (if remain == 0
                  then (success, h')
                  else if length portion == 0
                  then (error ioerror, h')
                  else hash_rest env
                      (reads_of pieces)
                      (remain - length portion)
                      (env.libtpms.hash_data portion h'))
                ≡ env.libtpms.hash_data (piece ++ joined pieces) h'
          by_portion portion same =
              let total = length-append piece (joined pieces) in
              let unfinished : (remain == 0) ≡ false = ground (arith, total) in
              let not_the_end : (length piece == 0) ≡ false = ground arith in
              rw (unfinished, same, not_the_end) (again h' rest (omega (arith, total)))

  -- CMD_HASH_DATA hashes exactly the bytes that were announced, however they arrive: with pieces that each fit a
  -- read and make up the rest, it does what one TPM_IO_Hash_Data of all of them does, for a libtpms whose
  -- hash does not depend on the portions.
  pub hash_all-joined :
      (law : HashesBytes) (pieces : List (List ℕ)) (remain : ℕ) (bytes : List ℕ) (h : Host T R W)
      → ArePieces hash_data_size pieces
      → length bytes + length (joined pieces) ≡ remain
      → hash_all env (reads_of pieces) remain bytes h
        ≡ env.libtpms.hash_data (bytes ++ joined pieces) h
  unfolding hash_all
  hash_all-joined law pieces remain bytes h all e =
      hash_rest-joined law pieces (remain - length bytes) bytes h all (omega arith)
