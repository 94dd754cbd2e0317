-- ===== src/Setup/Written.antt =====
-- What the commands that swtpm_tpm2_write_nvram of src/swtpm_setup/swtpm.c sends do to the NVRAM.
use swtpm.Common.{
  ℕ, zero, suc, ◌+◌, ◌-◌, ◌≡◌, ◌<◌, ◌≤◌, refl, sym, ap, ◌∙◌, Bool, true, false, Option, none, some,
  List, [], ◌∷◌, ◌++◌, ◌==◌, leb, if◌then◌else◌, length, take, drop, min, replicate, u16_mod,
  u32_mod, length-append, length-take, length-drop, length-replicate, take-append, drop-append,
  drop-add, take-drop_append, arith, Bool-cases, inl, inr,
}
use mathlib.Core.List.{append-nil, append_assoc}
use swtpm.Setup.{Bytes, Sockets, Link, answered, polled, written, transfer, command}
use swtpm.Setup.Nvram.{
  definespace_request, write_request, writelock_request, nvdefinespace, ◌then_do◌, nv_write_from,
  nv_write, nv_writelock, write_nvram,
}
use swtpm.Setup.NvSpec.{
  Area, undefined_area, NvCommand, define, write, lock, parse_nv, write_area, define_area,
  lock_area, apply_nv, apply_parsed, replay,
}
use swtpm.Setup.Parsed.{
  parse_nv-definespace_request, parse_nv-write_request, parse_nv-writelock_request,
}

replay-append :
    (index : ℕ) (a : Option Area) (rs ss : List Bytes)
    → replay index a (rs ++ ss) ≡ replay index (replay index a rs) ss
unfolding replay
replay-append index a [] ss = refl
replay-append index none (r ∷ rs) [] = refl
replay-append index none (r ∷ rs) (s ∷ ss) = refl
replay-append index (some a) (r ∷ rs) ss =
    replay-append index (apply_parsed index a (parse_nv r)) rs ss

-- a command that the TPM takes
replay_one :
    (index : ℕ) (a b : Area) (r : Bytes) (c : NvCommand)
    → parse_nv r ≡ some c
    → apply_nv index a c ≡ some b
    → replay index (some a) (r ∷ []) ≡ some b
unfolding replay
replay_one index a b r c p q = rw p q

module _ {W : Type 0} (sockets : Sockets W) where
  answered-log :
      (c : Bool) (size : ℕ) (sent : List Bytes) (r : Option Bytes × W)
      → (answered sockets c size sent r).link.sent ≡ sent
  unfolding answered
  answered-log c size sent (none, w) = refl
  answered-log c size sent (some resp, w) = ground arith

  polled-log :
      (c : Bool) (size : ℕ) (sent : List Bytes) (r : Bool × W)
      → (polled sockets c size sent r).link.sent ≡ sent
  unfolding polled
  polled-log c size sent (false, w) = refl
  polled-log c size sent (true, w) = answered-log c size sent (sockets.read c w)

  written-log :
      (c : Bool) (b : Bytes) (size : ℕ) (sent : List Bytes) (r : Option ℕ × W)
      → (written sockets c b size sent r).done ≡ true
      → (written sockets c b size sent r).link.sent ≡ sent ++ b ∷ []
  unfolding written
  written-log c b size sent (none, w) h = cc
  written-log c b size sent (some n, w) h = elim (Bool-cases (n == length b)) [
    | inl e ↦ rw e (polled-log c size (sent ++ b ∷ []) (sockets.poll c w))
    | inr e ↦ cc (rw e at h)
  ]

  command-log :
      (b : Bytes) (l : Link W)
      → (command sockets b l).0 ≡ true
      → (command sockets b l).1.sent ≡ l.sent ++ b ∷ []
  unfolding command transfer
  command-log b l h = written-log false b 0 l.sent (sockets.write false b l.world) h

  -- A function that returned 0 has sent commands that turn the area a into b.
  pub record Makes (index : ℕ) (a b : Option Area) (l : Link W) (r : Bool × Link W) : Type 0 where
    pub made : r.0 ≡ true → (rs : List Bytes) × (r.1.sent ≡ l.sent ++ rs) × (replay index a rs ≡ b)

  command-Makes :
      (index : ℕ) (a b : Area) (r : Bytes) (c : NvCommand) (l : Link W)
      → parse_nv r ≡ some c
      → apply_nv index a c ≡ some b
      → Makes index (some a) (some b) l (command sockets r l)
  command-Makes index a b r c l p q = record {
    made = λ h. (r ∷ [], command-log r l h, replay_one index a b r c p q);
  }

  done-Makes : (index : ℕ) (a : Option Area) (l : Link W) → Makes index a a l (true, l)
  unfolding replay
  done-Makes index a l = record { made = λ h. ([], sym (append-nil l.sent), refl) }

  then_do-Makes :
      (index : ℕ) (a b c : Option Area) (l : Link W) (r : Bool × Link W)
      (next : Link W → Bool × Link W)
      → Makes index a b l r
      → ((l' : Link W) → Makes index b c l' (next l'))
      → Makes index a c l (◌then_do◌ sockets r next)
  then_do-Makes index a b c l (false, l') next m n = record { made = λ h. cc }
  then_do-Makes index a b c l (true, l') next m n = record {
    made = λ h.
        let (rs, log, made) = m.made refl in
        let (ss, log', made') = (n l').made h in
        (
          rs ++ ss,
          log' ∙ ap (λ x. x ++ ss) log ∙ append_assoc l.sent rs ss,
          replay-append index a rs ss ∙ ap (λ x. replay index x ss) made ∙ made',
        );
  }

  module _ (index attributes : ℕ) (small : index < u32_mod) where
    -- the area with these contents
    abbrev holding : Bytes → Area
    holding c = record { attributes = attributes; content = some c; locked = false }

    this_index : (index == index) ≡ true
    this_index = ground arith

    apply_nv-define :
        (size : ℕ)
        → apply_nv index undefined_area (define index attributes size)
          ≡ some (holding (replicate size 255))
    unfolding apply_nv define_area
    apply_nv-define size = rw this_index refl

    apply_nv-lock :
        (bytes : Bytes)
        → apply_nv index (holding bytes) (lock index)
          ≡ some (record (holding bytes) { locked = true })
    unfolding apply_nv lock_area
    apply_nv-lock bytes = rw this_index refl

    -- A piece written behind what is done.
    apply_nv-write :
        (done old bytes : Bytes) (offset : ℕ)
        → offset ≡ length done
        → length bytes ≤ length old
        → apply_nv index (holding (done ++ old)) (write index bytes offset)
          ≡ some (holding ((done ++ bytes) ++ drop (length bytes) old))
    unfolding apply_nv write_area
    apply_nv-write done old bytes offset e fits =
        let room : leb (offset + length bytes) (length (done ++ old)) ≡ true =
          ground (arith, length-append done old) in
        rw (this_index, room)
          (ap (λ c. some (holding c))
            (ap (λ x. x ++ (bytes ++ drop (offset + length bytes) (done ++ old)))
                (take-append offset done old e)
              ∙ sym (append_assoc done bytes (drop (offset + length bytes) (done ++ old)))
              ∙ ap (λ x. (done ++ bytes) ++ x)
                  (drop-add offset (length bytes) (done ++ old)
                    ∙ ap (drop (length bytes)) (drop-append offset done old e))))

    -- The loop writes what is left behind what is done.
    nv_write_from-Makes :
        (fuel : ℕ) (done old bytes : Bytes) (offset : ℕ) (l : Link W)
        → offset ≡ length done
        → length old ≡ length bytes
        → offset + length bytes < u16_mod
        → Makes index
            (some (holding (done ++ old)))
            (some (holding (done ++ bytes)))
            l
            (nv_write_from sockets fuel index bytes offset l)
    unfolding nv_write_from
    nv_write_from-Makes fuel done [] [] offset l e s n =
        done-Makes index (some (holding (done ++ []))) l
    nv_write_from-Makes fuel done (o ∷ os) [] offset l e s n = absurd (omega arith)
    nv_write_from-Makes zero done old (b ∷ bs) offset l e s n = record { made = λ h. cc }
    nv_write_from-Makes (suc f) done old (b ∷ bs) offset l e s n =
        let t = min (length (b ∷ bs)) 1024 in
        let piece = take t (b ∷ bs) in
        let rest = drop t (b ∷ bs) in
        let length_piece : length piece ≡ t = omega (arith, length-take t (b ∷ bs)) in
        let length_rest : length rest ≡ length (b ∷ bs) - t = length-drop t (b ∷ bs) in
        let length_left : length (drop (length piece) old) ≡ length old - length piece =
          length-drop (length piece) old in
        then_do-Makes index (some (holding (done ++ old)))
          (some (holding ((done ++ piece) ++ drop (length piece) old)))
          (some (holding (done ++ b ∷ bs))) l (command sockets (write_request index piece offset) l)
          (nv_write_from sockets f index rest (offset + t))
          (command-Makes index (holding (done ++ old))
            (holding ((done ++ piece) ++ drop (length piece) old))
            (write_request index piece offset) (write index piece offset) l
            (parse_nv-write_request index piece offset small (omega arith) (omega arith))
            (apply_nv-write done old piece offset e (omega arith)))
          (λ l'.
            let step =
              nv_write_from-Makes f (done ++ piece) (drop (length piece) old) rest (offset + t) l'
                (omega (arith, length-append done piece)) (omega arith) (omega arith) in
            let joined : (done ++ piece) ++ rest ≡ done ++ b ∷ bs =
              append_assoc done piece rest ∙ ap (λ x. done ++ x) (take-drop_append t (b ∷ bs)) in
            rw joined at step)

    define-Makes :
        (bytes : Bytes) (l : Link W)
        → attributes < u32_mod
        → length bytes < u16_mod
        → Makes index
            (some undefined_area)
            (some (holding (replicate (length bytes) 255)))
            l
            (nvdefinespace sockets index attributes (length bytes) l)
    unfolding nvdefinespace
    define-Makes bytes l h n =
        command-Makes index undefined_area (holding (replicate (length bytes) 255))
          (definespace_request index attributes (length bytes))
          (define index attributes (length bytes)) l
          (parse_nv-definespace_request index attributes (length bytes) small h n)
          (apply_nv-define (length bytes))

    nv_write-Makes :
        (bytes : Bytes) (l : Link W)
        → length bytes < u16_mod
        → Makes index
            (some (holding (replicate (length bytes) 255)))
            (some (holding bytes))
            l
            (nv_write sockets index bytes l)
    unfolding nv_write
    nv_write-Makes bytes l n =
        nv_write_from-Makes (length bytes) [] (replicate (length bytes) 255) bytes 0 l refl
          (length-replicate (length bytes) 255) (omega arith)

    locked_if-Makes :
        (bytes : Bytes) (b : Bool) (l : Link W)
        → Makes index
            (some (holding bytes))
            (some (record (holding bytes) { locked = b }))
            l
            (if b then nv_writelock sockets index l else (true, l))
    unfolding nv_writelock
    locked_if-Makes bytes false l = done-Makes index (some (holding bytes)) l
    locked_if-Makes bytes true l =
        command-Makes index (holding bytes) (record (holding bytes) { locked = true })
          (writelock_request index) (lock index) l (parse_nv-writelock_request index small)
          (apply_nv-lock bytes)

    write_nvram-Makes :
        (bytes : Bytes) (b : Bool) (l : Link W)
        → attributes < u32_mod
        → length bytes < u16_mod
        → Makes index
            (some undefined_area)
            (some (record (holding bytes) { locked = b }))
            l
            (write_nvram sockets index attributes bytes b l)
    unfolding write_nvram
    write_nvram-Makes bytes b l h n =
        then_do-Makes index _ _ _ l _ _
          (then_do-Makes index _ _ _ l _ _ (define-Makes bytes l h n)
            (λ l'. nv_write-Makes bytes l' n))
          (locked_if-Makes bytes b)

  -- What swtpm_tpm2_write_nvram has sent where it returns 0.
  pub write_nvram-replay :
      (index attributes : ℕ) (bytes : Bytes) (lock_nvram : Bool) (l : Link W)
      → index < u32_mod
      → attributes < u32_mod
      → length bytes < u16_mod
      → (write_nvram sockets index attributes bytes lock_nvram l).0 ≡ true
      → (rs : List Bytes) × ((write_nvram sockets index attributes bytes lock_nvram l).1.sent
          ≡ l.sent ++ rs)
        × (replay index (some undefined_area) rs
            ≡ some (record { attributes = attributes; content = some bytes; locked = lock_nvram }))
  write_nvram-replay index attributes bytes b l h k n =
      (write_nvram-Makes index attributes h bytes b l k n).made
