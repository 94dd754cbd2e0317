-- ===== src/Setup/Willing.antt =====
-- When swtpm_tpm2_write_nvram of src/swtpm_setup/swtpm.c succeeds.
use swtpm.Common.{
  ℕ, zero, suc, ◌+◌, ◌≡◌, ◌<◌, ◌≤◌, refl, ◌⊎◌, inl, inr, u16_mod, u32_mod, Bool, true, false,
  Option, none, some, List, [], ◌∷◌, ◌++◌, ◌==◌, ==_iff, ltb, if◌then◌else◌, length, take, drop,
  get32, min, length-drop, arith,
}
use swtpm.Setup.{Bytes, Sockets, Link, answered, polled, written, transfer, command}
use swtpm.Setup.Nvram.{
  write_request, writelock_request, nvdefinespace, ◌then_do◌, nv_write_from, nv_write, nv_writelock,
  write_nvram,
}
use swtpm.Setup.NvSpec.{undefined_area, replay}
use swtpm.Setup.Written.{write_nvram-replay}

module _ {W : Type 0} (sockets : Sockets W) where
  -- Sockets over which every command on the data channel is taken and answered with success.
  pub record Willing : Type 0 where
    pub takes : (b : Bytes) (w : W) → (sockets.write false b w).0 ≡ some (length b)
    pub ready : (w : W) → (sockets.poll false w).0 ≡ true
    pub answers :
        (w : W)
        → (resp : Bytes) × ((sockets.read false w).0 ≡ some resp)
          × (10 ≤ length resp)
          × (get32 resp 6 ≡ 0)

  module _ (willing : Willing) where
    answered-Willing :
        (sent : List Bytes) (r : Option Bytes × W) (resp : Bytes)
        → r.0 ≡ some resp
        → 10 ≤ length resp
        → get32 resp 6 ≡ 0
        → (answered sockets false 0 sent r).done ≡ true
    unfolding answered
    answered-Willing sent (none, w) resp e h z = cc
    answered-Willing sent (some x, w) resp e h z =
        let same : x ≡ resp = cc in
        let long : ltb (length resp) 10 ≡ false = ground arith in
        let zero_code : (get32 resp 6 == 0) ≡ true = (==_iff (get32 resp 6) 0).1 z in
        rw same (rw long zero_code)

    polled-Willing :
        (sent : List Bytes) (r : Bool × W)
        → r.0 ≡ true
        → (polled sockets false 0 sent r).done ≡ true
    unfolding polled
    polled-Willing sent (false, w) e = cc
    polled-Willing sent (true, w) e =
        let (resp, got, long, code) = willing.answers w in
        answered-Willing sent (sockets.read false w) resp got long code

    written-Willing :
        (b : Bytes) (sent : List Bytes) (r : Option ℕ × W)
        → r.0 ≡ some (length b)
        → (written sockets false b 0 sent r).done ≡ true
    unfolding written
    written-Willing b sent (none, w) e = cc
    written-Willing b sent (some n, w) e =
        let same : n ≡ length b = cc in
        rw (same, (==_iff (length b) (length b)).1 refl)
          (polled-Willing (sent ++ b ∷ []) (sockets.poll false w) (willing.ready w))

    command-Willing : (b : Bytes) (l : Link W) → (command sockets b l).0 ≡ true
    unfolding command transfer
    command-Willing b l =
        written-Willing b l.sent (sockets.write false b l.world) (willing.takes b l.world)

    then_do-Willing :
        (r : Bool × Link W) (next : Link W → Bool × Link W)
        → r.0 ≡ true
        → ((l : Link W) → (next l).0 ≡ true)
        → (◌then_do◌ sockets r next).0 ≡ true
    then_do-Willing (false, l) next e n = cc
    then_do-Willing (true, l) next e n = n l

    nv_write_from-Willing :
        (fuel index : ℕ) (bytes : Bytes) (offset : ℕ) (l : Link W)
        → length bytes ≤ fuel
        → (nv_write_from sockets fuel index bytes offset l).0 ≡ true
    unfolding nv_write_from
    nv_write_from-Willing zero index [] offset l h = refl
    nv_write_from-Willing (suc f) index [] offset l h = refl
    nv_write_from-Willing zero index (b ∷ bs) offset l h = absurd (omega arith)
    nv_write_from-Willing (suc f) index (b ∷ bs) offset l h =
        let t = min (length (b ∷ bs)) 1024 in
        then_do-Willing (command sockets (write_request index (take t (b ∷ bs)) offset) l)
          (nv_write_from sockets f index (drop t (b ∷ bs)) (offset + t))
          (command-Willing (write_request index (take t (b ∷ bs)) offset) l)
          (λ l'.
            nv_write_from-Willing f index (drop t (b ∷ bs)) (offset + t) l'
              (omega (arith, length-drop t (b ∷ bs))))

    locked_if-Willing :
        (b : Bool) (index : ℕ) (l : Link W)
        → (if b then nv_writelock sockets index l else (true, l)).0 ≡ true
    unfolding nv_writelock
    locked_if-Willing true index l = command-Willing (writelock_request index) l
    locked_if-Willing false index l = refl

    -- Over sockets that take every command whole and answer it with success, swtpm_tpm2_write_nvram returns
    -- 0, for data of any length: its loop ends within its fuel.
    write_nvram-Succeeds :
        (index attributes : ℕ) (bytes : Bytes) (b : Bool) (l : Link W)
        → (write_nvram sockets index attributes bytes b l).0 ≡ true
    unfolding write_nvram nvdefinespace nv_write
    write_nvram-Succeeds index attributes bytes b l =
        then_do-Willing _ _
          (then_do-Willing _ _ (command-Willing _ l)
            (λ l'. nv_write_from-Willing (length bytes) index bytes 0 l' (omega arith)))
          (λ l'. locked_if-Willing b index l')

  -- For an index and attributes of 32 bits and less than 2 ^ 16 bytes. Where swtpm_tpm2_write_nvram
  -- returns 0, or the sockets take every command whole and answer it with success: it returns 0, and
  -- the commands that it has sent, read by the TPM's layout and applied in order to an index that is not defined,
  -- are all taken and leave it with the attributes, with just the data, and locked as was asked for.
  pub write_nvram-Stores :
      (index attributes : ℕ) (bytes : Bytes) (lock_nvram : Bool) (l : Link W)
      → index < u32_mod
      → attributes < u32_mod
      → length bytes < u16_mod
      → ((write_nvram sockets index attributes bytes lock_nvram l).0 ≡ true) ⊎ Willing
      → ((write_nvram sockets index attributes bytes lock_nvram l).0 ≡ true)
        × (rs : List Bytes) × ((write_nvram sockets index attributes bytes lock_nvram l).1.sent
            ≡ l.sent ++ rs)
        × (replay index (some undefined_area) rs
            ≡ some (record { attributes = attributes; content = some bytes; locked = lock_nvram }))
  write_nvram-Stores index attributes bytes b l h k n (inl returned) =
      let (rs, sent, stored) =
        write_nvram-replay sockets index attributes bytes b l h k n returned in
      (returned, rs, sent, stored)
  write_nvram-Stores index attributes bytes b l h k n (inr willing) =
      let returned = write_nvram-Succeeds willing index attributes bytes b l in
      let (rs, sent, stored) =
        write_nvram-replay sockets index attributes bytes b l h k n returned in
      (returned, rs, sent, stored)
