-- ===== src/Mainloop/Locked.antt =====
-- Where src/swtpm/mainloop.c takes the storage to be locked, the lock is held.
use swtpm.Common.{
  ℕ, Bool, true, false, Option, none, some, List, if◌then◌else◌, ◌≡◌, refl, ◌⊎◌, inl, inr,
  Bool-cases,
}
use swtpm.Common.Result.{Rc, success, error}
use swtpm.Mainloop.{
  LockOps, Storage, MainLoopParams, lock_with, lock_storage, after_lock, ensure_locked_storage,
  unlock_nvram,
}

-- A backend's lock that succeeds is held.
pub record LockLaws {W : Type 0} (st : Storage W) : Type 1 where
  pub Held : W → Type 0
  pub lock_holds :
      (ops : LockOps W)
      → st.backend ≡ some ops
      → (uri : List ℕ) (retries : ℕ) (w w' : W) → ops.lock uri retries w ≡ (success, w')
      → Held w'

module _ {W : Type 0} (st : Storage W) (laws : LockLaws st) where
  -- Locked, as far as locking was asked for.
  abbrev pub Locked : W → Type 0
  Locked w = (st.locking ≡ false) ⊎ laws.Held w

  -- The flag tells the truth.
  abbrev pub IsTrue : MainLoopParams → W → Type 0
  IsTrue mlp w = mlp.storage_locked ≡ true → Locked w

  -- A call of mainloop_ensure_locked_storage or mainloop_unlock_nvram.
  pub data Step : MainLoopParams × W → MainLoopParams × W → Type 0 where
    ensure :
        (mlp : MainLoopParams) (w : W)
        → Step (mlp, w) ((ensure_locked_storage st mlp w).1, (ensure_locked_storage st mlp w).2)
    release :
        (mlp : MainLoopParams) (retries : ℕ) (w : W) → Step (mlp, w) (unlock_nvram st mlp retries w)

  pub data Run : MainLoopParams × W → MainLoopParams × W → Type 0 where
    done : (s : MainLoopParams × W) → Run s s
    next : {s s' s'' : MainLoopParams × W} → Step s s' → Run s' s'' → Run s s''

  lock_with-Held :
      (b : Option (LockOps W)) (uri : Option (List ℕ)) (retries : ℕ) (w w' : W)
      → st.backend ≡ b
      → lock_with b uri retries w ≡ (success, w')
      → laws.Held w'
  unfolding lock_with
  lock_with-Held none uri retries w w' e h = cc
  lock_with-Held (some ops) none retries w w' e h = cc
  lock_with-Held (some ops) (some uri) retries w w' e h = laws.lock_holds ops e uri retries w w' h

  lock_storage-Locked :
      (retries : ℕ) (w w' : W) → lock_storage st retries w ≡ (success, w') → Locked w'
  unfolding lock_storage
  lock_storage-Locked retries w w' h = elim (Bool-cases st.locking) [
    | inl on ↦ inr (lock_with-Held st.backend st.backend_uri retries w w' refl (rw on at h))
    | inr off ↦ inl off
  ]

  after_lock-IsTrue :
      (mlp : MainLoopParams) (r : Rc × W)
      → mlp.storage_locked ≡ false
      → ((w' : W) → r ≡ (success, w') → Locked w')
      → IsTrue (after_lock mlp r).1 (after_lock mlp r).2
  unfolding after_lock
  after_lock-IsTrue mlp (success, w) off h on = h w refl
  after_lock-IsTrue mlp (error e, w) off h on = cc

  ensure-IsTrue :
      (mlp : MainLoopParams) (w : W)
      → IsTrue mlp w
      → IsTrue (ensure_locked_storage st mlp w).1 (ensure_locked_storage st mlp w).2
  unfolding ensure_locked_storage
  ensure-IsTrue mlp w h = by_flag mlp.storage_locked refl
    where
      by_flag :
          (b : Bool)
          → mlp.storage_locked ≡ b
          → IsTrue
              (if b
                then (true, mlp, w)
                else after_lock mlp (lock_storage st mlp.locking_retries w)).1
              (if b
                then (true, mlp, w)
                else after_lock mlp (lock_storage st mlp.locking_retries w)).2
      by_flag true on = h
      by_flag false off =
          after_lock-IsTrue mlp (lock_storage st mlp.locking_retries w) off
            (lock_storage-Locked mlp.locking_retries w)

  Step-IsTrue : {s s' : MainLoopParams × W} → Step s s' → IsTrue s.0 s.1 → IsTrue s'.0 s'.1
  unfolding unlock_nvram
  Step-IsTrue (ensure mlp w) h = ensure-IsTrue mlp w h
  Step-IsTrue (release mlp retries w) h = λ on. cc

  -- Whatever sequence of mainloop_ensure_locked_storage and mainloop_unlock_nvram is made from a state where the flag tells the truth: where
  -- storage_locked is set afterwards, the backend's lock is held, or locking was not asked for. The
  -- backend's lock is held when it has succeeded.
  pub Run-IsTrue : {s s' : MainLoopParams × W} → Run s s' → IsTrue s.0 s.1 → IsTrue s'.0 s'.1
  Run-IsTrue (done s) h = h
  Run-IsTrue (next step run) h = Run-IsTrue run (Step-IsTrue step h)
