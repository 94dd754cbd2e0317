-- ===== src/Dir/Lock.antt =====
-- The lock of src/swtpm/swtpm_nvstore_dir.c: the static lock_fd, and the loop that tries fcntl().
use swtpm.Common.{
  ℕ, zero, suc, ◌≡◌, refl, Bool, true, false, [], ◌∷◌, ◌++◌, if◌then◌else◌, if_cases,
}
use swtpm.Common.Result.{Rc, success, error, fail}
use swtpm.Mainloop.{LockOps}
use swtpm.Dir.{Bytes, uri_to_dir}

-- Whether lock_fd is a descriptor, and the states W of the system.
pub record Locking (W : Type 0) : Type 0 where
  pub lock_fd : Bool
  pub world : W

-- open() of the lock file, fcntl(F_SETLK), close(), and usleep(10000)
pub record LockCalls (W : Type 0) : Type 0 where
  pub open_lock : Bytes → W → Bool × W
  pub set_lock : W → Bool × W
  pub close_lock : W → W
  pub usleep : W → W

-- "/.lock"
abbrev pub lock_name : Bytes
lock_name = 47 ∷ 46 ∷ 108 ∷ 111 ∷ 99 ∷ 107 ∷ []

module _ {W : Type 0} (calls : LockCalls W) where
  -- SWTPM_NVRAM_Unlock_Dir, which is SWTPM_NVRAM_Cleanup_Dir too
  unfoldable pub unlock_dir : Locking W → Locking W
  unlock_dir s =
      if s.lock_fd then record { lock_fd = false; world = calls.close_lock s.world } else s

  -- the loop; lock_fd is open
  unfoldable pub try_lock : ℕ → Bool × W → Rc × Locking W
  try_lock retries (true, w) = (success, record { lock_fd = true; world = w })
  try_lock zero (false, w) = (error fail, unlock_dir (record { lock_fd = true; world = w }))
  try_lock (suc retries) (false, w) = try_lock retries (calls.set_lock (calls.usleep w))

  unfoldable pub opened_lock : ℕ → Bool × W → Rc × Locking W
  opened_lock retries (false, w) = (error fail, record { lock_fd = false; world = w })
  opened_lock retries (true, w) = try_lock retries (calls.set_lock w)

  -- SWTPM_NVRAM_Lock_Dir; asprintf(), which fails for want of memory, is left out
  unfoldable pub lock_dir : Bytes → ℕ → Locking W → Rc × Locking W
  lock_dir uri retries s =
      if s.lock_fd
      then (success, s)
      else opened_lock retries (calls.open_lock (uri_to_dir uri ++ lock_name) s.world)

  -- nvram_dir_ops as far as the lock goes
  abbrev pub dir_lock_ops : LockOps (Locking W)
  dir_lock_ops = record { lock = lock_dir; unlock = unlock_dir }

  -- An open lock_fd has the lock, given a view of who has it.
  abbrev pub FdHolds : (W → Type 0) → Locking W → Type 0
  FdHolds Held s = s.lock_fd ≡ true → Held s.world

  module _ (Held : W → Type 0)
      (set_lock_holds : (w w' : W) → calls.set_lock w ≡ (true, w') → Held w') where
    -- A result of Lock_Dir: with success lock_fd is open and has the lock, else it is closed.
    pub record Answered (r : Rc × Locking W) : Type 0 where
      pub holds : FdHolds Held r.1
      pub locked : r.0 ≡ success → r.1.lock_fd ≡ true
      pub unlocked : r.1.lock_fd ≡ true → r.0 ≡ success

    try_lock-Answered :
        (retries : ℕ) (w : W) (r : Bool × W) → calls.set_lock w ≡ r → Answered (try_lock retries r)
    unfolding try_lock unlock_dir
    try_lock-Answered retries w (true, w') e = record {
      holds = λ h. set_lock_holds w w' e;
      locked = λ h. refl;
      unlocked = λ h. refl;
    }
    try_lock-Answered zero w (false, w') e = record {
      holds = λ h. cc;
      locked = λ h. cc;
      unlocked = λ h. cc;
    }
    try_lock-Answered (suc n) w (false, w') e =
        try_lock-Answered n (calls.usleep w') (calls.set_lock (calls.usleep w')) refl

    opened_lock-Answered : (retries : ℕ) (r : Bool × W) → Answered (opened_lock retries r)
    unfolding opened_lock
    opened_lock-Answered n (false, w) = record {
      holds = λ h. cc;
      locked = λ h. cc;
      unlocked = λ h. cc;
    }
    opened_lock-Answered n (true, w) = try_lock-Answered n w (calls.set_lock w) refl

    -- However often fcntl() fails: Lock_Dir succeeds just where lock_fd is open behind it, and then
    -- the lock is held, if an open lock_fd had it before.
    pub lock_dir-Answered :
        (uri : Bytes) (retries : ℕ) (s : Locking W)
        → FdHolds Held s
        → Answered (lock_dir uri retries s)
    unfolding lock_dir
    lock_dir-Answered uri n s h =
        if_cases Answered s.lock_fd
          (λ t. record { holds = h; locked = λ e. t; unlocked = λ e. refl })
          (λ t. opened_lock-Answered n (calls.open_lock (uri_to_dir uri ++ lock_name) s.world))

    pub unlock_dir-FdHolds : (s : Locking W) → FdHolds Held s → FdHolds Held (unlock_dir s)
    unfolding unlock_dir
    unlock_dir-FdHolds s h = if_cases (FdHolds Held) s.lock_fd (λ t e. cc) (λ t. h)
