-- ===== src/Common/Memory.antt =====
-- The bytes behind a pointer, as a function of the index, with memcpy and memmove, and arrays of
-- records as functions of the index.
use mathlib.Core.Path.{ap₂}
use swtpm.Common.{
  ℕ, zero, suc, ◌+◌, ◌-◌, ◌≤◌, ◌<◌, ◌≡◌, ◌≢◌, ◌⊎◌, inl, inr, Bool-cases, ==_iff, refl, ap, ◌∙◌,
  ◌&&◌, List, [], ◌∷◌, leb, ltb, ◌==◌, if◌then◌else◌, length, get_or, arith,
}

abbrev pub Memory : Type 0
Memory = ℕ → ℕ

-- the bytes at off .. off + n
pub read : Memory → ℕ → ℕ → List ℕ
read m off zero = []
read m off (suc n) = m off ∷ read m (off + 1) n

-- memcpy(m + off, bytes, length)
pub write : Memory → ℕ → List ℕ → Memory
write m off bytes i =
    if leb off i && ltb i (off + length bytes) then get_or bytes (i - off) 0 else m i

-- memmove(m + dst, m + src, n)
pub move : Memory → ℕ → ℕ → ℕ → Memory
move m dst src n i = if leb dst i && ltb i (dst + n) then m (i - dst + src) else m i

abbrev pub update {ℓ} : {A : Type ℓ} → (ℕ → A) → ℕ → A → ℕ → A
update f k v i = if i == k then v else f i

pub length-read : (m : Memory) (off n : ℕ) → length (read m off n) ≡ n
unfolding read
length-read m off zero = refl
length-read m off (suc n) = ap suc (length-read m (off + 1) n)

-- Two regions with the same bytes, at a shift, read the same.
pub read_shift :
    (m m' : Memory) (a b n : ℕ)
    → ((k : ℕ) → k < n → m (a + k) ≡ m' (b + k))
    → read m a n ≡ read m' b n
unfolding read
read_shift m m' a b zero h = refl
read_shift m m' a b (suc n) h =
    ap₂ ◌∷◌
      (ap m {x = a} {y = a + 0} (omega arith)
        ∙ h 0 (omega arith)
        ∙ ap m' {x = b + 0} {y = b} (omega arith))
      (read_shift m m' (a + 1) (b + 1) n (λ k p.
        ap m {x = a + 1 + k} {y = a + (k + 1)} (omega arith)
        ∙ h (k + 1) (omega arith)
        ∙ ap m' {x = b + (k + 1)} {y = b + 1 + k} (omega arith)))

-- A list laid out in memory reads back.
pub read_of_list :
    (m : Memory) (off n : ℕ) (bytes : List ℕ)
    → n ≡ length bytes
    → ((k : ℕ) → k < n → m (off + k) ≡ get_or bytes k 0)
    → read m off n ≡ bytes
unfolding read
read_of_list m off zero [] e h = refl
read_of_list m off zero (x ∷ xs) e h = absurd (omega arith)
read_of_list m off (suc n) [] e h = absurd (omega arith)
read_of_list m off (suc n) (x ∷ xs) e h =
    ap₂ ◌∷◌ (ap m {x = off} {y = off + 0} (omega arith) ∙ h 0 (omega arith)) (
      read_of_list m (off + 1) n xs (omega arith)
        (λ k p. ap m {x = off + 1 + k} {y = off + suc k} (omega arith) ∙ h (suc k) (omega arith)))

pub write_inside :
    (m : Memory) (off : ℕ) (bytes : List ℕ) (k : ℕ)
    → k < length bytes
    → write m off bytes (off + k) ≡ get_or bytes k 0
unfolding write
write_inside m off bytes k p = let e : off + k - off ≡ k = omega arith in rw e (ground arith)

pub write_outside :
    (m : Memory) (off : ℕ) (bytes : List ℕ) (i : ℕ)
    → (i < off) ⊎ (off + length bytes ≤ i)
    → write m off bytes i ≡ m i
unfolding write
write_outside m off bytes i h = ground arith

-- What memcpy has written reads back.
pub read-write_self :
    (m : Memory) (off : ℕ) (bytes : List ℕ) → read (write m off bytes) off (length bytes) ≡ bytes
read-write_self m off bytes =
    read_of_list (write m off bytes) off (length bytes) bytes refl (write_inside m off bytes)

-- memcpy changes nothing apart from its target.
pub read-write_apart :
    (m : Memory) (off : ℕ) (bytes : List ℕ) (a n : ℕ)
    → (a + n ≤ off) ⊎ (off + length bytes ≤ a)
    → read (write m off bytes) a n ≡ read m a n
read-write_apart m off bytes a n h =
    read_shift (write m off bytes) m a a n (λ k p. write_outside m off bytes (a + k) (omega arith))

-- memmove takes its bytes along.
pub read-move_inside :
    (m : Memory) (dst src n a b l : ℕ)
    → dst ≤ a
    → a + l ≤ dst + n
    → a + src ≡ b + dst
    → read (move m dst src n) a l ≡ read m b l
unfolding move
read-move_inside m dst src n a b l low high e =
    read_shift (move m dst src n) m a b l (λ k p. moved k p)
  where
    moved : (k : ℕ) → k < l → move m dst src n (a + k) ≡ m (b + k)
    moved k p = let e' : a + k - dst + src ≡ b + k = omega arith in rw e' (ground arith)

-- memmove changes nothing before its target.
pub read-move_before :
    (m : Memory) (dst src n a l : ℕ) → a + l ≤ dst → read (move m dst src n) a l ≡ read m a l
unfolding move
read-move_before m dst src n a l h = read_shift (move m dst src n) m a a l (λ k p. ground arith)

-- An updated array, seen through a predicate.
pub update-elim {ℓ κ} :
    {A : Type ℓ} (P : A → Type κ) (f : ℕ → A) (k : ℕ) (v : A) (i : ℕ)
    → (i ≡ k → P v)
    → (i ≢ k → P (f i))
    → P (update f k v i)
update-elim P f k v i new old = elim (Bool-cases (i == k)) [
  | inl e ↦ rw e (new ((==_iff i k).0 e))
  | inr ne ↦ rw ne (old (λ e. absurd (ground arith)))
]

pub update_self {ℓ} : {A : Type ℓ} (f : ℕ → A) (k : ℕ) (v : A) → update f k v k ≡ v
update_self f k v = update-elim (λ x. x ≡ v) f k v k (λ _. refl) (λ ne. absurd (ne refl))

pub update_ne {ℓ} : {A : Type ℓ} (f : ℕ → A) (k : ℕ) (v : A) (i : ℕ) → i ≢ k → update f k v i ≡ f i
update_ne f k v i ne = update-elim (λ x. x ≡ f i) f k v i (λ e. absurd (ne e)) (λ _. refl)
