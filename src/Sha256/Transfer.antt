-- ===== src/Sha256/Transfer.antt =====
-- The wait ends when the device is idle, and a block written is the block read.
use nspire_utils.Base.{
  ℕ, zero, suc, ◌+◌, ◌<◌, ◌≤◌, true, false, some, List, [], ◌∷◌, length, ◌==◌, if◌then◌else◌, ◌≡◌,
  refl, ap, ◌∙◌, arith,
}
use nspire_utils.Device.{Bus, polled}
use nspire_utils.Sha256.{
  sha256_control, sha256_block_start, is_busy, wait_idle, clear_control, initialize, write_bytes,
  read_bytes, write_block, read_block,
}

module _ {S : Type 0} (words bytes : Bus S) (base : ℕ) where
  wait_idle_lem :
      (fuel k : ℕ) (s : S)
      → k < fuel
      → ((i : ℕ)
          → i < k
          → (is_busy words bytes base (polled (is_busy words bytes base) i s)).0 ≡ true)
      → (is_busy words bytes base (polled (is_busy words bytes base) k s)).0 ≡ false
      → wait_idle words bytes base fuel s ≡ some (polled (is_busy words bytes base) (suc k) s)
  unfolding wait_idle polled
  wait_idle_lem zero k s h busy idle = elim h [ ]
  wait_idle_lem (suc fuel) zero s h busy idle = rw (idle, wait_idle)
  wait_idle_lem (suc fuel) (suc k) s h busy idle =
      rw (busy 0 (omega arith), wait_idle)
        (wait_idle_lem fuel k (is_busy words bytes base s).1 (omega arith)
          (λ i hi. busy (suc i) (omega arith)) idle)

  -- The device's state after the first write.
  abbrev pub begun : S → S
  begun s = words.write (base + sha256_control) 0x10 s

  -- `initialize()` on a device that is idle at poll `k` after the command, and busy before, returns
  -- after exactly the polls that it took, with the control register cleared last; `k + 1` rounds of
  -- the loop suffice.
  pub initialize-idle :
      (k fuel : ℕ) (s : S)
      → k < fuel
      → ((i : ℕ)
          → i < k
          → (is_busy words bytes base (polled (is_busy words bytes base) i (begun s))).0 ≡ true)
      → (is_busy words bytes base (polled (is_busy words bytes base) k (begun s))).0 ≡ false
      → initialize words bytes base fuel s
        ≡ some (
            words.write
              (base + sha256_control)
              0
              (polled (is_busy words bytes base) (suc k) (begun s)))
  unfolding initialize
  initialize-idle k fuel s h busy idle =
      ap (clear_control words bytes base) (wait_idle_lem fuel k (begun s) h busy idle)

-- The 64 bytes of the block hold what was written to them, and reading changes none.
pub record HoldsBlock {S : Type 0} (bytes : Bus S) (base : ℕ) : Type 0 where
  pub block : S → ℕ → ℕ
  pub block_write :
      (i j v : ℕ) (s : S)
      → i < 64
      → j < 64
      → block (bytes.write (base + sha256_block_start + i) v s) j
        ≡ (if j == i then v else block s j)
  pub read_value :
      (i : ℕ) (s : S) → i < 64 → (bytes.read (base + sha256_block_start + i) s).0 ≡ block s i
  pub read_quiet :
      (i : ℕ) (s : S) → block (bytes.read (base + sha256_block_start + i) s).1 ≡ block s

-- The entry of a list of bytes at `i`.
abbrev pub entry : List ℕ → ℕ → ℕ
entry [] i = 0
entry (x ∷ xs) zero = x
entry (x ∷ xs) (suc i) = entry xs i

module _ {S : Type 0} (words bytes : Bus S) (base : ℕ) (holds : HoldsBlock bytes base) where
  open holds use {block, block_write, read_value, read_quiet}

  write_bytes-below :
      (i : ℕ) (xs : List ℕ) (s : S) (j : ℕ)
      → i + length xs ≤ 64
      → j < i
      → block (write_bytes words bytes base sha256_block_start i xs s) j ≡ block s j
  unfolding write_bytes
  write_bytes-below i [] s j h lo = refl
  write_bytes-below i (x ∷ xs) s j h lo =
      write_bytes-below (i + 1) xs (bytes.write (base + sha256_block_start + i) x s) j (omega arith)
        (omega arith)
      ∙ ground (arith, block_write i j x s)

  -- What the reading loop collects on a device whose block is `xs` from index `i` on.
  read_bytes_lem :
      (i : ℕ) (xs : List ℕ) (s : S)
      → i + length xs ≤ 64
      → ((j : ℕ) → j < length xs → block s (i + j) ≡ entry xs j)
      → (read_bytes words bytes base sha256_block_start i (length xs) s).0 ≡ xs
  unfolding read_bytes
  read_bytes_lem i [] s h same = refl
  read_bytes_lem i (x ∷ xs) s h same =
      let first : i + 0 ≡ i = omega arith in
      let e : (bytes.read (base + sha256_block_start + i) s).0 ≡ x =
        read_value i s (omega arith) ∙ ap (block s) (omega arith) ∙ same 0 (omega arith) in
      let rest =
        read_bytes_lem (i + 1) xs (bytes.read (base + sha256_block_start + i) s).1 (omega arith)
          (λ j hj.
            ap (λ b. b (i + 1 + j)) (read_quiet i s)
            ∙ ap (block s) (omega arith)
            ∙ same (suc j) (omega arith)) in
      rw (e, rest)

  write_bytes_lem :
      (i : ℕ) (xs : List ℕ) (s : S) (j : ℕ)
      → i + length xs ≤ 64
      → j < length xs
      → block (write_bytes words bytes base sha256_block_start i xs s) (i + j) ≡ entry xs j
  unfolding write_bytes
  write_bytes_lem i [] s j h lo = elim lo [ ]
  write_bytes_lem i (x ∷ xs) s zero h lo =
      let s₁ = bytes.write (base + sha256_block_start + i) x s in
      write_bytes-below (i + 1) xs s₁ (i + 0) (omega arith) (omega arith)
      ∙ ground (arith, block_write i (i + 0) x s)
  write_bytes_lem i (x ∷ xs) s (suc j) h lo =
      let s₁ = bytes.write (base + sha256_block_start + i) x s in
      ap (block (write_bytes words bytes base sha256_block_start (i + 1) xs s₁)) (omega arith)
      ∙ write_bytes_lem (i + 1) xs s₁ j (omega arith) (omega arith)

  -- `Read512bBlock` after `Write512bBlock` of 64 bytes, on a device that holds its block, reads the
  -- same 64 bytes in the same order.
  pub read_block-write_block :
      (xs : List ℕ) (s : S)
      → length xs ≡ 64
      → (read_block words bytes base (write_block words bytes base xs s)).0 ≡ xs
  read_block-write_block xs s full = rw full at (
      read_bytes_lem 0 xs (write_block words bytes base xs s) (omega arith)
        (λ j h. write_bytes_lem 0 xs s j (omega arith) h))
