-- ===== src/Os.antt =====
-- The system calls that the program makes, as parameters: an operating system over a state `N`
-- of the network. What POSIX documents of them is in the records of laws.
use dummy_client.Common.{
  ℕ, ◌≤◌, ◌≡◌, Option, none, some, List, ◌++◌, Bool, true, false, ltb, ◌⊎◌, length, take,
}
use dummy_client.Common.Int.{ℤ, pos, negsuc}

-- The five `setsockopt` calls behind a `connect`.
pub data SocketOption : Type 0 where
  keep_alive no_delay receive_buffer send_buffer : ℤ → SocketOption
  linger : ℤ → ℤ → SocketOption

pub record Os (N : Type 0) : Type 0 where
  -- `socket`: a descriptor, or -1.
  pub socket : N → ℤ × N
  -- `connect` to a host and a port: whether it returns something else than -1.
  pub connect : ℤ → List ℕ → ℤ → N → Bool × N
  pub set_option : ℤ → SocketOption → N → N
  -- `read` of at most so many bytes: the bytes, or `none` for -1.
  pub read : ℤ → ℕ → N → Option (List ℕ) × N
  -- `write`: how many of the bytes were taken, or -1.
  pub write : ℤ → List ℕ → N → ℤ × N
  -- `select` on one descriptor for reading, with a timeout in seconds.
  pub select : ℤ → ℕ → N → ℤ × N
  -- `close`: whether it returns 0.
  pub close : ℤ → N → Bool × N

-- The descriptors that an `fd_set` has a place for: `FD_SETSIZE` is 1024.
unfoldable pub in_set : ℤ → Bool
in_set (pos n) = ltb n 1024
in_set (negsuc n) = false

-- What a process with at most `FD_SETSIZE` descriptors knows of them: `socket` gives one of these or
-- -1, and a `write` to -1 fails.
pub record Descriptors {N : Type 0} (os : Os N) : Type 0 where
  pub numbered : (n : N) → (in_set (os.socket n).0 ≡ true) ⊎ ((os.socket n).0 ≡ negsuc 0)
  pub no_write : (bs : List ℕ) (n : N) → (n' : N) × (os.write (negsuc 0) bs n ≡ (negsuc 0, n'))

-- A descriptor of the process, open or not, or -1.
abbrev pub Usable : ℤ → Type 0
Usable fd = (in_set fd ≡ true) ⊎ (fd ≡ negsuc 0)

-- A stream socket as its writer sees it: `sent fd w` is all that was accepted so far.
pub record WriteLaws {N : Type 0} (os : Os N) (sent : ℤ → N → List ℕ) : Type 0 where
  pub write_some :
      (fd : ℤ) (bs : List ℕ) (w w' : N) (k : ℕ)
      → os.write fd bs w ≡ (pos k, w')
      → (k ≤ length bs) × (sent fd w' ≡ sent fd w ++ take k bs)
  pub write_none :
      (fd : ℤ) (bs : List ℕ) (w w' : N) (k : ℕ)
      → os.write fd bs w ≡ (negsuc k, w')
      → sent fd w' ≡ sent fd w

-- A stream socket as its reader sees it: `incoming fd w` is all that it has yet to receive.
pub record ReadLaws {N : Type 0} (os : Os N) (incoming : ℤ → N → List ℕ) : Type 0 where
  pub read_some :
      (fd : ℤ) (n : ℕ) (w w' : N) (bs : List ℕ)
      → os.read fd n w ≡ (some bs, w')
      → (length bs ≤ n) × (incoming fd w ≡ bs ++ incoming fd w')
  pub read_none :
      (fd : ℤ) (n : ℕ) (w w' : N) → os.read fd n w ≡ (none, w') → incoming fd w' ≡ incoming fd w

-- `select` takes nothing from the stream.
pub record SelectLaws {N : Type 0} (os : Os N) (incoming : ℤ → N → List ℕ) : Type 0 where
  pub select_keeps :
      (fd : ℤ) (seconds : ℕ) (w : N) → incoming fd (os.select fd seconds w).1 ≡ incoming fd w
