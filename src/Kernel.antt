-- ===== src/Kernel.antt =====
-- What the drivers ask of the kernel, which is not part of this repository: memory for blocks of
-- bytes, copies to and from a process, and locks that a signal can interrupt. A call of a driver
-- takes a `Kernel`, the answers that the kernel gives during that call; `IsLawful` states what its
-- documentation promises of them. `Kernel.Sample` is a kernel that keeps the promises.
pub mod Sample
pub mod Overwrite
use advanced_embedded_softwa.Base.Words.{Ptr, null}
use advanced_embedded_softwa.Base.{
  ℕ, ◌+◌, ◌-◌, ◌≤◌, ◌≡◌, ◌≢◌, ◌⊎◌, Bool, Option, none, some, List, [], ◌++◌, ◌==◌, if◌then◌else◌,
  length, take, drop,
}

-- The blocks that are allocated, by their address.
abbrev pub Heap : Type 0
Heap = Ptr → Option (List ℕ)

abbrev pub update : Heap → Ptr → Option (List ℕ) → Heap
update h p c q = if q == p then c else h q

abbrev pub bytes_of : Option (List ℕ) → List ℕ
bytes_of none = []
bytes_of (some block) = block

-- The bytes of the block at `p`, none if there is no such block.
abbrev pub bytes_at : Heap → Ptr → List ℕ
bytes_at h p = bytes_of (h p)

-- The bytes `src` written into a block from index `i` on.
abbrev pub overwrite : List ℕ → ℕ → List ℕ → List ℕ
overwrite block i src = take i block ++ (src ++ drop (i + length src) block)

-- Results of the drivers' operations: a count of bytes (or 0), or an error number.
pub data Errno : Type 0 where
  erestartsys enomem efault eagain einval ebusy enotty eperm : Errno

pub data Ret : Type 0 where
  done : ℕ → Ret
  fail : Errno → Ret

pub record Kernel : Type 0 where
  -- whether `mutex_lock_interruptible` gets the lock
  pub locks : Bool
  pub kmalloc : Heap → ℕ → Ptr × Heap
  pub krealloc : Heap → Ptr → ℕ → Ptr × Heap
  pub kfree : Heap → Ptr → Heap
  -- `copy_from_user(block + at, src, n)`: the bytes that could not be copied, and the heap
  pub copy_from_user : Heap → Ptr → ℕ → List ℕ → ℕ → ℕ × Heap
  -- `copy_to_user(user, block + at, n)`: the bytes that could not be copied, and those delivered
  pub copy_to_user : Heap → Ptr → ℕ → ℕ → ℕ × List ℕ

-- A request for `n` bytes gives NULL and changes nothing, or a block at a new address.
pub data Allocated (h : Heap) (n : ℕ) : Ptr × Heap → Type 0 where
  exhausted : Allocated h n (null, h)
  fresh :
      (p : Ptr) (block : List ℕ)
      → p ≢ null
      → h p ≡ none
      → length block ≡ n
      → Allocated h n (p, update h p (some block))

-- A request to resize the block `old` to `n` bytes gives NULL and changes nothing, or a block that
-- begins with the bytes of the old one as far as both go. The old one is gone.
pub data Reallocated (h : Heap) (old : Ptr) (n : ℕ) : Ptr × Heap → Type 0 where
  exhausted : Reallocated h old n (null, h)
  moved :
      (p : Ptr) (block : List ℕ)
      → p ≢ null
      → (h p ≡ none) ⊎ (p ≡ old)
      → length block ≡ n
      → ((m : ℕ) → m ≤ n → m ≤ length (bytes_at h old) → take m block ≡ take m (bytes_at h old))
      → Reallocated h old n (p, update (update h old none) p (some block))

-- A copy of `n` bytes from a process writes the first of them that it can read; what it writes in
-- the place of the others is not said.
pub data CopiedFrom (h : Heap) (p : Ptr) (i n : ℕ) (src : List ℕ) : ℕ × Heap → Type 0 where
  copied :
      (read skipped : ℕ) (pad : List ℕ)
      → read + skipped ≡ n
      → length pad ≤ skipped
      → CopiedFrom h p i n src
          (skipped, update h p (some (overwrite (bytes_at h p) i (take read src ++ pad))))

-- A copy of `n` bytes to a process delivers the first of them.
pub data CopiedTo (h : Heap) (p : Ptr) (i n : ℕ) : ℕ × List ℕ → Type 0 where
  copied :
      (sent skipped : ℕ)
      → sent + skipped ≡ n
      → CopiedTo h p i n (skipped, take sent (drop i (bytes_at h p)))

pub record IsLawful (k : Kernel) : Type 0 where
  pub kmalloc_law : (h : Heap) (n : ℕ) → Allocated h n (k.kmalloc h n)
  pub krealloc_law : (h : Heap) (old : Ptr) (n : ℕ) → Reallocated h old n (k.krealloc h old n)
  pub kfree_law : (h : Heap) (p : Ptr) → k.kfree h p ≡ (if p == null then h else update h p none)
  pub copy_from_user_law :
      (h : Heap) (p : Ptr) (i n : ℕ) (src : List ℕ)
      → CopiedFrom h p i n src (k.copy_from_user h p i src n)
  pub copy_to_user_law : (h : Heap) (p : Ptr) (i n : ℕ) → CopiedTo h p i n (k.copy_to_user h p i n)
