-- ===== src/Scull/Inv.antt =====
-- The invariant of a device, and that every call keeps it.
use advanced_embedded_softwa.Base.{
  ℕ, zero, suc, ◌*◌, ◌<◌, ◌^◌, ◌≡◌, Option, none, some, List, [], ◌∷◌, arith, length, get_elem?,
  get_or, set, replicate, length-replicate,
}
use advanced_embedded_softwa.Scull.{
  Block, Qset, Dev, follow, pointer, slot, put_array, with_array, with_block,
}

-- Every block has `quantum` bytes.
abbrev pub Blocks : ℕ → List (Option Block) → Type 0
Blocks quantum [] = Unit
Blocks quantum (none ∷ quanta) = Blocks quantum quanta
Blocks quantum (some bytes ∷ quanta) = (length bytes ≡ quantum) × Blocks quantum quanta

-- An array that is there has `qset` pointers, to such blocks.
abbrev pub Fits : ℕ → ℕ → Option (List (Option Block)) → Type 0
Fits quantum qset none = Unit
Fits quantum qset (some quanta) = (length quanta ≡ qset) × Blocks quantum quanta

abbrev pub AllFit : ℕ → ℕ → List Qset → Type 0
AllFit quantum qset [] = Unit
AllFit quantum qset (s ∷ sets) = Fits quantum qset s.quanta × AllFit quantum qset sets

pub record IsValid (dev : Dev) : Type 0 where
  pub some_bytes : 0 < dev.quantum
  pub some_blocks : 0 < dev.qset
  -- the product that the code takes as an `int`
  pub itemsize : dev.quantum * dev.qset < 2 ^ 31
  pub fit : AllFit dev.quantum dev.qset dev.sets

pub follow-AllFit :
    (quantum qset n k : ℕ) (sets : List Qset)
    → AllFit quantum qset sets
    → AllFit quantum qset (follow n k sets).sets
unfolding follow
follow-AllFit quantum qset zero zero [] f = tt
follow-AllFit quantum qset (suc n) zero [] f = tt
follow-AllFit quantum qset zero (suc k) [] f = (tt, tt)
follow-AllFit quantum qset (suc n) (suc k) [] f = (tt, follow-AllFit quantum qset n k [] tt)
follow-AllFit quantum qset zero zero (s ∷ sets) f = f
follow-AllFit quantum qset zero (suc k) (s ∷ sets) f = f
follow-AllFit quantum qset (suc n) zero (s ∷ sets) f =
    (f.0, follow-AllFit quantum qset n zero sets f.1)
follow-AllFit quantum qset (suc n) (suc k) (s ∷ sets) f =
    (f.0, follow-AllFit quantum qset n (suc k) sets f.1)

pub get_elem?-Fits :
    (quantum qset : ℕ) (sets : List Qset) (item : ℕ) (q : Qset)
    → AllFit quantum qset sets
    → get_elem? sets item ≡ some q
    → Fits quantum qset q.quanta
get_elem?-Fits quantum qset [] item q f e = absurd (ground arith)
get_elem?-Fits quantum qset (s ∷ sets) zero q f e =
    let same : s ≡ q = ground arith in rw (← same) f.0
get_elem?-Fits quantum qset (s ∷ sets) (suc item) q f e =
    get_elem?-Fits quantum qset sets item q f.1 e

pub put_array-AllFit :
    (quantum qset : ℕ) (sets : List Qset) (item : ℕ) (quanta : List (Option Block))
    → AllFit quantum qset sets
    → length quanta ≡ qset
    → Blocks quantum quanta
    → AllFit quantum qset (put_array sets item quanta)
put_array-AllFit quantum qset [] item quanta f size b = tt
put_array-AllFit quantum qset (s ∷ sets) zero quanta f size b = ((size, b), f.1)
put_array-AllFit quantum qset (s ∷ sets) (suc item) quanta f size b =
    (f.0, put_array-AllFit quantum qset sets item quanta f.1 size b)

pub set-Blocks :
    (quantum : ℕ) (quanta : List (Option Block)) (s : ℕ) (bytes : Block)
    → Blocks quantum quanta
    → length bytes ≡ quantum
    → Blocks quantum (set quanta s (some bytes))
set-Blocks quantum [] s bytes b size = tt
set-Blocks quantum (none ∷ quanta) zero bytes b size = (size, b)
set-Blocks quantum (some c ∷ quanta) zero bytes b size = (size, b.1)
set-Blocks quantum (none ∷ quanta) (suc s) bytes b size = set-Blocks quantum quanta s bytes b size
set-Blocks quantum (some c ∷ quanta) (suc s) bytes b size =
    (b.0, set-Blocks quantum quanta s bytes b.1 size)

pub get_or-Blocks :
    (quantum : ℕ) (quanta : List (Option Block)) (s : ℕ) (bytes : Block)
    → Blocks quantum quanta
    → get_or quanta s none ≡ some bytes
    → length bytes ≡ quantum
get_or-Blocks quantum [] s bytes b e = absurd (ground arith)
get_or-Blocks quantum (none ∷ quanta) zero bytes b e = absurd (ground arith)
get_or-Blocks quantum (some c ∷ quanta) zero bytes b e =
    let same : c ≡ bytes = ground arith in rw (← same) b.0
get_or-Blocks quantum (none ∷ quanta) (suc s) bytes b e = get_or-Blocks quantum quanta s bytes b e
get_or-Blocks quantum (some c ∷ quanta) (suc s) bytes b e =
    get_or-Blocks quantum quanta s bytes b.1 e

pub replicate-Blocks : (quantum n : ℕ) → Blocks quantum (replicate n none)
replicate-Blocks quantum zero = tt
replicate-Blocks quantum (suc n) = replicate-Blocks quantum n

length-pointer :
    (quantum qset : ℕ) (array : Option (List (Option Block))) (s : ℕ) (bytes : Block)
    → Fits quantum qset array
    → pointer array s ≡ some bytes
    → length bytes ≡ quantum
length-pointer quantum qset none s bytes f e = absurd (ground arith)
length-pointer quantum qset (some quanta) s bytes f e = get_or-Blocks quantum quanta s bytes f.1 e

-- A block of a device has `quantum` bytes.
pub length-slot :
    (quantum qset : ℕ) (sets : List Qset) (item s : ℕ) (bytes : Block)
    → AllFit quantum qset sets
    → slot sets item s ≡ some bytes
    → length bytes ≡ quantum
unfolding slot
length-slot quantum qset [] item s bytes f e = absurd (ground arith)
length-slot quantum qset (q ∷ sets) zero s bytes f e =
    length-pointer quantum qset q.quanta s bytes f.0 e
length-slot quantum qset (q ∷ sets) (suc item) s bytes f e =
    length-slot quantum qset sets item s bytes f.1 e

-- The pointers of an array that is there, or that is made.
pub with_array-Fits :
    (quantum qset k : ℕ) (array : Option (List (Option Block)))
    → Fits quantum qset array
    → Fits quantum qset (with_array qset k array).0
unfolding with_array
with_array-Fits quantum qset k (some quanta) f = f
with_array-Fits quantum qset zero none f = tt
with_array-Fits quantum qset (suc k) none f =
    (length-replicate qset none, replicate-Blocks quantum qset)

abbrev pub IsBlock : ℕ → Option Block → Type 0
IsBlock quantum none = Unit
IsBlock quantum (some bytes) = length bytes ≡ quantum

pub with_block-IsBlock :
    (quantum k : ℕ) (fresh : Block) (block : Option Block)
    → length fresh ≡ quantum
    → IsBlock quantum block
    → IsBlock quantum (with_block fresh k block).0
unfolding with_block
with_block-IsBlock quantum k fresh (some bytes) size b = b
with_block-IsBlock quantum zero fresh none size b = tt
with_block-IsBlock quantum (suc k) fresh none size b = size

pub get_or-IsBlock :
    (quantum : ℕ) (quanta : List (Option Block)) (s : ℕ)
    → Blocks quantum quanta
    → IsBlock quantum (get_or quanta s none)
get_or-IsBlock quantum [] s b = tt
get_or-IsBlock quantum (none ∷ quanta) zero b = tt
get_or-IsBlock quantum (some c ∷ quanta) zero b = b.0
get_or-IsBlock quantum (none ∷ quanta) (suc s) b = get_or-IsBlock quantum quanta s b
get_or-IsBlock quantum (some c ∷ quanta) (suc s) b = get_or-IsBlock quantum quanta s b.1
