-- ===== src/Server/Recv.antt =====
-- The receiving loop of a thread: what it collects, and that its copies stay in the block.
use mathlib.Core.List.{append_assoc}
use advanced_embedded_softwa.Base.{
  ℕ, zero, suc, ◌+◌, ◌-◌, ◌≤◌, ◌≡◌, ◌≢◌, refl, ap, true, false, inl, inr, some, List, [], ◌∷◌, ◌++◌,
  arith, ltb, ◌==◌, if◌then◌else◌, Bool-cases, length, drop,
}
use advanced_embedded_softwa.Server.{
  newline, finds_newline, Realloc, in_place, Received, bytes, result, grow, recv_loop,
}

-- No byte is NUL.
abbrev pub NonZero : List ℕ → Type 0
NonZero [] = Unit
NonZero (c ∷ s) = (c ≢ 0) × NonZero s

-- No byte is a newline.
abbrev pub Quiet : List ℕ → Type 0
Quiet [] = Unit
Quiet (c ∷ s) = (c ≢ newline) × Quiet s

pub finds_newline-hit : (s t : List ℕ) → NonZero s → finds_newline (s ++ (newline ∷ t)) ≡ true
unfolding finds_newline
finds_newline-hit [] t z = refl
finds_newline-hit (c ∷ s) t z =
    let nul : (c == 0) ≡ false = ground (arith, z.0) in
    elim (Bool-cases (c == newline)) [
      | inl e ↦ rw e refl
      | inr e ↦ rw (e, nul) (finds_newline-hit s t z.1)
    ]

finds_newline-Quiet : (s : List ℕ) → Quiet s → finds_newline s ≡ false
unfolding finds_newline
finds_newline-Quiet [] q = refl
finds_newline-Quiet (c ∷ s) q =
    let other : (c == newline) ≡ false = ground (arith, q.0) in
    rw (other, finds_newline-Quiet s q.1)
      (elim (Bool-cases (c == 0)) [ inl e ↦ rw e refl | inr e ↦ rw e refl ])

append-Quiet : (s t : List ℕ) → Quiet s → Quiet t → Quiet (s ++ t)
append-Quiet [] t p q = q
append-Quiet (c ∷ s) t p q = (p.0, append-Quiet s t p.1 q)

drop-Quiet : (n : ℕ) (s : List ℕ) → Quiet s → Quiet (drop n s)
drop-Quiet zero s q = q
drop-Quiet (suc n) [] q = q
drop-Quiet (suc n) (c ∷ s) q = drop-Quiet n s q.1

-- A copy that is made at all stays inside the block that `malloc_size` measures.
pub grow_lem :
    (malloc_size rdbuff_size got size : ℕ) (realloc : Realloc)
    → rdbuff_size ≤ malloc_size
    → grow malloc_size rdbuff_size got realloc ≡ some size
    → rdbuff_size + got ≤ size
unfolding grow
grow_lem m r got size realloc fits e = ground arith

pub grow-in_place :
    (m r got : ℕ) → grow m r got in_place ≡ some (if ltb (m - r) got then m + got else m)
unfolding grow
grow-in_place m r got = elim (Bool-cases (ltb (m - r) got)) [
  | inl e ↦ rw e refl
  | inr e ↦ rw e refl
]

-- What `recv` gives: pieces without a newline, a piece with one, and what comes later.
abbrev pub arrivals : List (List ℕ) → List ℕ → List (Received × Realloc) → List (Received × Realloc)
arrivals [] last later = (bytes last, in_place) ∷ later
arrivals (piece ∷ pieces) last later = (bytes piece, in_place) ∷ arrivals pieces last later

abbrev pub joined : List (List ℕ) → List ℕ → List ℕ
joined [] last = last
joined (piece ∷ pieces) last = piece ++ joined pieces last

-- Every piece has a byte, and no newline.
abbrev pub Pieces : List (List ℕ) → Type 0
Pieces [] = Unit
Pieces (piece ∷ pieces) = (length piece ≢ 0) × Quiet piece × Pieces pieces

-- The loop collects a line that comes in any number of pieces, and stops with the piece that has the
-- newline: where no NUL comes before it in that piece, the memory of the array and behind it held no
-- newline at first, and the block stays in place when it grows.
pub recv_loop_lem :
    (pieces : List (List ℕ)) (front back : List ℕ) (later : List (Received × Realloc))
    (buffer read_buffer : List ℕ) (malloc_size : ℕ)
    → Pieces pieces
    → NonZero front
    → Quiet buffer
    → recv_loop (arrivals pieces (front ++ (newline ∷ back)) later) buffer read_buffer malloc_size
      ≡ result (read_buffer ++ joined pieces (front ++ (newline ∷ back)))
unfolding recv_loop
recv_loop_lem [] front back later buffer read_buffer malloc_size p z q =
    let last = front ++ (newline ∷ back) in
    let found : (if length last == 0
          then true
          else finds_newline (last ++ drop (length last) buffer))
        ≡ true =
      elim (Bool-cases (length last == 0)) [
        | inl e ↦ rw e refl
        | inr e ↦ rw (e, append_assoc front (newline ∷ back) _) (finds_newline-hit front _ z)
      ] in
    rw (grow-in_place malloc_size (length read_buffer) (length last), found, recv_loop) refl
recv_loop_lem (piece ∷ pieces) front back later buffer read_buffer malloc_size p z q =
    let some_bytes : (length piece == 0) ≡ false = ground (arith, p.0) in
    let held =
      append-Quiet piece (drop (length piece) buffer) p.1 (drop-Quiet (length piece) buffer q) in
    let again =
      recv_loop_lem pieces front back later (piece ++ drop (length piece) buffer)
        (read_buffer ++ piece)
        (if ltb (malloc_size - length read_buffer) (length piece)
          then malloc_size + length piece
          else malloc_size)
        p.2 z held in
    rw
      (
        grow-in_place malloc_size (length read_buffer) (length piece),
        some_bytes,
        finds_newline-Quiet _ held,
        again,
        recv_loop,
      )
      (ap result (append_assoc read_buffer piece _))
