-- ===== src/Server/Send.antt =====
-- The sending loop of a thread: the first pass sends the first line, each later pass one byte.
use mathlib.Core.List.{append_assoc, append-nil}
use advanced_embedded_softwa.Base.{
  ℕ, zero, suc, ◌+◌, ◌-◌, ◌≤◌, ◌<◌, ◌≡◌, refl, ap, ◌∙◌, Bool, true, false, inl, inr, some, List, [],
  ◌∷◌, ◌++◌, arith, ltb, if◌then◌else◌, Bool-cases, length, drop, take, length-append, length-take,
  length-drop, take_of_le,
}
use advanced_embedded_softwa.Server.{
  newline, in_place, Ended, result, Line, grow_line, look, read_line, Pass, returned, send_loop,
}
use advanced_embedded_softwa.Server.Recv.{NonZero, finds_newline-hit}

-- `realloc_size` once the block, which stays in place, is grown.
grown : ℕ → ℕ → ℕ
grown size required = if ltb size required then size + required else size

grow_line-in_place :
    (size required : ℕ) → grow_line size required in_place ≡ some (grown size required)
unfolding grow_line grown
grow_line-in_place size required = elim (Bool-cases (ltb size required)) [
  | inl e ↦ rw e refl
  | inr e ↦ rw e refl
]

append-NonZero : (s t : List ℕ) → NonZero s → NonZero t → NonZero (s ++ t)
append-NonZero [] t p q = q
append-NonZero (c ∷ s) t p q = (p.0, append-NonZero s t p.1 q)

look-newline :
    (fresh chunk : List ℕ) (found : Bool)
    → NonZero chunk
    → 0 < length chunk
    → look fresh found (chunk ++ (newline ∷ [])) ≡ true
unfolding look
look-newline fresh chunk found z some_bytes =
    let two : ltb 1 (length (chunk ++ (newline ∷ []))) ≡ true =
      let size = length-append chunk (newline ∷ []) in ground arith in
    rw (two, append_assoc chunk (newline ∷ []) _) (finds_newline-hit chunk _ z)

-- A line that is read from `file`: some bytes of it, as many as `bound` at most, behind `chunk`.
record Reads (chunk file : List ℕ) (bound : ℕ) (r : Ended Line) : Type 0 where
  count : ℕ
  size : ℕ
  same :
      r
      ≡ result
          record { chunk = chunk ++ take count file; rest = drop count file; realloc_size = size }
  positive : 0 < count
  bounded : count ≤ bound

-- The inner loop stops with the first newline at the latest, if it is not the first byte.
read_line-Reads :
    (fresh chunk front back : List ℕ) (required size : ℕ) (found : Bool)
    → NonZero chunk
    → NonZero front
    → 0 < length chunk + length front
    → Reads chunk
        (front ++ (newline ∷ back))
        (length front + 1)
        (read_line fresh in_place required size found chunk (front ++ (newline ∷ back)))
unfolding read_line
read_line-Reads fresh chunk [] back required size found z y some_bytes =
    let longer = chunk ++ (newline ∷ []) in
    let seen : look fresh found longer ≡ true = look-newline fresh chunk found z (omega arith) in
    record {
      count = 1;
      size = grown size required;
      same = rw (grow_line-in_place size required, seen, read_line) refl;
      positive = omega arith;
      bounded = omega arith;
    }
read_line-Reads fresh chunk (c ∷ front) back required size found z y some_bytes =
    elim (Bool-cases (look fresh found (chunk ++ (c ∷ [])))) [
      | inl e ↦ record {
        count = 1;
        size = grown size required;
        same = rw (grow_line-in_place size required, e, read_line) refl;
        positive = omega arith;
        bounded = omega arith;
      }
      | inr e ↦
          let next =
            read_line-Reads fresh (chunk ++ (c ∷ [])) front back required (grown size required)
              false (append-NonZero chunk (c ∷ []) z (y.0, tt)) y.1
              (omega (arith, length-append chunk (c ∷ []))) in
          record {
            count = suc next.count;
            size = next.size;
            same =
                rw (grow_line-in_place size required, e, next.same, read_line)
                  (ap
                    (λ w. result record {
                      chunk = w;
                      rest = drop next.count (front ++ (newline ∷ back));
                      realloc_size = next.size;
                    })
                    (append_assoc chunk (c ∷ []) _));
            positive = omega arith;
            bounded = omega (arith, next.bounded);
          }
    ]

-- A pass whose calls do what is asked of them; a realloc leaves the block where it is.
abbrev pub Works : Pass → Type 0
Works pass = (pass.allocated ≡ true) × (pass.realloc ≡ in_place) × ((n : ℕ) → pass.sends n ≡ some n)

abbrev pub AllWork : List Pass → Type 0
AllWork [] = Unit
AllWork (pass ∷ passes) = Works pass × AllWork passes

pub returned-some : (n : ℕ) → returned (some n) n ≡ true
returned-some n = ground arith

-- Once a line is found, a pass reads one byte.
read_line_one :
    (fresh : List ℕ) (required size c : ℕ) (file : List ℕ)
    → read_line fresh in_place required size true [] (c ∷ file)
      ≡ result record { chunk = c ∷ []; rest = file; realloc_size = grown size required }
unfolding read_line look
read_line_one fresh required size c file = rw (grow_line-in_place size required, read_line) refl

-- The passes after the first send what is left, byte by byte.
send_loop_tail :
    (passes : List Pass) (left end_pos cur_pos size : ℕ) (sent file : List ℕ)
    → AllWork passes
    → end_pos ≡ length sent + left
    → left ≤ length passes
    → left ≤ length file
    → send_loop passes (λ k. end_pos) cur_pos size true sent file
      ≡ result record { complete = true; sent = sent ++ take left file }
unfolding send_loop
send_loop_tail [] zero end_pos cur_pos size sent file w e enough fits =
    let over : ltb (length sent) end_pos ≡ false = ground arith in rw (over, append-nil sent) refl
send_loop_tail [] (suc left) end_pos cur_pos size sent file w e enough fits = elim enough [ ]
send_loop_tail (pass ∷ passes) zero end_pos cur_pos size sent file w e enough fits =
    let over : ltb (length sent) end_pos ≡ false = ground arith in rw (over, append-nil sent) refl
send_loop_tail (pass ∷ passes) (suc left) end_pos cur_pos size sent [] w e enough fits =
    elim fits [ ]
send_loop_tail (pass ∷ passes) (suc left) end_pos cur_pos size sent (c ∷ file) w e enough fits =
    let more : ltb (length sent) end_pos ≡ true = ground arith in
    let again =
      send_loop_tail passes left end_pos 1 (grown size (end_pos - cur_pos)) (sent ++ (c ∷ [])) file
        w.1 (omega (arith, length-append sent (c ∷ []))) (omega arith) (omega arith) in
    rw
      (more, w.0.0, w.0.1, read_line_one pass.fresh (end_pos - cur_pos) size c file, w.0.2 1, again)
      (ap (λ s. result record { complete = true; sent = s })
        (append_assoc sent (c ∷ []) (take left file)))

take_parts : (n m : ℕ) (xs : List ℕ) → n ≤ m → take n xs ++ take (m - n) (drop n xs) ≡ take m xs
take_parts zero m xs h = ap (λ k. take k xs) (omega arith)
take_parts (suc n) zero xs h = elim h [ ]
take_parts (suc n) (suc m) [] h = take_of_le (suc m - suc n) [] (omega arith)
take_parts (suc n) (suc m) (x ∷ xs) h =
    let less : suc m - suc n ≡ m - n = omega arith in
    rw less (ap (◌∷◌ x) (take_parts n m xs (omega arith)))

-- The file has at least `end_pos` bytes, with a newline below `end_pos`, but not as its first byte, and
-- no NUL before it; no other thread changes `end_pos` while the loop runs. The loop has a pass for each
-- of the `end_pos` bytes, in which malloc gives a block, `send` takes all that it is given, and realloc
-- leaves the block where it is, since the code goes on with the old pointer. Then the loop comes to its
-- end, and the client has got just the first `end_pos` bytes of the file.
pub send_loop_lem :
    (pass : Pass) (passes : List Pass) (front back : List ℕ) (end_pos size : ℕ)
    → AllWork (pass ∷ passes)
    → NonZero front
    → 0 < length front
    → length front < end_pos
    → end_pos ≤ length (front ++ (newline ∷ back))
    → end_pos ≤ length (pass ∷ passes)
    → send_loop (pass ∷ passes) (λ k. end_pos) 0 size false [] (front ++ (newline ∷ back))
      ≡ result record { complete = true; sent = take end_pos (front ++ (newline ∷ back)) }
unfolding send_loop
send_loop_lem pass passes front back end_pos size w z some_bytes below fits enough =
    let file = front ++ (newline ∷ back) in
    let line =
      read_line-Reads pass.fresh [] front back (end_pos - 0) size false tt z (omega arith) in
    let n = line.count in
    let small : n ≤ end_pos = omega (arith, line.bounded) in
    let size_sent : length (take n file) ≡ n = length-take n file ∙ omega arith in
    let tail =
      send_loop_tail passes (end_pos - n) end_pos (length (take n file)) line.size (take n file)
        (drop n file) w.1 (omega arith) (omega (arith, line.positive))
        (omega (arith, length-drop n file)) in
    let more : ltb 0 end_pos ≡ true = ground arith in
    rw
      (
        more,
        w.0.0,
        w.0.1,
        line.same,
        w.0.2 (length (take n file)),
        returned-some (length (take n file)),
        tail,
        take_parts n end_pos file small,
      )
      refl
