-- ===== src/Scull/Address.antt =====
-- How a position is split into the item, the index in its array and the offset in the block.
use native.Mathlib.Nat.{
  div-add-mod, mod-eq_of_lt, div-eq_of_lt, mul-add-div, mul-add-mod_self_left, mod-lt,
  div-lt_iff_lt-mul, mul_comm,
}
use advanced_embedded_softwa.Base.{ℕ, ◌+◌, ◌*◌, ◌/◌, ◌%◌, ◌^◌, ◌<◌, ◌≡◌, refl, ap, ◌∙◌, arith}
use advanced_embedded_softwa.Scull.{place}

-- Division with a remainder that stays below the divisor.
div_rest : (d a r : ℕ) → r < d → (d * a + r) / d ≡ a
div_rest d a r h = mul-add-div {m = d} (omega arith) a r ∙ omega (arith, div-eq_of_lt h)

mod_rest : (d a r : ℕ) → r < d → (d * a + r) % d ≡ r
mod_rest d a r h = mul-add-mod_self_left d a r ∙ mod-eq_of_lt h

index_in_range : (r c w h : ℕ) → r < h → c < w → w * r + c < w * h
index_in_range r c w h p q = grind arith

module _ (quantum qset : ℕ) (some_bytes : 0 < quantum) (some_blocks : 0 < qset) where
  rest_lem : (pos : ℕ) → pos % (quantum * qset) < quantum * qset
  rest_lem pos = mod-lt pos {m = quantum * qset} (grind arith)

  pub s_pos_range : (pos : ℕ) → (place quantum qset pos).s_pos < qset
  unfolding place
  s_pos_range pos =
      (div-lt_iff_lt-mul {k = quantum} {x = pos % (quantum * qset)} {y = qset} some_bytes).1
        (omega (arith, rest_lem pos, mul_comm quantum qset))

  pub q_pos_range : (pos : ℕ) → (place quantum qset pos).q_pos < quantum
  unfolding place
  q_pos_range pos = mod-lt (pos % (quantum * qset)) some_bytes

  -- A few positions on, in the same block.
  pub place_shift :
      (pos j : ℕ)
      → (place quantum qset pos).q_pos + j < quantum
      → place quantum qset (pos + j)
        ≡ record (place quantum qset pos) { q_pos = (place quantum qset pos).q_pos + j }
  unfolding place
  place_shift pos j h =
      let size = quantum * qset in
      let rest = pos % size in
      let whole : size * (pos / size) + rest ≡ pos = div-add-mod pos size in
      let parts : quantum * (rest / quantum) + rest % quantum ≡ rest = div-add-mod rest quantum in
      let below : rest / quantum < qset = s_pos_range pos in
      let inside : rest + j < size =
        let below_size =
          index_in_range (rest / quantum) (rest % quantum + j) quantum qset below h in
        omega arith in
      let up : pos + j ≡ size * (pos / size) + (rest + j) = omega arith in
      let along : rest + j ≡ quantum * (rest / quantum) + (rest % quantum + j) = omega arith in
      rw
        (
          up,
          div_rest size (pos / size) (rest + j) inside,
          mod_rest size (pos / size) (rest + j) inside,
        )
        (rw
          (
            along,
            div_rest quantum (rest / quantum) (rest % quantum + j) h,
            mod_rest quantum (rest / quantum) (rest % quantum + j) h,
          )
          refl)

  -- Two positions with one item and one index in its array are as far apart as their offsets.
  pub place_apart :
      (pos i : ℕ)
      → pos / (quantum * qset) < 2 ^ 32
      → i / (quantum * qset) < 2 ^ 32
      → (place quantum qset pos).item ≡ (place quantum qset i).item
      → (place quantum qset pos).s_pos ≡ (place quantum qset i).s_pos
      → pos + (place quantum qset i).q_pos ≡ i + (place quantum qset pos).q_pos
  unfolding place
  place_apart pos i small small' same_item same_s =
      let size = quantum * qset in
      let item : pos / size ≡ i / size = omega arith in
      let far : size * (pos / size) ≡ size * (i / size) = ap (λ k. size * k) item in
      let near : quantum * (pos % size / quantum) ≡ quantum * (i % size / quantum) =
        ap (λ k. quantum * k) same_s in
      omega (
        arith,
        div-add-mod pos size,
        div-add-mod i size,
        div-add-mod (pos % size) quantum,
        div-add-mod (i % size) quantum,
      )
