-- ===== src/Scull/Read.antt =====
-- What a read of the memory device does on each of its ways out.
use advanced_embedded_softwa.Base.{
  ℕ, ◌+◌, ◌-◌, ◌≤◌, ◌<◌, ◌^◌, ◌≡◌, refl, sym, ◌∙◌, Bool, true, false, inl, inr, Option, none, some,
  List, [], arith, ltb, leb, if◌then◌else◌, min, get_elem?, take, drop, Bool-cases, length-take,
}
use advanced_embedded_softwa.Base.Elems.{get_elem?-take, get_elem?-drop, get_elem?-past}
use advanced_embedded_softwa.Kernel.{Ret, efault, erestartsys, done, fail}
use advanced_embedded_softwa.Scull.{
  Block, Qset, Dev, Place, place, Followed, follow, slot, read, read_block, cut, Result,
}
use advanced_embedded_softwa.Scull.Address.{place_shift}
use advanced_embedded_softwa.Scull.Slots.{follow-slot}
use advanced_embedded_softwa.Scull.Inv.{IsValid}
use advanced_embedded_softwa.Scull.Cells.{cell}

-- How many bytes a read may take: none at the end or in a hole, else what is left of the request, of
-- the device and of the block.
unfoldable pub span : Dev → ℕ → ℕ → ℕ
span dev pos count =
    let p = place dev.quantum dev.qset pos in
    if leb dev.size pos then 0 else elim (slot dev.sets p.item p.s_pos) [
      | none ↦ 0
      | some _ ↦ min (min count (dev.size - pos)) (dev.quantum - p.q_pos)
    ]

-- The byte that a read hands over `j` places on, of `n` bytes.
abbrev pub handed : Dev → ℕ → ℕ → ℕ → Option ℕ
handed dev pos n j = if ltb j n then cell dev (pos + j) else none

-- What a read says, by what it returns, of the byte that it hands over `j` places on, and of the
-- byte of the device at `i`.
abbrev pub ReadSays : Bool → Dev → ℕ → ℕ → ℕ → ℕ → ℕ → Ret → Result → Type 0
ReadSays locks dev pos count room j i ret r = elim ret [
  | done n ↦
      (n ≡ span dev pos count)
      × (r.pos ≡ pos + n)
      × (get_elem? r.delivered j ≡ handed dev pos n j)
      × (r.dev.size ≡ dev.size)
      × (cell r.dev i ≡ cell dev i)
  | fail efault ↦
      (room < span dev pos count)
      × (r.pos ≡ pos)
      × (get_elem? r.delivered j ≡ handed dev pos room j)
      × (r.dev.size ≡ dev.size)
      × (cell r.dev i ≡ cell dev i)
  | fail erestartsys ↦ (locks ≡ false) × (r.pos ≡ pos) × (r.delivered ≡ []) × (r.dev ≡ dev)
  | fail _ ↦ ⊥
]

abbrev pub ReadEnds : Bool → Dev → ℕ → ℕ → ℕ → ℕ → ℕ → Result → Type 0
ReadEnds locks dev pos count room j i r = ReadSays locks dev pos count room j i r.ret r

module _ (dev : Dev) (v : IsValid dev) (pos count room j i : ℕ) (small : pos + count < 2 ^ 64) where
  abbrev p : Place
  p = place dev.quantum dev.qset pos

  cut_lem : pos < dev.size → cut dev.size pos count ≡ min count (dev.size - pos)
  unfolding cut
  cut_lem before = ground arith

  -- The bytes that a copy of `n` bytes hands over.
  copied :
      (bytes : Block) (n : ℕ)
      → slot dev.sets p.item p.s_pos ≡ some bytes
      → n ≤ dev.quantum - p.q_pos
      → get_elem? (take n (drop p.q_pos bytes)) j ≡ handed dev pos n j
  unfolding cell
  copied bytes n at fits = elim (Bool-cases (ltb j n)) [
    | inl inside ↦ rw inside (
        let below : j < n = ground arith in
        get_elem?-take n (drop p.q_pos bytes) j below
        ∙ get_elem?-drop p.q_pos bytes j
        ∙ rw (place_shift dev.quantum dev.qset v.some_bytes v.some_blocks pos j (omega arith), at)
            refl)
    | inr past ↦ rw past (
        get_elem?-past (take n (drop p.q_pos bytes)) j
          (ground (arith, length-take n (drop p.q_pos bytes))))
  ]

  at_block :
      (sets : List Qset) (allocs : ℕ) (bytes : Block)
      → pos < dev.size
      → cell (record dev { sets = sets }) i ≡ cell dev i
      → slot dev.sets p.item p.s_pos ≡ some bytes
      → ReadEnds true dev pos count room j i (
          read_block
            (record dev { sets = sets })
            pos
            (cut dev.size pos count)
            room
            allocs
            p.q_pos
            bytes)
  unfolding read_block span
  at_block sets allocs bytes before same at =
      let c = cut dev.size pos count in
      let n = if ltb (dev.quantum - p.q_pos) c then dev.quantum - p.q_pos else c in
      let inside = cut_lem before in
      let not_end : leb dev.size pos ≡ false = ground arith in
      let least : n ≡ span dev pos count = rw (not_end, at) (ground (arith, inside)) in
      let fits : n ≤ dev.quantum - p.q_pos = ground arith in
      elim (Bool-cases (ltb room n)) [
        | inl short ↦ rw short (
            let less : room < n = ground arith in
            (omega arith, refl, copied bytes room at (omega arith), refl, same))
        | inr all ↦ rw all (least, refl, copied bytes n at fits, refl, same)
      ]

  -- A read of no bytes.
  nothing :
      (dev' : Dev)
      → 0 ≡ span dev pos count
      → dev'.size ≡ dev.size
      → cell dev' i ≡ cell dev i
      → (k : ℕ)
      → ReadEnds true dev pos count room j i
          (record { ret = done 0; delivered = []; pos = pos; dev = dev'; allocs = k })
  nothing dev' none_left size same k =
      let low : ltb j 0 ≡ false = ground arith in (none_left, omega arith, rw low refl, size, same)

  ended : leb dev.size pos ≡ true → 0 ≡ span dev pos count
  unfolding span
  ended end = rw end refl

  hole : leb dev.size pos ≡ false → slot dev.sets p.item p.s_pos ≡ none → 0 ≡ span dev pos count
  unfolding span
  hole before e = rw (before, e) refl

  same_sets :
      (sets : List Qset)
      → ((t s : ℕ) → slot sets t s ≡ slot dev.sets t s)
      → cell (record dev { sets = sets }) i ≡ cell dev i
  unfolding cell
  same_sets sets slots = rw (slots) refl

  -- A read of a valid device, whose end is below 2^64. It hands over the bytes at the position and
  -- after it, as many as `count`, the size of the device and the block allow, none at the end or in
  -- a hole, and moves the position by as many; with EFAULT if the process has room for fewer, and
  -- then hands over those and keeps the position; or fails with ERESTARTSYS, the device as before,
  -- without the lock. The bytes of the device and its size stay.
  pub read-cell :
      (locks : Bool) (allocs : ℕ)
      → ReadEnds locks dev pos count room j i (read locks allocs dev pos count room)
  unfolding read
  read-cell false allocs = (refl, refl, refl, refl)
  read-cell true allocs = elim (Bool-cases (leb dev.size pos)) [
    | inl end ↦ rw end (nothing dev (ended end) refl refl allocs)
    | inr before ↦ rw before (
        let slots = follow-slot p.item allocs dev.sets in
        go before (slot r.sets p.item p.s_pos) (sym (slots p.item p.s_pos))
          (same_sets r.sets slots))
  ]
    where
      r : Followed
      r = follow p.item allocs dev.sets

      dev' : Dev
      dev' = record dev { sets = r.sets }

      go :
          leb dev.size pos ≡ false
          → (block : Option Block) → slot dev.sets p.item p.s_pos ≡ block
          → cell dev' i ≡ cell dev i
          → ReadEnds true dev pos count room j i (elim block as (λ x. Result) [
            | none ↦ record {
              ret = done 0;
              delivered = [];
              pos = pos;
              dev = dev';
              allocs = r.allocs;
            }
            | some bytes ↦ read_block dev' pos (cut dev.size pos count) room r.allocs p.q_pos bytes
          ])
      go before none e same = nothing dev' (hole before e) refl same r.allocs
      go before (some bytes) e same = at_block r.sets r.allocs bytes (ground arith) same e
