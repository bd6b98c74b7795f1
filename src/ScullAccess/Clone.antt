-- ===== src/ScullAccess/Clone.antt =====
-- The devices of the terminals.
use advanced_embedded_softwa.Base.{
  ℕ, ◌≡◌, refl, true, false, inl, inr, Option, none, some, List, ◌∷◌, ◌==◌, arith, if◌then◌else◌,
  Bool-cases,
}
use advanced_embedded_softwa.Kernel.{Ret, done}
use advanced_embedded_softwa.ScullAccess.{ListItem, search_key, lookfor_device, clone_open}

-- The answer of an open, before which the list was `items`: it succeeds with this device.
pub record Opened {ℓ} {D : Type ℓ} (key : ℕ) (items : List (ListItem D)) (device : D)
    (r : Ret × Option D × List (ListItem D)) : Type ℓ where
  pub ret : r.0 ≡ done 0
  pub given : r.1 ≡ some device
  -- The list then has this device for the terminal, and the others as before.
  pub listed :
      (other : ℕ)
      → search_key other r.2 ≡ (if other == key then some device else search_key other items)

-- The device that is there, or else the new one.
abbrev pub choose {ℓ} : {D : Type ℓ} → Option D → D → D
choose none fresh = fresh
choose (some device) fresh = device

clone_open_found {ℓ} :
    {D : Type ℓ} (fresh : D) (key : ℕ) (items : List (ListItem D)) (s : Option D)
    → search_key key items ≡ s
    → Opened key items (choose s fresh) (clone_open (some fresh) (some key) items)
unfolding clone_open lookfor_device search_key
clone_open_found fresh key items (some device) e =
    let after : lookfor_device (some fresh) key items ≡ (some device, items) =
      rw (e, lookfor_device) refl in
    rw (after, clone_open)
      record {
        ret = refl;
        given = refl;
        listed = λ other. elim (Bool-cases (other == key)) [
          | inl same ↦ let is_key : other ≡ key = ground arith in rw (after, same, is_key) e
          | inr apart ↦ rw (after, apart) refl
        ];
      }
clone_open_found fresh key items none e =
    let added = record { device = fresh; key = key } ∷ items in
    let after : lookfor_device (some fresh) key items ≡ (some fresh, added) =
      rw (e, lookfor_device) refl in
    rw (after, clone_open)
      record {
        ret = refl;
        given = refl;
        listed = λ other. elim (Bool-cases (other == key)) [
          | inl same ↦
              let back : (key == other) ≡ true = ground arith in
              rw (after, same, back, search_key) refl
          | inr apart ↦
              let back : (key == other) ≡ false = ground arith in
              rw (after, apart, back, search_key) refl
        ];
      }

-- A process that has a terminal, where kmalloc gives a block if it is asked, gets the device of its
-- terminal: the one that is in the list, or else the new one. It is in the list from then on, and
-- the devices of the other terminals stay what they were.
pub clone_open_lem {ℓ} :
    {D : Type ℓ} (fresh : D) (key : ℕ) (items : List (ListItem D))
    → Opened key items
        (choose (search_key key items) fresh)
        (clone_open (some fresh) (some key) items)
clone_open_lem fresh key items = clone_open_found fresh key items (search_key key items) refl
