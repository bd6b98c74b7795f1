-- ===== src/ScullAccess/Held.antt =====
-- Who holds the devices after any sequence of opens and releases.
use mathlib.Core.Path.{subst}
use advanced_embedded_softwa.Base.{
  ℕ, suc, ◌+◌, ◌≡◌, refl, sym, ◌∙◌, ◌⊎◌, true, inl, inr, List, [], ◌∷◌, ◌++◌, arith, ◌==◌,
  Bool-cases, length, length-append,
}
use advanced_embedded_softwa.Kernel.{Ret, done, fail}
use advanced_embedded_softwa.ScullAccess.{
  single_open, single_release, Owned, Caller, lets_in, available, grab, user_open, user_release,
}

-- Those who have the device open after a call of an open that returns this.
abbrev pub admit : Ret → Caller → List Caller → List Caller
admit (done n) c callers = c ∷ callers
admit (fail e) c callers = callers

-- `scull_s_available` and those who have the device open, after any calls.
pub data HeldOnce : ℕ → List Caller → Type 0 where
  loaded : HeldOnce 1 []
  opens :
      {free : ℕ} {callers : List Caller} (c : Caller)
      → HeldOnce free callers
      → HeldOnce (single_open free).1 (admit (single_open free).0 c callers)
  releases :
      {free : ℕ} (front back : List Caller) (c : Caller)
      → HeldOnce free (front ++ (c ∷ back))
      → HeldOnce (single_release free) (front ++ back)

without :
    (front back : List Caller) (c : Caller)
    → length (front ++ (c ∷ back)) ≡ suc (length (front ++ back))
without front back c = omega (arith, length-append front (c ∷ back), length-append front back)

-- The device that may be open once is free or open once.
pub single_lem :
    (free : ℕ) (callers : List Caller) → HeldOnce free callers → free + length callers ≡ 1
unfolding single_open single_release
single_lem free callers loaded = refl
single_lem free callers (opens {free = old} {callers = rest} c held) =
    let before = single_lem old rest held in
    elim (Bool-cases (old == 1)) [ inl e ↦ rw e (ground arith) | inr e ↦ rw e before ]
single_lem free callers (releases {free = old} front back c held) =
    let before = single_lem old (front ++ (c ∷ back)) held in omega (arith, without front back c)

-- The count and the owner, and those who have the device open: they came in by `scull_u_open`.
pub data HeldBy : Owned → List Caller → Type 0 where
  loaded : HeldBy record { count = 0; owner = 0 } []
  opens :
      {s : Owned} {callers : List Caller} (c : Caller)
      → HeldBy s callers
      → HeldBy (user_open s c).1 (admit (user_open s c).0 c callers)
  releases :
      {s : Owned} (front back : List Caller) (c : Caller)
      → HeldBy s (front ++ (c ∷ back))
      → HeldBy (user_release s) (front ++ back)

-- Whom the owner of a device admits: the user itself, one who acts for it, and one who may override.
abbrev pub Entitled : ℕ → Caller → Type 0
Entitled owner c = (c.uid ≡ owner) ⊎ (c.euid ≡ owner) ⊎ (c.override ≡ true)

pub lets_in-Entitled : (owner : ℕ) (c : Caller) → lets_in owner c ≡ true → Entitled owner c
unfolding lets_in
lets_in-Entitled owner c e = ground arith

-- The owner admits all of them.
abbrev pub LetsIn : ℕ → List Caller → Type 0
LetsIn owner [] = Unit
LetsIn owner (c ∷ callers) = Entitled owner c × LetsIn owner callers

without-LetsIn :
    (owner : ℕ) (front back : List Caller) (c : Caller)
    → LetsIn owner (front ++ (c ∷ back))
    → LetsIn owner (front ++ back)
without-LetsIn owner [] back c h = h.1
without-LetsIn owner (d ∷ front) back c h = (h.0, without-LetsIn owner front back c h.1)

-- The owner that a caller finds, or becomes, lets in the caller and those who were there.
grab-LetsIn :
    (s : Owned) (callers : List Caller) (c : Caller)
    → available s c ≡ true
    → length callers ≡ s.count
    → LetsIn s.owner callers
    → LetsIn (grab s c).owner (c ∷ callers)
unfolding available grab
grab-LetsIn s [] c e size inside = elim (Bool-cases (s.count == 0)) [
  | inl z ↦ rw z (inl refl, tt)
  | inr z ↦ absurd (ground arith)
]
grab-LetsIn s (d ∷ callers) c e size inside = elim (Bool-cases (s.count == 0)) [
  | inl z ↦ absurd (ground arith)
  | inr z ↦
      let same : (grab s c).owner ≡ s.owner = rw z refl in
      let asked : available s c ≡ lets_in s.owner c = rw z refl in
      subst (λ o. LetsIn o (c ∷ d ∷ callers)) (sym same)
        (lets_in-Entitled s.owner c (sym asked ∙ e), inside)
]

-- All who have the device open are counted, and each is the owner, acts for it, or may override.
pub user_lem :
    (s : Owned) (callers : List Caller)
    → HeldBy s callers
    → (length callers ≡ s.count) × LetsIn s.owner callers
unfolding user_open user_release grab
user_lem s callers loaded = (refl, tt)
user_lem s callers (opens {s = old} {callers = rest} c held) =
    let (size, inside) = user_lem old rest held in
    elim (Bool-cases (available old c)) [
      | inl e ↦ rw e (omega (arith, size), grab-LetsIn old rest c e size inside)
      | inr e ↦ rw e (size, inside)
    ]
user_lem s callers (releases {s = old} front back c held) =
    let (size, inside) = user_lem old (front ++ (c ∷ back)) held in
    (omega (arith, without front back c), without-LetsIn old.owner front back c inside)
