-- ===== src/Scull/Ioctl/Codes.antt =====
-- The commands and their numbers.
use advanced_embedded_softwa.Base.{
  ◌≡◌, refl, sym, ap, ◌∙◌, Bool, true, false, inl, inr, Option, none, some, arith, ltb, ◌==◌, ◌&&◌,
  if◌then◌else◌, Bool-cases,
}
use advanced_embedded_softwa.Scull.Ioctl.{
  Cmd, magic, same_bool, same_cmd, Command, reset, set_quantum, set_qset, tell_quantum, tell_qset,
  get_quantum, get_qset, query_quantum, query_qset, exchange_quantum, exchange_qset, shift_quantum,
  shift_qset, tell_size, query_size, code, decode,
}

-- The `switch` reaches the case of every command.
pub decode-code : (c : Command) → decode (code c) ≡ some c
unfolding decode code
decode-code reset = refl
decode-code set_quantum = refl
decode-code set_qset = refl
decode-code tell_quantum = refl
decode-code tell_qset = refl
decode-code get_quantum = refl
decode-code get_qset = refl
decode-code query_quantum = refl
decode-code query_qset = refl
decode-code exchange_quantum = refl
decode-code exchange_qset = refl
decode-code shift_quantum = refl
decode-code shift_qset = refl
decode-code tell_size = refl
decode-code query_size = refl

-- The type and the number of every command pass the tests before the `switch`.
pub code_known : (k : Command) → ((code k).magic == magic ≡ true) × (ltb 14 (code k).nr ≡ false)
unfolding code
code_known reset = (refl, refl)
code_known set_quantum = (refl, refl)
code_known set_qset = (refl, refl)
code_known tell_quantum = (refl, refl)
code_known tell_qset = (refl, refl)
code_known get_quantum = (refl, refl)
code_known get_qset = (refl, refl)
code_known query_quantum = (refl, refl)
code_known query_qset = (refl, refl)
code_known exchange_quantum = (refl, refl)
code_known exchange_qset = (refl, refl)
code_known shift_quantum = (refl, refl)
code_known shift_qset = (refl, refl)
code_known tell_size = (refl, refl)
code_known query_size = (refl, refl)

both : (a b : Bool) → (a && b) ≡ true → (a ≡ true) × (b ≡ true)
both a b e = ground arith

same_bool_eq : (a b : Bool) → same_bool a b ≡ true → a ≡ b
same_bool_eq true true e = refl
same_bool_eq true false e = absurd (ground arith)
same_bool_eq false true e = absurd (ground arith)
same_bool_eq false false e = refl

same_cmd_eq : (a b : Cmd) → same_cmd a b ≡ true → a ≡ b
same_cmd_eq a b e =
    let (reads, rest) = both (same_bool a.reads b.reads) _ e in
    let (writes, rest') = both (same_bool a.writes b.writes) _ rest in
    let (kind, rest'') = both (a.magic == b.magic) _ rest' in
    let (nr, size) = both (a.nr == b.nr) _ rest'' in
    let r = same_bool_eq a.reads b.reads reads in
    let w = same_bool_eq a.writes b.writes writes in
    let m : a.magic ≡ b.magic = ground arith in
    let n : a.nr ≡ b.nr = ground arith in let s : a.size ≡ b.size = ground arith in cc

some_eq : {x k : Command} → some x ≡ some k → x ≡ k
some_eq e = ground arith

-- One case label.
label :
    (cmd : Cmd) (x k : Command) (rest : Option Command)
    → (rest ≡ some k → cmd ≡ code k)
    → (if same_cmd cmd (code x) then some x else rest) ≡ some k
    → cmd ≡ code k
label cmd x k rest later e = elim (Bool-cases (same_cmd cmd (code x))) [
  | inl same ↦
      (let here : some x ≡ some k = sym (rw same refl) ∙ e in
        same_cmd_eq cmd (code x) same ∙ ap code (some_eq here))
  | inr other ↦ later (sym (rw other refl) ∙ e)
]

-- Only the number of a command reaches its case.
pub code-decode : (cmd : Cmd) (k : Command) → decode cmd ≡ some k → cmd ≡ code k
unfolding decode
code-decode cmd k = label cmd reset k _ (
    label cmd set_quantum k _ (
      label cmd tell_quantum k _ (
        label cmd get_quantum k _ (
          label cmd query_quantum k _ (
            label cmd exchange_quantum k _ (
              label cmd shift_quantum k _ (
                label cmd set_qset k _ (
                  label cmd tell_qset k _ (
                    label cmd get_qset k _ (
                      label cmd query_qset k _ (
                        label cmd exchange_qset k _ (
                          label cmd shift_qset k _ (
                            label cmd tell_size k _ (
                              label cmd query_size k none (λ e. absurd (ground arith))))))))))))))))
