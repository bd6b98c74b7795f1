-- ===== src/Echo/Tests.antt =====
-- A first line through the server to a new device.
use advanced_embedded_softwa.Base.{ℕ, ◌≡◌, refl, true, false, none, some, List, [], ◌∷◌, arith}
use advanced_embedded_softwa.Kernel.{Heap, done}
use advanced_embedded_softwa.Kernel.Sample.{sample, sample-IsLawful, sample_kmalloc}
use advanced_embedded_softwa.CharDriver as Driver
use advanced_embedded_softwa.CharDriver.Spec.{Represents}
use advanced_embedded_softwa.CharDriver.Setup.{empty_log, init-Represents}
use advanced_embedded_softwa.Server.{in_place, bytes, result, Pass, Calls, thread_func}
use advanced_embedded_softwa.Server.Send.{Works}
use advanced_embedded_softwa.Echo.{on_device, longer, echo_lem}

abbrev heap : Heap
heap p = none

abbrev line : List ℕ
line = b'a' ∷ b'b' ∷ 10 ∷ []

abbrev pass : Pass
pass = record { allocated = true; fresh = 7 ∷ []; realloc = in_place; sends = some }

abbrev calls : Calls
calls = record {
  opened = true;
  allocated = true;
  on_stack = 1 ∷ 2 ∷ 3 ∷ [];
  recvs = (bytes (b'a' ∷ []), in_place) ∷ (bytes (b'b' ∷ 10 ∷ []), in_place) ∷ [];
  writes = some;
  file = λ w. w;
  passes = pass ∷ pass ∷ pass ∷ [];
  shared = λ n k. n;
}

pass-Works : Works pass
pass-Works = (refl, refl, λ n. refl)

takes_line : (Driver.write sample heap Driver.init line 3 0).ret ≡ done 3
unfolding Driver.write Driver.make_space Driver.init sample_kmalloc Driver.fill Driver.finish
    Driver.commit Driver.has_newline
takes_line = refl

echo_lem_example :
    (thread_func (on_device sample heap Driver.init line 9 calls) 0
      ≡ result record {
        holds_mutex = false;
        closed = true;
        thread_complete = true;
        written = line;
        sent = line;
        end_pos = 3;
      })
    × Represents
        (Driver.write sample heap Driver.init line 3 0).heap
        (Driver.write sample heap Driver.init line 3 0).dev
        (longer empty_log line)
echo_lem_example =
    echo_lem sample heap Driver.init empty_log calls 9 ((b'a' ∷ []) ∷ []) (b'b' ∷ []) [] [] pass
      (pass ∷ pass ∷ []) line (b'a' ∷ b'b' ∷ []) [] sample-IsLawful refl (λ h p at n. refl)
      (init-Represents heap) refl (omega arith) takes_line refl refl refl refl
      (omega arith, (omega arith, tt), tt) (omega arith, tt)
      (omega arith, (omega arith, (omega arith, tt))) refl (omega arith, (omega arith, tt))
      (omega arith) (omega arith) (omega arith) refl refl
      (pass-Works, (pass-Works, (pass-Works, tt))) (omega arith)
