-- ===== src/Errors/Tests.antt =====
-- Runs of the error list (apt-pkg/contrib/error.cc), and its theorems at concrete lists.
use aptum.Prelude.{
  ℕ, ◌-◌, ◌≡◌, refl, ◌||◌, true, [], ◌∷◌, ◌++◌, Option, some, arith, length, take, is_empty,
}
use aptum.Chars.{c_string, codes}
use aptum.Errors.{
  fatal, error, warning, notice, GlobalError, Text, initial, push_message, push_to_stack,
  revert_to_stack, merge_with_stack, dump_errors, empty, at_least, level, insert_loop,
}
use aptum.Errors.Invariant
use aptum.Errors.Invariant.{IsConsistent, Reach, start, next, Reach-IsConsistent, empty-at_least}
use aptum.Errors.Nesting
use aptum.Errors.Nesting.{Balanced, revert-push, merge-push}
use aptum.Errors.Insertion.{insert_loop-push}
use aptum.Errors.Dump.{dump_errors-frames, frames_reversed}

abbrev warned : GlobalError
warned = push_message warning (codes "w") initial

abbrev failed : GlobalError
failed = push_message error (codes "e") warned

abbrev inner : GlobalError
inner = push_message error (codes "x") (push_to_stack failed)

failed-Reach : Reach failed
failed-Reach =
    next (next start (Invariant.insert warning (codes "w"))) (Invariant.insert error (codes "e"))

inner-Balanced : Balanced (push_to_stack failed) inner
inner-Balanced = Nesting.insert error (codes "x") (Nesting.here (push_to_stack failed))

Reach-IsConsistent_example : IsConsistent failed
Reach-IsConsistent_example = Reach-IsConsistent failed-Reach

empty-at_least_example : empty notice failed ≡ is_empty (at_least (level notice) failed.messages)
empty-at_least_example = empty-at_least notice failed failed-Reach (omega arith)

revert-push_example : revert_to_stack inner ≡ some (record failed { clog = inner.clog })
revert-push_example = revert-push failed inner inner-Balanced

merge-push_example :
    merge_with_stack inner
    ≡ some (record {
      messages = failed.messages ++ inner.messages;
      pending_flag = inner.pending_flag || failed.pending_flag;
      stacks = failed.stacks;
      clog = inner.clog;
    })
merge-push_example = merge-push failed inner inner-Balanced

abbrev message : Text
message = codes "no space"

abbrev c99_format : ℕ → Text × Option ℕ
c99_format size = (take (size - 1) message, some (length message))

insert_loop-push_example :
    insert_loop 2 c99_format fatal 400 initial ≡ some (push_message fatal message initial)
insert_loop-push_example =
    insert_loop-push c99_format fatal message initial (λ size p. refl) (omega arith)
      (unfold c_string in refl)

-- Two messages of one frame are printed in reverse.
abbrev framed : GlobalError
framed = push_to_stack (push_message notice (codes "2") (push_message notice (codes "1") initial))

reversed :
    (dump_errors notice true framed).0
    ≡ record { text = codes "2"; type = notice } ∷ record { text = codes "1"; type = notice } ∷ []
unfolding dump_errors push_to_stack push_message
reversed = refl

dump_errors-frames_example :
    (dump_errors notice true framed).0
    ≡ at_least (level notice) (frames_reversed framed.stacks ++ framed.messages)
dump_errors-frames_example = dump_errors-frames notice framed
