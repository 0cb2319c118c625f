-- ===== src/Errors/Nesting.antt =====
-- PushToStack, RevertToStack and MergeWithStack of apt-pkg/contrib/error.cc around other operations.
use aptum.Prelude.{◌≡◌, refl, sym, ap, ◌∙◌, some_inj, [], ◌∷◌, Bool, ◌||◌, List, ◌++◌, some, arith}
use aptum.Errors.{
  MsgType, GlobalError, Text, push_message, pop_from, pop_message, discard, push_to_stack,
  revert_to, revert_to_stack, merge_with, merge_with_stack, dump_errors, Item,
}

-- Operations in which every push is closed by a revert or a merge.
pub data Balanced : GlobalError → GlobalError → Type 0 where
  here : (s : GlobalError) → Balanced s s
  insert :
      {s t : GlobalError} (type : MsgType) (text : Text)
      → Balanced s t
      → Balanced s (push_message type text t)
  pop : {s t : GlobalError} → Balanced s t → Balanced s (pop_message t).2
  discarded : {s t : GlobalError} → Balanced s t → Balanced s (discard t)
  dumped :
      {s t : GlobalError} (threshold : MsgType) (merge_stack : Bool)
      → Balanced s t
      → Balanced s (dump_errors threshold merge_stack t).1
  reverted :
      {s t u v : GlobalError}
      → Balanced s t
      → Balanced (push_to_stack t) u
      → revert_to_stack u ≡ some v
      → Balanced s v
  merged :
      {s t u v : GlobalError}
      → Balanced s t
      → Balanced (push_to_stack t) u
      → merge_with_stack u ≡ some v
      → Balanced s v

pop_stacks : (ms : List Item) (s : GlobalError) → (pop_from ms s).2.stacks ≡ s.stacks
unfolding pop_from
pop_stacks [] s = refl
pop_stacks (m ∷ ms) s = ground arith

-- What revert and merge give behind a balanced run inside a push.
revert_lem :
    (s t : GlobalError)
    → t.stacks ≡ (push_to_stack s).stacks
    → revert_to_stack t ≡ some (record s { clog = t.clog })
unfolding revert_to_stack push_to_stack
revert_lem s t e = rw (e, revert_to)

merge_lem :
    (s t : GlobalError)
    → t.stacks ≡ (push_to_stack s).stacks
    → merge_with_stack t
      ≡ some (record {
        messages = s.messages ++ t.messages;
        pending_flag = t.pending_flag || s.pending_flag;
        stacks = s.stacks;
        clog = t.clog;
      })
unfolding merge_with_stack push_to_stack
merge_lem s t e = rw (e, merge_with)

push_message_stacks :
    (type : MsgType) (text : Text) (s : GlobalError) → (push_message type text s).stacks ≡ s.stacks
unfolding push_message
push_message_stacks type text s = refl

pop_message_stacks : (s : GlobalError) → (pop_message s).2.stacks ≡ s.stacks
unfolding pop_message
pop_message_stacks s = pop_stacks s.messages s

discard_stacks : (s : GlobalError) → (discard s).stacks ≡ s.stacks
unfolding discard
discard_stacks s = refl

dump_stacks :
    (threshold : MsgType) (merge_stack : Bool) (s : GlobalError)
    → (dump_errors threshold merge_stack s).1.stacks ≡ s.stacks
unfolding dump_errors
dump_stacks threshold merge_stack s = refl

stacks-Balanced : {s t : GlobalError} → Balanced s t → t.stacks ≡ s.stacks
stacks-Balanced (here s) = refl
stacks-Balanced (insert type text b) = push_message_stacks type text _ ∙ stacks-Balanced b
stacks-Balanced (pop {t = t} b) = pop_message_stacks t ∙ stacks-Balanced b
stacks-Balanced (discarded b) = discard_stacks _ ∙ stacks-Balanced b
stacks-Balanced (dumped threshold merge_stack b) =
    dump_stacks threshold merge_stack _ ∙ stacks-Balanced b
stacks-Balanced (reverted {t = t} {u = u} b inner e) =
    ap (λ (g : GlobalError). g.stacks) (some_inj (sym e ∙ revert_lem t u (stacks-Balanced inner)))
    ∙ stacks-Balanced b
stacks-Balanced (merged {t = t} {u = u} b inner e) =
    ap (λ (g : GlobalError). g.stacks) (some_inj (sym e ∙ merge_lem t u (stacks-Balanced inner)))
    ∙ stacks-Balanced b

-- A revert behind a push and any balanced operations finds its frame and restores the messages, the
-- pending flag and the stack; only what was written to std::clog remains.
pub revert-push :
    (s t : GlobalError)
    → Balanced (push_to_stack s) t
    → revert_to_stack t ≡ some (record s { clog = t.clog })
revert-push s t b = revert_lem s t (stacks-Balanced b)

-- A merge behind a push and any balanced operations finds its frame and puts the messages from before
-- the push in front of those since; an error pending on either side is pending.
pub merge-push :
    (s t : GlobalError)
    → Balanced (push_to_stack s) t
    → merge_with_stack t
      ≡ some (record {
        messages = s.messages ++ t.messages;
        pending_flag = t.pending_flag || s.pending_flag;
        stacks = s.stacks;
        clog = t.clog;
      })
merge-push s t b = merge_lem s t (stacks-Balanced b)
