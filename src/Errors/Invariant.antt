-- ===== src/Errors/Invariant.antt =====
-- The pending flag of apt-pkg/contrib/error.cc.
use aptum.Prelude.{
  ◌≡◌, refl, ap, ◌∙◌, Bool, true, false, ◌||◌, List, [], ◌∷◌, ◌++◌, some, arith, All, some_inj,
  is_empty, leb, ◌≤◌, ℕ,
}
use mathlib.Core.Path.{subst}
use aptum.Errors.{
  MsgType, fatal, error, warning, notice, audit, debug, Item, MsgStack, GlobalError, Text, initial,
  is_error, level, has_error, push_message, pop_from, pop_message, discard, push_to_stack,
  revert_to, revert_to_stack, merge_with, merge_with_stack, dump_errors, empty, at_least,
}

abbrev pub Flagged : MsgStack → Type 0
Flagged f = f.pending_flag ≡ has_error f.messages

-- The pending flag of the list and of each frame tells whether it holds an error.
pub record IsConsistent (s : GlobalError) : Type 0 where
  pub pending : s.pending_flag ≡ has_error s.messages
  pub frames : All Flagged s.stacks

has_error-append : (ms ns : List Item) → has_error (ms ++ ns) ≡ (has_error ms || has_error ns)
unfolding has_error
has_error-append [] ns = refl
has_error-append (m ∷ ms) ns = ground (arith, has_error-append ms ns)

push_message-IsConsistent :
    (type : MsgType) (text : Text) (s : GlobalError)
    → IsConsistent s
    → IsConsistent (push_message type text s)
unfolding push_message
push_message-IsConsistent type text s h = record {
  pending = rw has_error-append (unfold has_error in ground (arith, h.pending));
  frames = h.frames;
}

pop_from-IsConsistent :
    (ms : List Item) (s : GlobalError)
    → s.messages ≡ ms
    → IsConsistent s
    → IsConsistent (pop_from ms s).2
unfolding pop_from
pop_from-IsConsistent [] s e h = h
pop_from-IsConsistent (m ∷ ms) s e h =
    let flag : s.pending_flag ≡ (is_error m.type || has_error ms) =
      h.pending ∙ unfold has_error in ap has_error e in
    record { pending = ground (arith, flag); frames = ground (arith, h.frames) }

revert_to-IsConsistent :
    (stacks : List MsgStack) (s : GlobalError) {t : GlobalError}
    → All Flagged stacks
    → revert_to stacks s ≡ some t
    → IsConsistent t
unfolding revert_to
revert_to-IsConsistent [] s h e = cc
revert_to-IsConsistent (f ∷ below) s {t} h e =
    subst IsConsistent (some_inj e) (record { pending = h.0; frames = h.1 })

merge_with-IsConsistent :
    (stacks : List MsgStack) (s : GlobalError) {t : GlobalError}
    → All Flagged stacks
    → s.pending_flag ≡ has_error s.messages
    → merge_with stacks s ≡ some t
    → IsConsistent t
unfolding merge_with
merge_with-IsConsistent [] s h p e = cc
merge_with-IsConsistent (f ∷ below) s h p e = subst IsConsistent (some_inj e) (record {
  pending = ground (arith, has_error-append f.messages s.messages, p, h.0);
  frames = h.1;
})

-- The operations on the error list.
pub data Step (s : GlobalError) : GlobalError → Type 0 where
  insert : (type : MsgType) (text : Text) → Step s (push_message type text s)
  pop : Step s (pop_message s).2
  discarded : Step s (discard s)
  dumped :
      (threshold : MsgType) (merge_stack : Bool) → Step s (dump_errors threshold merge_stack s).1
  pushed : Step s (push_to_stack s)
  reverted : {t : GlobalError} → revert_to_stack s ≡ some t → Step s t
  merged : {t : GlobalError} → merge_with_stack s ≡ some t → Step s t

pub data Reach : GlobalError → Type 0 where
  start : Reach initial
  next : {s t : GlobalError} → Reach s → Step s t → Reach t

Step-IsConsistent : {s t : GlobalError} → Step s t → IsConsistent s → IsConsistent t
Step-IsConsistent {s} (insert type text) h = push_message-IsConsistent type text s h
Step-IsConsistent {s} pop h = unfold pop_message in pop_from-IsConsistent s.messages s refl h
Step-IsConsistent discarded h =
    unfold discard has_error in record { pending = refl; frames = h.frames }
Step-IsConsistent (dumped threshold merge_stack) h =
    unfold dump_errors has_error in record { pending = refl; frames = h.frames }
Step-IsConsistent pushed h =
    unfold push_to_stack has_error in record { pending = refl; frames = (h.pending, h.frames) }
Step-IsConsistent {s} (reverted e) h =
    unfold revert_to_stack in revert_to-IsConsistent s.stacks _ h.frames e
Step-IsConsistent {s} (merged e) h =
    unfold merge_with_stack in merge_with-IsConsistent s.stacks s h.frames h.pending e

-- After any operations on a new error list, the pending flag says whether the list holds an error or
-- a fatal error, and so does the flag of each frame on the stack for its list.
pub Reach-IsConsistent : {s : GlobalError} → Reach s → IsConsistent s
Reach-IsConsistent start = unfold has_error in record { pending = refl; frames = tt }
Reach-IsConsistent (next r st) = Step-IsConsistent st (Reach-IsConsistent r)

error-level : (t : MsgType) → is_error t ≡ leb 30 (level t)
error-level fatal = refl
error-level error = refl
error-level warning = refl
error-level notice = refl
error-level audit = refl
error-level debug = refl

no_error-at_least :
    (n : ℕ) (ms : List Item) → n ≤ 30 → has_error ms ≡ true → is_empty (at_least n ms) ≡ false
unfolding has_error at_least
no_error-at_least n [] le h = cc
no_error-at_least n (m ∷ ms) le h = ground (arith, error-level m.type, no_error-at_least n ms le)

-- For a threshold up to ERROR, empty(threshold) holds exactly when no message reaches the threshold.
pub empty-at_least :
    (threshold : MsgType) (s : GlobalError)
    → Reach s
    → level threshold ≤ 30
    → empty threshold s ≡ is_empty (at_least (level threshold) s.messages)
unfolding empty
empty-at_least threshold s r le = ground (
  arith,
  (Reach-IsConsistent r).pending,
  no_error-at_least (level threshold) s.messages le,
  empty_list s.messages,
)
  where
    empty_list :
        (ms : List Item) → is_empty ms ≡ true → is_empty (at_least (level threshold) ms) ≡ true
    empty_list [] h = refl
    empty_list (m ∷ ms) h = cc
