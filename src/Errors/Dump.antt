-- ===== src/Errors/Dump.antt =====
-- The order in which DumpErrors of apt-pkg/contrib/error.cc prints merged stacks.
use aptum.Prelude.{◌≡◌, refl, ◌∙◌, true, List, [], ◌∷◌, ◌++◌, append_assoc}
use mathlib.Core.List.{reverse, reverse-append}
use aptum.Errors.{
  MsgType, level, Item, MsgStack, GlobalError, at_least, copy_to_front, merged_messages,
  dump_errors,
}

-- Outermost frame first, each in the reverse of its order of insertion.
abbrev pub frames_reversed : List MsgStack → List Item
frames_reversed [] = []
frames_reversed (pack ∷ below) = frames_reversed below ++ reverse pack.messages

copy_to_front-reverse : (ms into : List Item) → copy_to_front ms into ≡ reverse ms ++ into
unfolding copy_to_front
copy_to_front-reverse [] into = refl
copy_to_front-reverse (m ∷ ms) into =
    copy_to_front-reverse ms (m ∷ into) ∙ rw (reverse-append (m ∷ []) ms, append_assoc)

merged_messages-frames :
    (stacks : List MsgStack) (into : List Item)
    → merged_messages stacks into ≡ frames_reversed stacks ++ into
unfolding merged_messages
merged_messages-frames [] into = refl
merged_messages-frames (pack ∷ below) into =
    merged_messages-frames below (copy_to_front pack.messages into)
    ∙ rw (copy_to_front-reverse, append_assoc)

-- DumpErrors with merged stacks prints, of what reaches the threshold, the frames from the outermost
-- on, the messages of each frame in reverse, and then the current messages in their order.
pub dump_errors-frames :
    (threshold : MsgType) (s : GlobalError)
    → (dump_errors threshold true s).0
      ≡ at_least (level threshold) (frames_reversed s.stacks ++ s.messages)
unfolding dump_errors
dump_errors-frames threshold s = rw (merged_messages-frames s.stacks s.messages)
