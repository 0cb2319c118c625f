-- ===== src/Errors.antt =====
-- The error stack of apt-pkg/contrib/error.h and apt-pkg/contrib/error.cc.
--
-- The formatting of a message is the C library's vsnprintf, a parameter: at a buffer size it gives the
-- text in the buffer and the returned length, `none` for a negative one. `Stacks.back()` of an empty
-- stack is undefined in C++, here `none`. Output to std::clog is the field `clog`.
pub mod Invariant
pub mod Nesting
pub mod Insertion
pub mod Dump
mod Tests
use aptum.Chars.{c_string}
use aptum.Prelude.{
  ℕ, zero, suc, ◌+◌, ◌*◌, Bool, true, false, not, ◌&&◌, ◌||◌, List, [], ◌∷◌, ◌++◌, Option, none,
  some, leb, ltb, ◌==◌, if◌then◌else◌, is_empty, ◌^◌, ◌%◌, ◌-◌,
}

pub data MsgType : Type 0 where
  fatal error warning notice audit debug : MsgType

abbrev pub level : MsgType → ℕ
level fatal = 40
level error = 30
level warning = 20
level notice = 10
level audit = 5
level debug = 0

-- `Type == ERROR || Type == FATAL`
abbrev pub is_error : MsgType → Bool
is_error fatal = true
is_error error = true
is_error _ = false

abbrev pub Text : Type 0
Text = List ℕ

pub record Item : Type 0 where
  pub text : Text
  pub type : MsgType

pub record MsgStack : Type 0 where
  pub messages : List Item
  pub pending_flag : Bool

-- `stacks` has the innermost frame first.
pub record GlobalError : Type 0 where
  pub messages : List Item
  pub pending_flag : Bool
  pub stacks : List MsgStack
  pub clog : List Item

abbrev pub initial : GlobalError
initial = record { messages = []; pending_flag = false; stacks = []; clog = [] }

-- What a successful round of Insert does with the formatted text.
unfoldable pub push_message : MsgType → Text → GlobalError → GlobalError
push_message type text s =
    let m : Item = record { text = text; type = type } in
    record {
      messages = s.messages ++ m ∷ [];
      pending_flag = (if is_error type then true else s.pending_flag);
      stacks = s.stacks;
      clog = (if level type == 40 || level type == 0 then s.clog ++ m ∷ [] else s.clog);
    }

-- One call of Insert with a buffer size: done, or the size for the next call.
pub data Attempt : Type 0 where
  inserted : GlobalError → Attempt
  retry : ℕ → Attempt

-- `n + 1` for an int, which is taken to wrap around at its largest value, as a size_t.
abbrev pub int_next : ℕ → ℕ
int_next n = if n == 2 ^ 31 - 1 then 2 ^ 64 - 2 ^ 31 else n + 1

-- What vsnprintf returns is an int: some number below 2 ^ 31, or `none` for a negative one.
unfoldable pub check_size : MsgType → ℕ → GlobalError → Text × Option ℕ → Attempt
unfolding c_string
check_size type msg_size s (text, some n) =
    if ltb n msg_size then inserted (push_message type (c_string text) s) else retry (int_next n)
check_size type msg_size s (text, none) = retry (msg_size * 2 % 2 ^ 64)

unfoldable pub try_insert : (ℕ → Text × Option ℕ) → MsgType → ℕ → GlobalError → Attempt
unfolding check_size
try_insert vsnprintf type msg_size s = check_size type msg_size s (vsnprintf msg_size)

-- `do … while (retry)` with fuel.
unfoldable pub insert_loop :
    ℕ → (ℕ → Text × Option ℕ) → MsgType → ℕ → GlobalError → Option GlobalError
insert_loop zero vsnprintf type msg_size s = none
insert_loop (suc fuel) vsnprintf type msg_size s = elim (try_insert vsnprintf type msg_size s) [
  | inserted s' ↦ some s'
  | retry size ↦ insert_loop fuel vsnprintf type size s
]

unfoldable pub has_error : List Item → Bool
has_error [] = false
has_error (m ∷ ms) = is_error m.type || has_error ms

unfoldable pub pop_from : List Item → GlobalError → Bool × Option Text × GlobalError
unfolding has_error
pop_from [] s = (false, none, s)
pop_from (m ∷ ms) s =
    let ret = is_error m.type in
    let popped : GlobalError = record s { messages = ms } in
    if not s.pending_flag || not ret
    then (ret, some m.text, popped)
    else if has_error ms
    then (ret, some m.text, popped)
    else (ret, some m.text, record s { messages = ms; pending_flag = false })

-- The result is whether the message was an error, and the text if there was a message.
unfoldable pub pop_message : GlobalError → Bool × Option Text × GlobalError
unfolding pop_from
pop_message s = pop_from s.messages s

unfoldable pub discard : GlobalError → GlobalError
discard s = record s { messages = []; pending_flag = false }

unfoldable pub at_least : ℕ → List Item → List Item
at_least threshold [] = []
at_least threshold (m ∷ ms) =
    let rest = at_least threshold ms in if leb threshold (level m.type) then m ∷ rest else rest

-- `empty(threshold)`; the search finds nothing.
unfoldable pub empty : MsgType → GlobalError → Bool
unfolding at_least
empty threshold s =
    if s.pending_flag
    then false
    else if is_empty s.messages
    then true
    else is_empty (at_least (level threshold) s.messages)

unfoldable pub push_to_stack : GlobalError → GlobalError
unfolding discard
push_to_stack s =
    let frame : MsgStack = record { messages = s.messages; pending_flag = s.pending_flag } in
    discard (record s { stacks = frame ∷ s.stacks })

unfoldable pub revert_to : List MsgStack → GlobalError → Option GlobalError
revert_to [] s = none
revert_to (pack ∷ below) s =
    some (record s { messages = pack.messages; pending_flag = pack.pending_flag; stacks = below })

unfoldable pub revert_to_stack : GlobalError → Option GlobalError
unfolding revert_to discard
revert_to_stack s = revert_to s.stacks (discard s)

unfoldable pub merge_with : List MsgStack → GlobalError → Option GlobalError
merge_with [] s = none
merge_with (pack ∷ below) s = some (record s {
  messages = pack.messages ++ s.messages;
  pending_flag = s.pending_flag || pack.pending_flag;
  stacks = below;
})

unfoldable pub merge_with_stack : GlobalError → Option GlobalError
unfolding merge_with
merge_with_stack s = merge_with s.stacks s

-- `std::copy` through a front_inserter: each message goes before those inserted so far.
unfoldable pub copy_to_front : List Item → List Item → List Item
copy_to_front [] into = into
copy_to_front (m ∷ ms) into = copy_to_front ms (m ∷ into)

unfoldable pub merged_messages : List MsgStack → List Item → List Item
unfolding copy_to_front
merged_messages [] into = into
merged_messages (pack ∷ below) into = merged_messages below (copy_to_front pack.messages into)

-- The messages that DumpErrors prints, and the state behind it.
unfoldable pub dump_errors : MsgType → Bool → GlobalError → List Item × GlobalError
unfolding merged_messages at_least discard
dump_errors threshold merge_stack s =
    let all = if merge_stack then merged_messages s.stacks s.messages else s.messages in
    (at_least (level threshold) all, discard s)
