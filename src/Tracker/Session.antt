-- ===== src/Tracker/Session.antt =====
-- The text that a tracking thread ends with, read back by the event loop.

use text.Mathlib.TextLemmas.{nil-append, cons-append}
use time_tracker.Common.{String, ◌≡◌, refl, ◌<◌, some}
use time_tracker.Common.Word.{I32, i32_mod}
use time_tracker.Text.{split, show_i32}
use time_tracker.Text.Decimal.{parse_i32-show_i32}
use time_tracker.Text.Split.{IsFree, split-append, split_of_IsFree, IsFree-show_i32}
use time_tracker.Events.{session_of}
use time_tracker.Tracker.{session_text}

-- For a process name without `;` and any 32-bit counter, the handler of a LongestSession event
-- gets back from the thread's message the name and the counter that the thread put in.
pub session_of-session_text :
    (p : String) (n : I32)
    → IsFree b';' p
    → n < i32_mod
    → session_of (split b';' (session_text p n)) ≡ some (p, n)
unfolding session_text session_of
session_of-session_text p n free small =
    rw
      (
        cons-append ";" String.[] (show_i32 n),
        nil-append (show_i32 n),
        split-append ";" p (show_i32 n) free,
        split_of_IsFree b';' (show_i32 n) (IsFree-show_i32 n),
        parse_i32-show_i32 n small,
      )
      refl
