-- ===== src/Workers/Frames.antt =====
-- How `ws_service` of src/main.rs answers the frames of a browser's socket. The task that sends the notices
-- ends when it is told by `close_tx`, a channel for one value.
use arbexpert_backend.Base.{
  ℕ, ◌+◌, ◌≡◌, String, Bool, true, false, ◌||◌, Option, none, some, List, [], ◌∷◌, arith,
  if◌then◌else◌,
}

-- `web::ws::Frame`, with payloads of a type of their own; a continuation is the last.
pub data Frame (P : Type 0) : Type 0 where
  text binary ping pong close : P → Frame P
  continuation : Frame P

pub data Reply (P : Type 0) : Type 0 where
  text_reply : String → Reply P
  binary_reply pong_reply close_reply : P → Reply P

-- Whether `close_tx` is still there, and how often the task was told.
pub record Closing : Type 0 where
  pub armed : Bool
  pub told : ℕ

abbrev pub new_closing : Closing
new_closing = record { armed = true; told = 0 }

unfoldable pub take_close : Closing → Closing
take_close c = if c.armed then record { armed = false; told = c.told + 1 } else c

-- The service; `lossy` is `String::from_utf8_lossy`.
unfoldable pub answer_frame :
    {P : Type 0} → (P → String) → Frame P → Closing → Closing × Option (Reply P)
answer_frame lossy (text p) c = (c, some (text_reply (lossy p)))
answer_frame lossy (binary p) c = (c, some (binary_reply p))
answer_frame lossy (ping p) c = (c, some (pong_reply p))
answer_frame lossy (close p) c = (take_close c, some (close_reply p))
answer_frame lossy (pong p) c = (c, none)
answer_frame lossy continuation c = (c, none)

unfoldable pub answer_frames : {P : Type 0} → (P → String) → List (Frame P) → Closing → Closing
answer_frames lossy [] c = c
answer_frames lossy (f ∷ fs) c = answer_frames lossy fs (answer_frame lossy f c).0

abbrev pub is_close : {P : Type 0} → Frame P → Bool
is_close (close p) = true
is_close _ = false

pub has_close : {P : Type 0} → List (Frame P) → Bool
has_close [] = false
has_close (f ∷ fs) = is_close f || has_close fs

told_once :
    {P : Type 0} (lossy : P → String) (fs : List (Frame P)) (c : Closing)
    → (answer_frames lossy fs c).told
      ≡ c.told + (if c.armed then if has_close fs then 1 else 0 else 0)
unfolding answer_frames answer_frame take_close has_close
told_once lossy [] c = ground arith
told_once lossy (text p ∷ fs) c = told_once lossy fs c
told_once lossy (binary p ∷ fs) c = told_once lossy fs c
told_once lossy (ping p ∷ fs) c = told_once lossy fs c
told_once lossy (pong p ∷ fs) c = told_once lossy fs c
told_once lossy (continuation ∷ fs) c = told_once lossy fs c
told_once lossy (close p ∷ fs) c = ground (arith, told_once lossy fs (take_close c))

-- Whatever frames come: the task that sends the notices is told once if one of them is a close, and
-- otherwise not at all.
pub close_told_once :
    {P : Type 0} (lossy : P → String) (fs : List (Frame P))
    → (answer_frames lossy fs new_closing).told ≡ (if has_close fs then 1 else 0)
close_told_once lossy fs = omega (arith, told_once lossy fs new_closing)
