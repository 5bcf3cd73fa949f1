-- ===== src/Kueue/Threads/Preserved.antt =====
-- Every step of a thread keeps the numbers and the column family in line with the messages.
use librocks_dll.Prelude.{◌+◌, ◌<◌, ◌^◌, some, List, ◌≡◌}
use librocks_dll.Prelude.Text.{Text}
use librocks_dll.Engine.{Engine, Handle}
use librocks_dll.Engine.Laws.{Laws}
use librocks_dll.Kind.{KindImpl, kind_impl}
use librocks_dll.Kueue.Threads.State.{Shared}
use librocks_dll.Kueue.Threads.Labels.{Label, claims}
use librocks_dll.Kueue.Threads.Step.{Step, put_step, take_step, clear_step, erase_step}
use librocks_dll.Kueue.Threads.Invariant.{IsShared, Next}
use librocks_dll.Kueue.Threads.Puts.{put_step-Next}
use librocks_dll.Kueue.Threads.Takes.{take_step-Next}
use librocks_dll.Kueue.Threads.Erases.{erase_step-Next}
use librocks_dll.Kueue.Threads.Clears.{clear_step-Next}

module _ {W : Type 0} {E : Engine W} (L : Laws E) (k : KindImpl) (h : Handle) where
  module _ (handle : k.handle_ ≡ some h) (items : List Text) (s : Shared W)
      (i : IsShared L k h items s) where
    -- Every step has its effect on the messages, and the rest to match.
    pub step-Next :
        (l : Label) (t : Shared W)
        → (l ≡ claims → s.queue.max_key + 1 < 2 ^ 63)
        → Step E (kind_impl k) s l t
        → Next L k h l items t
    step-Next l t b (put_step x) = put_step-Next L k h handle items s i l t b x
    step-Next l t b (take_step x) = take_step-Next L k h handle items s i l t x
    step-Next l t b (clear_step x) = clear_step-Next L k h handle items s i l t x
    step-Next l t b (erase_step x) = erase_step-Next L k h handle items s i l t x
