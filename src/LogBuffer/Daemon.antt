-- ===== src/LogBuffer/Daemon.antt =====
-- goblob/log_buffer/log_buffer.go: AppendEntry calls with the flushOldSegments of the daemon
-- between them.
use go_blob.Base.{ℕ, ◌≡◌, List, ◌++◌, All}
use go_blob.LogBuffer.{LogSegment, LogBuffer}
use go_blob.LogBuffer.Slots.{IsLive, events_of}
use go_blob.LogBuffer.Marks.{HandedIn, MarksHanded}

-- What any calls leave of a live buffer.
record IsKept (since k : ℕ) (lb lb' : LogBuffer) (es es' : ℕ → List (List ℕ))
    (new older : List (List ℕ)) (gone : List LogSegment) : Type 0 where
  live : IsLive since k lb' es'
  split : events_of k lb es ++ new ≡ older ++ events_of k lb' es'
  all_handed : All (HandedIn gone) older
  marks : MarksHanded gone lb' es'
