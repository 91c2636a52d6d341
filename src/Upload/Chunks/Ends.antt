-- ===== src/Upload/Chunks/Ends.antt =====
-- How an upload ends: as complete, as errored, or, when a request fails below HTTP, as it was.
use onedriver.Prelude.{String, Option, none, some}
use onedriver.Item.{UploadState, complete, errored}
use onedriver.Host.{Host}
use onedriver.World.{World}
use onedriver.Upload.Chunks.{Ended}

-- Complete goes with no error; an error goes with the state errored or with the state `kept`.
pub data Ends (kept : UploadState) : UploadState → Option String → Type 0 where
  completes : Ends kept complete none
  fails : (err : String) → Ends kept errored (some err)
  gives_up : (err : String) → Ends kept kept (some err)

-- The end of an upload, where there is one, is of this kind.
abbrev pub EndsWell : UploadState → Ended → Type 0
EndsWell kept none = Unit {0}
EndsWell kept (some (state, err)) = Ends kept state err
