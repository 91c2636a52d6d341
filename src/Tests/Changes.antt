-- ===== src/Tests/Changes.antt =====
-- Examples for the changes that the server reports, and for the item that gets its id.
use onedriver.Prelude.{
  String, true, false, none, some, List, [], ◌∷◌, ◌≡◌, ◌<◌, refl, arith, lookup, str_eq,
  if◌then◌else◌, ◌==◌, insert,
}
use onedriver.Item.{DriveItem, zero_item}
use onedriver.World.{World, Ptr, done}
use onedriver.Cache.{holds, ids_of}
use onedriver.Cache.Members.{Distinct}
use onedriver.Graph.{request, send_request, retry_once, read_result, read_response}
use onedriver.Auth.{refresh}
use onedriver.Cache.Content.{put_or_keep}
use onedriver.Delta.{apply_delta, keep_last, delta_round, poll_all, poll_deltas, apply_all}
use onedriver.Delta.Entries.{apply_delta_deletes}
use onedriver.Delta.Last.{IsOld, IsSession, inode_or, last_item, keep_last-last_item}
use onedriver.Delta.Online.{IsSaved, delta_round-IsSaved}
use onedriver.Graph.Attempts.{first_request}
use onedriver.Delta.Pages.{Pages, PollEnds, poll_all_ends}
use onedriver.Tests.{sample_host, sample_laws, sample_world, sample_item, sample_delta, willing}
use onedriver.Tests.Store.{sample-HasRoom}
use onedriver.Tests.Uploads.{sample-IsFresh}

-- The server tells that the file is gone.
abbrev deleting_world : World (sample_host willing)
deleting_world = record (sample_world willing) {
  heap = λ p.
      if p == 2
      then record sample_delta { item = record sample_item { deleted = some "deleted" } }
      else (sample_world willing).heap p;
}

apply_delta_deletes_example :
    (w' : World (sample_host willing)) × (apply_delta (sample_host willing) 2 deleting_world
      ≡ done none w')
    × (lookup "F" w'.metadata ≡ none)
    × (holds "F" (ids_of (w'.heap 0).children) ≡ false)
    × Distinct (ids_of (w'.heap 0).children)
unfolding lookup holds
apply_delta_deletes_example =
    apply_delta_deletes (sample_host willing) 2 0 deleting_world refl 1 0 refl refl refl (refl, tt)

-- Two changes of one file, and one of another.
abbrev changes : List DriveItem
changes =
    record zero_item { id = "F"; size = 1 }
    ∷ record zero_item { id = "G" }
    ∷ record zero_item { id = "F"; size = 2 }
    ∷ []

keep_last-last_item_example :
    (w' : World (sample_host willing)) × (deltas' : List (String × Ptr)) × (keep_last
        (sample_host willing)
        changes
        []
        (sample_world willing)
      ≡ done deltas' w')
    × ((id : String)
        → inode_or (sample_host willing) w'.heap none (lookup id deltas')
          ≡ inode_or
              (sample_host willing)
              (sample_world willing).heap
              (last_item id changes)
              (lookup id []))
    × IsOld (sample_host willing) w' deltas'
    × IsSession (sample_host willing) (sample_world willing) w'
keep_last-last_item_example =
    keep_last-last_item (sample_host willing) changes [] (sample_world willing)
      (λ id p h. unfold lookup in cc)

no_more : str_eq "" "" ≡ false → 0 < 0
no_more h = cc

abbrev one_page : Pages (sample_host willing)
one_page = record {
  body = λ sent. [];
  left = λ sent. 0;
  answers = λ sent. refl;
  falls = λ r sent. no_more;
}

poll_all_ends_example : PollEnds (sample_host willing) one_page 1 [] (sample_world willing)
poll_all_ends_example =
    poll_all_ends (sample_host willing) one_page 1 [] (sample_world willing) refl sample-IsFresh
      (λ id p h. unfold lookup in cc) (omega arith)

-- A file system that is offline, and the same after a round without changes.
abbrev offline_world : World (sample_host willing)
offline_world = record (sample_world willing) { offline = true }

abbrev online_world : World (sample_host willing)
online_world = record (sample_world willing) {
  offline = false;
  sent = first_request (sample_host willing) "" "GET" [] (sample_world willing) ∷ [];
  readings = 1;
  delta_bucket = ("deltaLink", []) ∷ [];
}

delta_round-IsSaved_example :
    IsSaved (sample_host willing) (sample_laws willing) (sample-HasRoom "deltaLink") online_world
unfolding delta_round poll_all poll_deltas request send_request refresh retry_once read_result
    read_response keep_last apply_all put_or_keep insert
delta_round-IsSaved_example =
    delta_round-IsSaved (sample_host willing) (sample_laws willing) (sample-HasRoom "deltaLink") 1
      offline_world online_world refl
