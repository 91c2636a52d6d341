-- ===== src/Tests/Calls.antt =====
-- Examples of calls in a row, online and offline.
use onedriver.Cache.Paths.{
  restore, insert_under, insert_path, delete_found, delete_path, move_found, move_path, walk,
  path_parts, missing, get_path,
}
use onedriver.Remote.{remote_id}
use onedriver.Cache.Content.{delete_content}
use onedriver.Auth.{refresh}
use onedriver.Prelude.{
  delete, path_base, path_dir, trim_slash, split_slash, join_slash, in_base, decimal, path_join,
  clean_path, map_runes, String, false, some, insert, lookup, if◌then◌else◌, ◌==◌, true, List, [],
  ◌∷◌, ◌≡◌, refl, arith,
}
use onedriver.Item.{ok}
use onedriver.Host.{Host}
use onedriver.World.{World, Outcome, done, panic, exit}
use onedriver.World.Mode.{Same}
use onedriver.Auth.Fresh.{IsFresh}
use onedriver.Graph
use onedriver.Graph.Attempts.{first_request}
use onedriver.Delta.{delta_round}
use onedriver.Delta.Failed.{base, delta_round_failed}
use onedriver.Delta.Poll.{delta_round_offline}
use onedriver.Handlers.{leading_slash, cache_path, unlink_child, create}
use onedriver.File.{read, write, get_attr, make_attr}
use onedriver.Slices.{copy_at, overwrite}
use onedriver.Open.{fill}
use onedriver.Fields.{get_mode, is_dir, rand_string, local_id, item_parent, new_inode}
use onedriver.Cache.{
  remove_first, drop_child, stored_inode, load_stored, keep_stored, leave_parent, delete_id, holds,
  join_parent, get_id, insert_id, set_parent, insert_child,
}
use onedriver.Graph.{read_response, read_result, retry_once, send_request, request, no_auth}
use onedriver.Cache.Children.{
  fetched, adopt, find_child, find_among, enter, collect, children_of, list_found, get_children_id,
  get_child,
}
use onedriver.Cache.Named.{IsNamed}
use onedriver.Handlers.{unlink}
use onedriver.Open.{success}
use onedriver.Handlers.Created.{IsMade, create-IsMade}
use onedriver.Handlers.{rename}
use onedriver.Handlers.Renamed.{ChildIsRenamed, rename-IsRenamed}
use onedriver.Handlers.Unlinked.{IsGone, Accepts, unlink-IsGone}
use onedriver.World.{Ptr}
use onedriver.Calls.{Call, run_calls, run_call, write_call, read_call, create_call, getattr_call}
use onedriver.Calls.Mode.{run_calls-Same}
use onedriver.Calls.Session.{idle, call, failed_round, stays_offline}
use onedriver.Tests.{sample_laws, sample_host, sample_world, willing}
use onedriver.Tests.Failures.{broken}

-- A program writes to a file, reads it and makes another one, which go-fuse then has in its tree.
abbrev calls : List ((Ptr → String) × Call)
calls =
    ((λ p. ""), write_call 1 (7 ∷ []) 0)
    ∷ ((λ p. ""), read_call 1 1 0)
    ∷ ((λ p. ""), create_call 0 "new.txt" 420)
    ∷ ((λ p. if p == 3 then "new.txt" else ""), getattr_call 3)
    ∷ []

abbrev pub world_after : {host : Host} {A : Type 0} → World host → Outcome host A → World host
world_after w (done a v) = v
world_after w panic = w
world_after w exit = w

abbrev after_calls : World (sample_host willing)
after_calls =
    world_after (sample_world willing)
      (run_calls (sample_host willing) calls (sample_world willing))

run_calls-Same_example : Same (λ m. m) (sample_world willing) after_calls
unfolding run_calls run_call write overwrite copy_at read fill create new_inode item_parent local_id
    rand_string insert_child set_parent insert_id get_id lookup insert join_parent holds get_attr
    make_attr
run_calls-Same_example =
    run_calls-Same (sample_host willing) calls (sample_world willing) after_calls refl

abbrev offline_start : World (sample_host broken)
offline_start = record (sample_world broken) { offline = true }

offline_start-IsFresh : IsFresh (sample_host broken) offline_start
offline_start-IsFresh = record { unexpired = λ n. omega arith }

-- A file cannot be made, and the poll fails.
abbrev offline_end : World (sample_host broken)
offline_end = record offline_start {
  sent = first_request (sample_host broken) "" "GET" [] offline_start ∷ [];
  readings = 1;
}

refused_call :
    run_call (sample_host broken) (create_call 0 "new.txt" 420) offline_start
    ≡ done tt offline_start
unfolding run_call create
refused_call = refl

failed_run : delta_round (sample_host broken) 1 offline_start ≡ done (some false) offline_end
failed_run =
    delta_round_offline (sample_host broken) 0 offline_start "reset" refl offline_start-IsFresh refl

delta_round_failed_example : (offline_end.offline ≡ true) × Same base offline_start offline_end
delta_round_failed_example = delta_round_failed 1 offline_start offline_end failed_run

stays_offline_example : (offline_end.offline ≡ true) × Same base offline_start offline_end
stays_offline_example = stays_offline offline_start offline_end refl (
    failed_round (call idle offline_start.fuse_path (create_call 0 "new.txt" 420) refused_call) 1
      failed_run)

-- The server deletes the file.
abbrev unlinked_world : World (sample_host willing)
unlinked_world =
    world_after (sample_world willing)
      (unlink (sample_host willing) 0 "notes.txt" (sample_world willing))

unlink-IsGone_example :
    (q : Ptr) × (u : World (sample_host willing)) × (get_child
        (sample_host willing)
        "R"
        "notes.txt"
        no_auth
        (sample_world willing)
      ≡ done (ok q) u)
    × IsNamed (sample_host willing) "notes.txt" q u
    × (u.offline ≡ false)
    × IsGone (sample_host willing) (sample_laws willing) (u.heap q).id unlinked_world
    × Accepts (sample_host willing) (sample_laws willing) (u.heap q).id u
unfolding unlink get_child get_children_id get_id lookup list_found is_dir get_mode children_of
    collect enter find_among find_child insert map_runes unlink_child request send_request refresh
    retry_once read_result read_response delete_id leave_parent delete_content
unlink-IsGone_example =
    unlink-IsGone (sample_host willing) (sample_laws willing) 0 "notes.txt" (sample_world willing)
      unlinked_world refl

create-IsMade_example :
    (w' : World (sample_host willing)) × (create
        (sample_host willing)
        0
        "new.txt"
        420
        (sample_world willing)
      ≡ done (some 3, success) w')
    × IsMade (sample_host willing) "new.txt" 420 "R" 0 3 w'
unfolding lookup holds
create-IsMade_example =
    create-IsMade (sample_host willing) 0 (sample_world willing) refl refl (omega arith) (refl, tt)
      "new.txt" 420 refl refl

-- The file gets another name.
abbrev renamed_world : World (sample_host willing)
renamed_world =
    world_after (sample_world willing)
      (rename (sample_host willing) 0 "notes.txt" 0 "other.txt" (sample_world willing))

rename-IsRenamed_example :
    ChildIsRenamed (sample_host willing) "notes.txt" "/notes.txt" "/other.txt" renamed_world
unfolding rename cache_path get_id lookup get_child get_children_id list_found is_dir get_mode
    children_of collect enter find_among find_child insert map_runes remote_id get_path refresh
    adopt fetched missing path_parts walk keep_stored load_stored stored_inode read_response
    read_result request retry_once send_request leading_slash clean_path path_join decimal in_base
    join_slash split_slash trim_slash path_dir Graph.rename move_path move_found delete_path
    delete_found delete_id leave_parent path_base insert_path delete insert_under set_parent
    insert_id drop_child holds join_parent remove_first restore
rename-IsRenamed_example =
    rename-IsRenamed (sample_host willing) 0 "notes.txt" 0 "other.txt" (sample_world willing)
      renamed_world refl
