-- ===== src/Tests/Store.antt =====
-- Examples for the cache, the database and the changes that the server reports.
use onedriver.Prelude.{
  true, false, if◌then◌else◌, none, some, [], ◌∷◌, ◌≡◌, refl, String, arith, lookup, ◌==◌,
}
use onedriver.World.{World, done}
use onedriver.Fields.{get_size, is_dir, get_mode}
use onedriver.Cache.{get_id, insert_id, delete_id, holds, ids_of}
use onedriver.Cache.Content.{serialize_all, serializeable}
use onedriver.Cache.Lookup.{after_load}
use onedriver.Cache.Members.{Distinct}
use onedriver.Cache.Insert.{insert_id-get_id}
use onedriver.Cache.Delete.{get_id-delete_id}
use onedriver.Cache.Stored.{HasRoom, get_id-serialize_all}
use onedriver.Delta.{apply_delta}
use onedriver.Delta.Overwrite.{apply_delta_stale_size}
use onedriver.Tests.{
  apart, sample_host, sample_laws, sample_world, sample_root, sample_file, sample_delta, willing,
}

pub sample-HasRoom : (k : String) → HasRoom (sample_host willing) k
sample-HasRoom k b v = (_, refl)

-- The sample before the file was inserted, with its directory listed as empty.
listed_world : World (sample_host willing)
listed_world = record (sample_world willing) {
  heap = λ p. if p == 0 then record sample_root { children = some [] } else sample_file;
  metadata = ("R", 0) ∷ [];
}

-- The file is in memory, and its directory is nowhere.
orphan_world : World (sample_host willing)
orphan_world = record (sample_world willing) { metadata = ("F", 1) ∷ [] }

-- A later session.
later_world : World (sample_host willing)
later_world = record (sample_world willing) { metadata = [] }

insert_id-get_id_example :
    (w' : World (sample_host willing)) × (insert_id (sample_host willing) "F" 1 listed_world
      ≡ done tt w')
    × (get_id (sample_host willing) "F" w' ≡ done (some 1) w')
    × (holds "F" (ids_of (w'.heap 0).children) ≡ true)
    × Distinct (ids_of (w'.heap 0).children)
unfolding listed_world lookup
insert_id-get_id_example =
    insert_id-get_id (sample_host willing) "F" 1 0 listed_world refl (apart "R" "F" refl) refl
      (omega arith) refl tt

get_id-delete_id_example :
    (w' : World (sample_host willing)) × (delete_id (sample_host willing) "F" (sample_world willing)
      ≡ done tt w')
    × (get_id (sample_host willing) "F" w'
        ≡ done (some w'.next) (after_load (sample_host willing) "F" (serializeable sample_file) w'))
unfolding lookup
get_id-delete_id_example =
    get_id-delete_id (sample_host willing) "F" 1 0 (sample_world willing) {bytes = 3 ∷ []} refl refl
      refl refl

get_id-serialize_all_example :
    (w' : World (sample_host willing)) × (serialize_all (sample_host willing) (sample_world willing)
      ≡ done tt w')
    × (let v' = record later_world { metadata_bucket = w'.metadata_bucket } in
        get_id (sample_host willing) "F" v'
        ≡ done (some 3) (after_load (sample_host willing) "F" (serializeable sample_file) v'))
unfolding later_world lookup
get_id-serialize_all_example =
    get_id-serialize_all (sample_host willing) (sample_laws willing) (sample_world willing) "F"
      (apart "F" "root" refl) (sample-HasRoom "F") 1 later_world refl (refl, (refl, tt)) refl refl

apply_delta_stale_size_example :
    (w' : World (sample_host willing)) × (apply_delta (sample_host willing) 2 (sample_world willing)
      ≡ done none w')
    × ((w'.heap 1).content ≡ none)
    × ((w'.heap 1).has_changes ≡ false)
    × ((w'.heap 1).file ≡ sample_delta.file)
    × ((w'.heap 1).mod_time ≡ some 8)
    × (get_size (w'.heap 1) ≡ get_size sample_file)
unfolding lookup
apply_delta_stale_size_example =
    apply_delta_stale_size (sample_host willing) 2 1 0 (sample_world willing) refl refl refl refl
      refl refl refl (omega arith) (unfold get_size is_dir get_mode in omega arith)
