-- ===== src/Tests/Order.antt =====
-- Examples for the order in which changes are applied and uploads end.
use onedriver.Prelude.{
  true, false, List, String, none, some, [], ◌∷◌, ◌≡◌, refl, arith, if◌then◌else◌, lookup, insert,
  ◌==◌,
}
use onedriver.Item.{not_started, started, complete, ok, zero_item}
use onedriver.World.{World, UploadSession, Inode, Ptr, done}
use onedriver.Fields.{is_dir, get_mode}
use onedriver.Graph.{no_auth}
use onedriver.Cache.{holds}
use onedriver.Cache.Children.{get_children_id, to_lower}
use onedriver.Delta.{apply_all}
use onedriver.Delta.Round.{InOrder, AllThere, apply_all_creates}
use onedriver.Delta.Order.{Arrived, apply_all_order}
use onedriver.Manager.{Manager, new_manager, finish, has, Reach}
use onedriver.Manager.Overtaken.{overtakes}
use onedriver.Tests.{apart, sample_host, sample_world, sample_root, sample_delta, willing}

abbrev below : String → String → Inode
below parent id = record sample_delta {
  item = record zero_item {
    id = id;
    name = id;
    parent = some (record { path = "/drive/root:"; id = parent });
  };
}

-- The root at 0, and the deltas of a folder at 1 and of two items of it at 2 and 3.
abbrev arriving_world : World (sample_host willing)
arriving_world = record (sample_world willing) {
  heap = λ p.
      if p == 0
      then record sample_root { children = some [] }
      else if p == 1
      then record (below "R" "D") {
        item = record (below "R" "D").item { folder = some 2 };
        mode = 0;
      }
      else if p == 2
      then below "D" "X"
      else below "D" "Y";
  metadata = ("R", 0) ∷ [];
}

arrived : Arrived (sample_host willing) 2 1 3 0 "R" arriving_world
unfolding lookup holds is_dir get_mode
arrived = record {
  cached = refl;
  named = refl;
  folder_new = record {
    reference = record { path = "/drive/root:"; id = "R" };
    referenced = refl;
    place = refl;
    alive = refl;
    unknown = refl;
    unstored = refl;
  };
  first_new = record {
    reference = record { path = "/drive/root:"; id = "D" };
    referenced = refl;
    place = refl;
    alive = refl;
    unknown = refl;
    unstored = refl;
  };
  second_new = record {
    reference = record { path = "/drive/root:"; id = "D" };
    referenced = refl;
    place = refl;
    alive = refl;
    unknown = refl;
    unstored = refl;
  };
  folder_named = refl;
  pointers = (
    λ e. omega arith,
    λ e. omega arith,
    λ e. omega arith,
    λ e. omega arith,
    λ e. omega arith,
    λ e. omega arith,
  );
  first_folder = apart "X" "D" refl;
  second_folder = apart "Y" "D" refl;
  first_second = apart "X" "Y" refl;
  directory = refl;
  no_listing = refl;
  unlisted = refl;
}

abbrev bad_order : List (String × Ptr)
bad_order = ("X", 2) ∷ ("D", 1) ∷ ("Y", 3) ∷ []

abbrev good_order : List (String × Ptr)
good_order = ("D", 1) ∷ ("X", 2) ∷ ("Y", 3) ∷ []

apply_all_order_example :
    ((v : World (sample_host willing)) × (apply_all (sample_host willing) bad_order arriving_world
        ≡ done tt v)
      × (lookup "X" v.metadata ≡ none)
      × (get_children_id (sample_host willing) "D" no_auth v
          ≡ done (ok ((to_lower (sample_host willing) "Y", 3) ∷ [])) v))
    × ((v : World (sample_host willing)) × (apply_all
            (sample_host willing)
            good_order
            arriving_world
          ≡ done tt v)
        × (lookup "X" v.metadata ≡ some 2)
        × (lookup "Y" v.metadata ≡ some 3)
        × ((v.heap 1).children ≡ some ("X" ∷ "Y" ∷ [])))
apply_all_order_example =
    apply_all_order (sample_host willing) 2 1 3 0 "R" arriving_world arrived no_auth

good_InOrder :
    InOrder
      (sample_host willing)
      arriving_world.heap
      arriving_world.metadata_bucket
      good_order
      arriving_world.metadata
unfolding lookup insert
good_InOrder = (
  (
    0,
    record {
      reference = record { path = "/drive/root:"; id = "R" };
      referenced = refl;
      alive = refl;
      unknown = refl;
      unstored = refl;
      above = refl;
      named = refl;
      apart = λ e. omega arith;
    },
    (λ e. omega arith, λ e. omega arith, (λ e. omega arith, λ e. omega arith, tt)),
  ),
  (
    (
      1,
      record {
        reference = record { path = "/drive/root:"; id = "D" };
        referenced = refl;
        alive = refl;
        unknown = refl;
        unstored = refl;
        above = refl;
        named = refl;
        apart = λ e. omega arith;
      },
      (λ e. omega arith, λ e. omega arith, tt),
    ),
    (
      (
        1,
        record {
          reference = record { path = "/drive/root:"; id = "D" };
          referenced = refl;
          alive = refl;
          unknown = refl;
          unstored = refl;
          above = refl;
          named = refl;
          apart = λ e. omega arith;
        },
        tt,
      ),
      tt,
    ),
  ),
)

apply_all_creates_example :
    (v : World (sample_host willing)) × (apply_all (sample_host willing) good_order arriving_world
      ≡ done tt v)
    × AllThere (sample_host willing) arriving_world.heap arriving_world.metadata_bucket good_order v
    × (lookup "R" v.metadata ≡ some 0)
unfolding lookup
apply_all_creates_example =
    apply_all_creates (sample_host willing) arriving_world good_order "R" 0 good_InOrder refl

-- The first session of a file is uploaded when the second one comes in.
abbrev resaved : Ptr → UploadSession
resaved p = record {
  id = "F";
  upload_url = "";
  size = p;
  content = [];
  state = if p == 1 then started else not_started;
}

abbrev busy : Manager
busy = record (new_manager resaved) { sessions = ("F", 1) ∷ []; running = 1 ∷ [] }

overtakes_example :
    (n : Manager) × Reach busy n
    × ((n.memory 2).state ≡ complete)
    × (has 2 n.running ≡ false)
    × (has 1 n.running ≡ true)
    × ((n.memory 1).id ≡ (n.memory 2).id)
    × (lookup "F" n.sessions ≡ some 2)
    × Reach n (finish 1 complete n)
unfolding has lookup
overtakes_example = overtakes 2 busy 1 (refl, refl, tt) refl refl refl refl
