-- ===== src/Delta/Online.antt =====
-- What a round that got all changes leaves behind.
use onedriver.Prelude.{
  ℕ, String, Bool, true, false, Option, none, some, List, [], ◌≡◌, refl, if◌then◌else◌, subst,
}
use onedriver.Host.{Host, BucketLaws}
use onedriver.World.{Ptr, World, done, pure, get_world, ◌>>=◌, ◌>>◌}
use onedriver.World.Inversion.{and_then-eq-done}
use onedriver.Cache.Stored.{HasRoom, get-put_or_keep_self}
use onedriver.Cache.Content.{serialize_all, put_or_keep}
use onedriver.Delta.{poll_all, apply_all, apply_round, finish_round, after_poll, delta_round}

module _ (host : Host) (laws : BucketLaws host) (room : HasRoom host "deltaLink") where
  -- A file system that is online, and whose delta link is in the database.
  pub record IsSaved (w : World host) : Type 0 where
    pub online : w.offline ≡ false
    pub link : host.bucket_get w.delta_bucket "deltaLink" ≡ some (host.bytes_of w.delta_link)

  -- The world at the end of a whole round.
  abbrev saved : World host → World host
  saved v = record v {
    offline = false;
    delta_bucket = put_or_keep host v.delta_bucket "deltaLink" (host.bytes_of v.delta_link);
  }

  finish_round-IsSaved : (v w : World host) → finish_round host true v ≡ done tt w → IsSaved w
  unfolding finish_round
  finish_round-IsSaved v w h =
      let same : saved v ≡ w = cc in
      subst IsSaved same (record {
        online = refl;
        link =
            get-put_or_keep_self host laws v.delta_bucket "deltaLink" (host.bytes_of v.delta_link)
              room;
      })

  apply_round-IsSaved :
      (deltas : List (String × Ptr)) (v w : World host)
      → apply_round host deltas true v ≡ done tt w
      → IsSaved w
  unfolding apply_round
  apply_round-IsSaved deltas v w h =
      let (_, u, _, h₁) =
        and_then-eq-done (apply_all host deltas v)
          (λ _. do
            x ← get_world
            if x.offline then pure tt else serialize_all host
            finish_round host true)
          h in
      let (_, u₁, _, h₂) =
        and_then-eq-done ((if u.offline then pure tt else serialize_all host) u)
          (λ _. finish_round host true) h₁ in
      finish_round-IsSaved u₁ w h₂

  after_poll-IsSaved :
      (polled : Option (List (String × Ptr) × Bool)) (v w : World host)
      → after_poll host polled v ≡ done (some true) w
      → IsSaved w
  unfolding after_poll
  after_poll-IsSaved none v w h = cc
  after_poll-IsSaved (some (deltas, success)) v w h =
      let (_, u, run, end) =
        and_then-eq-done (apply_round host deltas success v) (λ _. pure (some success)) h in
      let whole : success ≡ true = cc in
      let last : u ≡ w = cc in
      subst IsSaved last (
        apply_round-IsSaved deltas v u
          (subst (λ s. apply_round host deltas s v ≡ done tt u) whole run))

  -- In a database that takes every value under the key of the delta link, a round whose poll
  -- succeeds leaves the file system online, and the link of the next poll in the database.
  pub delta_round-IsSaved :
      (fuel : ℕ) (v w : World host) → delta_round host fuel v ≡ done (some true) w → IsSaved w
  unfolding delta_round
  delta_round-IsSaved fuel v w h =
      let (polled, u, _, rest) = and_then-eq-done (poll_all host fuel [] v) (after_poll host) h in
      after_poll-IsSaved polled u w rest
