-- ===== src/Delta/Pages.antt =====
-- The pages of changes, and when the poll for them ends.
use onedriver.Prelude.{
  ℕ, zero, suc, ◌+◌, ◌<◌, ◌≤◌, String, Bool, true, false, not, some, List, [], ◌∷◌, ◌≡◌, refl, sym,
  ap, ◌∙◌, arith, inl, inr, if◌then◌else◌, str_eq, Bool-cases, Option-cases, lookup, trim_prefix,
  length, Option, none, ◌++◌,
}
use mathlib.Core.List.{append-nil}
use onedriver.Item.{ok, DeltaResponse, DriveItem, Bytes, HttpRequest, response}
use onedriver.Host.{Host}
use onedriver.World.{Inode, Ptr, World, done}
use onedriver.Auth.Fresh.{IsFresh, after_reading}
use onedriver.Graph.{graph_url, read_response}
use onedriver.Graph.Attempts.{first_request, request_once}
use onedriver.Delta.{keep_last, poll_deltas, poll_all}
use onedriver.Delta.Last.{
  IsOld, IsSession, inode_or, last_item, last_item-append, keep_last-last_item,
}

-- What was sent once some requests, first to last, followed those sent before (last to first).
abbrev pub sent_after : List HttpRequest → List HttpRequest → List HttpRequest
sent_after [] sent = sent
sent_after (r ∷ requests) sent = sent_after requests (r ∷ sent)

-- A server that answers each request with a page of changes, and that has at most `left` pages left
-- that name a next one.
pub record Pages (host : Host) : Type 0 where
  pub body : List HttpRequest → Bytes
  pub left : List HttpRequest → ℕ
  pub answers : (sent : List HttpRequest) → host.transport sent ≡ response 200 (body sent)
  pub falls :
      (r : HttpRequest) (sent : List HttpRequest)
      → str_eq (host.unmarshal_delta (body (r ∷ sent))).next_link "" ≡ false
      → left (r ∷ sent) < left sent

module _ (host : Host) (pages : Pages host) where
  -- The items on the pages that answer the requests, in order, after some that were sent before.
  abbrev pub items_of : List HttpRequest → List HttpRequest → List DriveItem
  items_of [] sent = []
  items_of (r ∷ requests) sent =
      (host.unmarshal_delta (pages.body (r ∷ sent))).values ++ items_of requests (r ∷ sent)

  -- An id stands for the last item of the later pages, or else for what it stood for before them.
  means_next :
      (id : String) (page later : List DriveItem) (heap heap₁ : Ptr → Inode)
      (found found₁ : Option Ptr)
      → inode_or host heap₁ none found₁ ≡ inode_or host heap (last_item id page) found
      → inode_or host heap₁ (last_item id later) found₁
        ≡ inode_or host heap (last_item id (page ++ later)) found
  means_next id page later heap heap₁ found found₁ means =
      elim (Option-cases (last_item id later)) [
        | inl none_later ↦ rw none_later (rw (last_item-append id page later) (rw none_later means))
        | inr (item, e) ↦ rw e (rw (last_item-append id page later) (rw e refl))
      ]

  -- The page that answers the last request.
  abbrev pub last_page : World host → DeltaResponse
  last_page w = host.unmarshal_delta (pages.body w.sent)

  -- The world after one more page.
  turned : World host → World host
  turned w =
      let sent = first_request host w.delta_link "GET" [] w ∷ w.sent in
      let page = host.unmarshal_delta (pages.body sent) in
      let link = if str_eq page.next_link "" then page.delta_link else page.next_link in
      record (after_reading w) { sent = sent; delta_link = trim_prefix link graph_url }

  poll_deltas-turned :
      (w : World host)
      → str_eq w.auth.access_token "" ≡ false
      → IsFresh host w
      → poll_deltas host w
        ≡ done
            (ok ((last_page (turned w)).values, not (str_eq (last_page (turned w)).next_link "")))
            (turned w)
  unfolding poll_deltas read_response turned
  poll_deltas-turned w token fresh =
      rw (request_once host w.delta_link "GET" [] w token fresh (pages.answers _) refl) refl

  -- One round of the poll.
  poll_page :
      (fuel : ℕ) (deltas deltas₁ : List (String × Ptr)) (w v w₁ : World host) {more : Bool}
      → poll_deltas host w ≡ done (ok ((last_page v).values, more)) v
      → keep_last host (last_page v).values deltas v ≡ done deltas₁ w₁
      → poll_all host (suc fuel) deltas w
        ≡ (if more then poll_all host fuel deltas₁ else (λ u. done (some (deltas₁, true)) u)) w₁
  unfolding poll_all
  poll_page fuel deltas deltas₁ w v w₁ polled kept = rw polled (rw kept refl)

  -- The poll ends with the deltas of all pages: it has sent some requests, first to last, and each
  -- id stands for the last item with it on the pages that answer them, or else for what it stood
  -- for before. The last page names no next one.
  pub record PollEnds (fuel : ℕ) (deltas : List (String × Ptr)) (w : World host) : Type 0 where
    pub world : World host
    pub deltas_after : List (String × Ptr)
    pub requests : List HttpRequest
    pub run : poll_all host fuel deltas w ≡ done (some (deltas_after, true)) world
    pub sent : world.sent ≡ sent_after requests w.sent
    pub few : length requests ≤ 1 + pages.left w.sent
    pub means :
        (id : String)
        → inode_or host world.heap none (lookup id deltas_after)
          ≡ inode_or host w.heap (last_item id (items_of requests w.sent)) (lookup id deltas)
    pub ended : str_eq (last_page world).next_link "" ≡ true
    pub link : world.delta_link ≡ trim_prefix (last_page world).delta_link graph_url

  abbrev turned_request : World host → HttpRequest
  turned_request w = first_request host w.delta_link "GET" [] w

  turned_sent :
      (w w₁ : World host) → IsSession host (turned w) w₁ → w₁.sent ≡ turned_request w ∷ w.sent
  unfolding turned
  turned_sent w w₁ same = same.sent

  -- The items on the next page.
  abbrev next_items : World host → List DriveItem
  next_items w = (host.unmarshal_delta (pages.body (turned_request w ∷ w.sent))).values

  turned_means :
      (w w₁ : World host) (deltas : List (String × Ptr)) (id : String) (found₁ : Option Ptr)
      → inode_or host w₁.heap none found₁
        ≡ inode_or host
            (turned w).heap
            (last_item id (last_page (turned w)).values)
            (lookup id deltas)
      → inode_or host w₁.heap none found₁
        ≡ inode_or host w.heap (last_item id (next_items w)) (lookup id deltas)
  unfolding turned
  turned_means w w₁ deltas id found₁ h = h

  turned_link :
      (w w₁ : World host)
      → IsSession host (turned w) w₁
      → str_eq (last_page (turned w)).next_link "" ≡ true
      → (str_eq (last_page w₁).next_link "" ≡ true)
        × (w₁.delta_link ≡ trim_prefix (last_page w₁).delta_link graph_url)
  unfolding turned
  turned_link w w₁ same last = (rw same.sent last, rw (same.link, same.sent) (rw last refl))

  turned_falls :
      (w w₁ : World host)
      → IsSession host (turned w) w₁
      → str_eq (last_page (turned w)).next_link "" ≡ false
      → pages.left w₁.sent < pages.left w.sent
  unfolding turned
  turned_falls w w₁ same more = rw same.sent (pages.falls (turned_request w) w.sent more)

  turned_token : (w w₁ : World host) → IsSession host (turned w) w₁ → w₁.auth ≡ w.auth
  unfolding turned
  turned_token w w₁ same = same.auth

  -- With tokens that do not expire, deltas so far at addresses that were given out, and a server
  -- that answers with pages and names a next one a bounded number of times, a poll with more fuel
  -- than that number ends, with at most one request more than that number. Each id then stands for
  -- the last item with it on all pages, in the order in which they came, or else for what it stood
  -- for before, and the link of the next poll is the delta link of the last page.
  pub poll_all_ends :
      (fuel : ℕ) (deltas : List (String × Ptr)) (w : World host)
      → str_eq w.auth.access_token "" ≡ false
      → IsFresh host w
      → IsOld host w deltas
      → pages.left w.sent < fuel
      → PollEnds fuel deltas w
  poll_all_ends zero deltas w token fresh old enough = absurd (omega arith)
  poll_all_ends (suc fuel) deltas w token fresh old enough =
      let v = turned w in
      let old₀ : IsOld host v deltas = unfold turned in old in
      let (w₁, deltas₁, kept, means, old₁, same) =
        keep_last-last_item host (last_page v).values deltas v old₀ in
      let polled = poll_page fuel deltas deltas₁ w v w₁ (poll_deltas-turned w token fresh) kept in
      let r = turned_request w in
      let auth = turned_token w w₁ same in
      let sent₁ = turned_sent w w₁ same in
      let first = λ (id : String). turned_means w w₁ deltas id (lookup id deltas₁) (means id) in
      elim (Bool-cases (str_eq (last_page v).next_link "")) [
        | inl last ↦
            let (ended, link) = turned_link w w₁ same last in
            record {
              world = w₁;
              deltas_after = deltas₁;
              requests = r ∷ [];
              run = rw last at polled;
              sent = sent₁;
              few = omega arith;
              means = λ id.
                  first id
                  ∙ ap (λ items. inode_or host w.heap (last_item id items) (lookup id deltas))
                      (sym (append-nil (next_items w)));
              ended = ended;
              link = link;
            }
        | inr more ↦
            let fall = turned_falls w w₁ same more in
            let fresh₁ : IsFresh host w₁ = record {
              unexpired = λ n. rw auth (fresh.unexpired n);
            } in
            let rest = poll_all_ends fuel deltas₁ w₁ (rw auth token) fresh₁ old₁ (omega arith) in
            let few = rest.few in
            record {
              world = rest.world;
              deltas_after = rest.deltas_after;
              requests = r ∷ rest.requests;
              run = (rw more at polled) ∙ rest.run;
              sent = rest.sent ∙ ap (sent_after rest.requests) sent₁;
              few = omega arith;
              means = λ id.
                  rest.means id
                  ∙ ap
                      (λ sent.
                        inode_or host w₁.heap (last_item id (items_of rest.requests sent))
                          (lookup id deltas₁))
                      sent₁
                  ∙ means_next id (next_items w) (items_of rest.requests (r ∷ w.sent)) w.heap
                      w₁.heap (lookup id deltas) (lookup id deltas₁) (first id);
              ended = rest.ended;
              link = rest.link;
            }
      ]
