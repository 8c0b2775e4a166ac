-- ===== src/Api/Feed.antt =====
-- The live feed of apps/api/main.py: `_State.broadcast` and the loop of the route `/ws/live`. The set
-- of subscribers is a dict by a name for each connection; what a socket has been sent is its list of
-- frames. A peer that leaves ends its loop.
use defect_sense.Prelude.{
  ℕ, ◌+◌, String, Bool, true, false, Option, none, some, List, [], ◌∷◌, ◌++◌, length, ltb, ◌==◌,
  if◌then◌else◌,
}
use defect_sense.Dict.{Dict, lookup, insert, remove}
use defect_sense.Auth.{RbacMatrix}
use defect_sense.Auth.Gates.{StationScope, User, permits, WsIdentity, station_scope}
use defect_sense.Api.{default_station_id}

-- The capacity of a connection's queue.
abbrev pub queue_max : ℕ
queue_max = 64

module _ (M : Type 0) where
  -- A frame: the greeting, or a message with its `dropped_frames`, if it has that key.
  pub data Frame : Type 0 where
    hello : StationScope → Bool → Frame
    news : M → Option ℕ → Frame

  pub record Subscriber : Type 0 where
    pub queue : List M
    pub scope : StationScope
    pub dropped : ℕ

  pub record Connection : Type 0 where
    pub subscriber : Subscriber
    pub sent : List Frame

  pub data Step : Type 0 where
    arrives : String → WsIdentity → Step
    broadcasts : Option String → M → Step
    sends : String → Step
    leaves : String → Step

-- station_id is None or sub.scope.permits(station_id)
abbrev pub meant_for : Option String → StationScope → Bool
meant_for none scope = true
meant_for (some id) scope = permits scope (some id)

abbrev pub drop_note : ℕ → Option ℕ
drop_note n = if n == 0 then none else some n

abbrev pub scope_of : RbacMatrix → Option User → StationScope
scope_of m none = record { all_stations = false; station = some default_station_id }
scope_of m (some user) = station_scope m user.role default_station_id

abbrev pub known : Option User → Bool
known none = false
known (some user) = true

module _ {M : Type 0} where
  -- One turn of the loop of `broadcast`.
  unfoldable pub offer : Option String → M → Subscriber M → Subscriber M
  offer station message sub =
      if meant_for station sub.scope
      then (if ltb (length sub.queue) queue_max
          then record sub { queue = sub.queue ++ (message ∷ []) }
          else record sub { dropped = sub.dropped + 1 })
      else sub

  unfoldable pub broadcast : Option String → M → Dict (Connection M) → Dict (Connection M)
  unfolding offer
  broadcast station message [] = []
  broadcast station message ((k, c) ∷ feed) =
      (k, record c { subscriber = offer station message c.subscriber })
      ∷ broadcast station message feed

  abbrev pub send_from : Connection M → List M → Connection M
  send_from c [] = c
  send_from c (message ∷ queue) = record {
    subscriber = record { queue = queue; scope = c.subscriber.scope; dropped = 0 };
    sent = c.sent ++ (news message (drop_note c.subscriber.dropped) ∷ []);
  }

  -- One turn of the loop of `live`, which waits while the queue is empty.
  unfoldable pub send_next : Connection M → Connection M
  send_next c = send_from c c.subscriber.queue

  unfoldable pub connect : RbacMatrix → WsIdentity → Connection M
  connect m identity = record {
    subscriber = record { queue = []; scope = scope_of m identity.user; dropped = 0 };
    sent = hello (scope_of m identity.user) (known identity.user) ∷ [];
  }

  abbrev pub sent_in : String → Option (Connection M) → Dict (Connection M) → Dict (Connection M)
  sent_in k none feed = feed
  sent_in k (some c) feed = insert k (send_next c) feed

  unfoldable pub step : RbacMatrix → Step M → Dict (Connection M) → Dict (Connection M)
  unfolding connect send_next broadcast
  step m (arrives k identity) feed = insert k (connect m identity) feed
  step m (broadcasts station message) feed = broadcast station message feed
  step m (sends k) feed = sent_in k (lookup k feed) feed
  step m (leaves k) feed = remove k feed

  unfoldable pub run : RbacMatrix → List (Step M) → Dict (Connection M) → Dict (Connection M)
  unfolding step
  run m [] feed = feed
  run m (s ∷ steps) feed = run m steps (step m s feed)
