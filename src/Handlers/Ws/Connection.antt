-- ===== src/Handlers/Ws/Connection.antt =====
-- The life of connections: `handle_upgrade` and `handle_ws_connection` of src/handlers/ws.rs. The map
-- holds for a user the sender of one connection. A connection whose sender is no longer in the map
-- receives `Closed`, leaves its loop and removes whatever sender its user has.
pub mod Lost
use pactum_codex.Base.{
  ℕ, zero, suc, Bool, true, false, Option, none, some, List, [], ◌∷◌, ◌==◌, ◌&&◌, not, find, exists,
  delete_where, map, length,
}
use pactum_codex.State.Events.{WsEvent}

pub record Connection : Type 0 where
  pub id : ℕ
  pub user : ℕ

-- The connections whose sender is in `ws_channels`, and those whose loop runs.
pub record Server : Type 0 where
  pub channels : List Connection
  pub live : List Connection

abbrev pub same : Connection → Connection → Bool
same c d = c.id == d.id && c.user == d.user

abbrev pub of_user : ℕ → Connection → Bool
of_user u c = c.user == u

abbrev pub users : List Connection → List ℕ
users = map (λ c. c.user)

-- `insert` drops the sender that it replaces.
unfoldable pub upgrade : Connection → Server → Server
upgrade c s = record { channels = c ∷ delete_where (of_user c.user) s.channels; live = c ∷ s.live }

-- The loop ends, and the user's sender is removed.
unfoldable pub finish : Connection → Server → Server
finish c s = record {
  channels = delete_where (of_user c.user) s.channels;
  live = delete_where (same c) s.live;
}

-- The connection's sender has been dropped.
abbrev pub is_orphan : Server → Connection → Bool
is_orphan s c = not (exists (same c) s.channels)

-- A schedule, and no code of the source: the connections that have lost their sender end, one after
-- another.
unfoldable pub settle : ℕ → Server → Server
settle zero s = s
settle (suc fuel) s = elim (find (is_orphan s) s.live) [
  | none ↦ s
  | some c ↦ settle fuel (finish c s)
]

-- What `select!` hands to one round of the loop: from the client, or from the channel. `sent` is
-- whether the socket takes the message.
pub data Turn : Type 0 where
  close message lagged channel_closed : Turn
  event : WsEvent → Bool → Turn

abbrev pub send : WsEvent → Bool → List WsEvent → List WsEvent
send e true more = e ∷ more
send e false more = []

-- The events that the client gets.
unfoldable pub handle_ws_connection : List Turn → List WsEvent
handle_ws_connection [] = []
handle_ws_connection (close ∷ ts) = []
handle_ws_connection (channel_closed ∷ ts) = []
handle_ws_connection (message ∷ ts) = handle_ws_connection ts
handle_ws_connection (lagged ∷ ts) = handle_ws_connection ts
handle_ws_connection (event e sent ∷ ts) = send e sent (handle_ws_connection ts)
