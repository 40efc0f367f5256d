-- ===== src/Bgp/Collector.antt =====
-- internal/bgp/collector.go: the peers of the collector, by id and by address. The BGP engine
-- (GoBGP) is an argument: its state and the calls that change it, each with its success. Locking
-- is not represented: an operation is one step.
pub mod Linked
pub mod Addresses
use bg_pls.Base.{
  ℕ, Text, text, Option, none, some, List, [], ◌∷◌, Bool, true, false, not, ◌==◌, is_empty,
  if◌then◌else◌,
}
use bg_pls.Base.Dict.{Dict, lookup, insert, erase}
use bg_pls.Configuration.{Bgp, ℤ, pos, negsuc}
use bg_pls.Entities.{Peer, PeerSessionState}

-- `api.Global` of the request `StartBgp`.
pub record Global : Type 0 where
  pub asn : ℕ
  pub router_id : Text
  pub listen_port : ℤ
  pub listen_addresses : List Text

pub record Engine : Type 1 where
  pub State : Type 0
  pub start : State → Global → State × Bool
  pub watch : State → State × Bool
  pub stop : State → State × Bool
  pub add_peer : State → Peer → State × Bool
  pub delete_peer : State → Text → State × Bool
  pub reset_peer : State → Text → Bool → State × Bool

pub data CollectorError : Type 0 where
  already_started router_id_required start_failed watch_failed not_started add_failed delete_failed
        stop_failed reset_failed not_found :
      CollectorError

-- What `peerForAddress` finds: nothing, a peer, or a nil pointer where the address leads to an id
-- without a peer.
pub data Found : Type 0 where
  unknown nil_peer : Found
  known : Peer → Found

module _ (engine : Engine) where
  pub record Collector : Type 0 where
    pub server : engine.State
    pub peers : Dict Peer
    pub by_address : Dict Text
    pub cfg : Bgp
    pub started : Bool

  -- `DeletePeer` of the engine before an update; its failure is only logged.
  unfoldable pub drop_old : Collector → Text → engine.State
  drop_old c id = elim (lookup id c.peers) [
    | none ↦ c.server
    | some old ↦ (engine.delete_peer c.server old.remote_address).0
  ]

  -- `upsertLocked`; `none` is no error.
  unfoldable pub upsert : Peer → Collector → Collector × Option CollectorError
  upsert p c =
      let (server, added) = engine.add_peer (drop_old c p.id) p in
      if not c.started
      then (c, some not_started)
      else if not added
      then (record c { server = server }, some add_failed)
      else (
        record c {
          server = server;
          peers = insert p.id p c.peers;
          by_address = insert p.remote_address p.id c.by_address;
        },
        none,
      )

  unfoldable pub delete : Text → Collector → Collector × Option CollectorError
  delete id c = elim (lookup id c.peers) [
    | none ↦ (c, some not_found)
    | some p ↦
        let (server, deleted) = engine.delete_peer c.server p.remote_address in
        if not deleted then (record c { server = server }, some delete_failed) else (
          record c {
            server = server;
            peers = erase id c.peers;
            by_address = erase p.remote_address c.by_address;
          },
          none,
        )
  ]

  unfoldable pub reset : Text → Bool → Collector → Collector × Option CollectorError
  reset id soft c = elim (lookup id c.peers) [
    | none ↦ (c, some not_found)
    | some p ↦
        let (server, done) = engine.reset_peer c.server p.remote_address soft in
        (record c { server = server }, if done then none else some reset_failed)
  ]

  -- The loop of `Start` over the configured peers.
  unfoldable pub upsert_all : List Peer → Collector → Collector × Option CollectorError
  unfolding upsert
  upsert_all [] c = (c, none)
  upsert_all (p ∷ ps) c =
      let (next, failure) = upsert p c in
      let rest = upsert_all ps next in elim failure [ none ↦ rest | some e ↦ (next, some e) ]

  -- The local AS of the first peer, or 64512.
  unfoldable pub global_as : List Peer → ℕ
  global_as [] = 64512
  global_as (p ∷ ps) = if p.local_as == 0 then 64512 else p.local_as

  -- An int32; port 0 stands for 179.
  unfoldable pub listen_port : ℤ → ℤ
  listen_port (pos n) = if n == 0 then pos 179 else pos n
  listen_port (negsuc n) = negsuc n

  unfoldable pub start : engine.State → List Peer → Collector → Collector × Option CollectorError
  unfolding upsert_all global_as listen_port
  start fresh peers c =
      let (running, started) = engine.start fresh (record {
        asn = global_as peers;
        router_id = c.cfg.router_id;
        listen_port = listen_port c.cfg.listen_port;
        listen_addresses = c.cfg.listen_addresses;
      }) in
      let (watching, watched) = engine.watch running in
      let all = upsert_all peers (record c { server = watching; started = true }) in
      if c.started
      then (c, some already_started)
      else if is_empty c.cfg.router_id
      then (c, some router_id_required)
      else if not started
      then (record c { server = running }, some start_failed)
      else if not watched
      then (record c { server = watching }, some watch_failed)
      else all

  unfoldable pub close : Collector → Collector × Option CollectorError
  close c =
      let (server, stopped) = engine.stop c.server in
      if not c.started then (c, none) else (
        record c { server = server; started = false },
        if stopped then none else some stop_failed,
      )

  unfoldable pub peer_for_address : Text → Collector → Found
  peer_for_address address c = elim (lookup address c.by_address) [
    | none ↦ unknown
    | some id ↦ elim (lookup id c.peers) [ none ↦ nil_peer | some p ↦ known p ]
  ]
