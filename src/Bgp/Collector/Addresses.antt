-- ===== src/Bgp/Collector/Addresses.antt =====
-- What an event's address finds after the peers have changed.
use bg_pls.Base.{Text, none, some}
use bg_pls.Base.Dict.{Dict, lookup}
use bg_pls.Entities.{Peer}
use bg_pls.Bgp.Collector.{Engine, Collector, Found, unknown, nil_peer, known}

module _ (engine : Engine) where
  -- What `peer_for_address` finds in the two tables.
  abbrev find_in : Dict Peer → Dict Text → Text → Found
  find_in peers by_address a = elim (lookup a by_address) [
    | none ↦ unknown
    | some id ↦ elim (lookup id peers) [ none ↦ nil_peer | some p ↦ known p ]
  ]
