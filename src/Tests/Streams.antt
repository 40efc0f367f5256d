-- ===== src/Tests/Streams.antt =====
-- A stream of the snapshot of two nodes and a link.
use bg_pls.Base.{◌≤◌, ◌≡◌, some, none, List, ◌∷◌, All}
use bg_pls.Api.Stream.{chunk_size, StreamSnapshotResponse, stream}
use bg_pls.Api.Stream.Whole.{
  size, nodes_in, links_in, prefixes_in, all_nodes, all_links, all_prefixes, MarksEnd, stream_lem,
}
use bg_pls.Tests.Reads.{current}

stream_lem_example :
    (m : StreamSnapshotResponse) × (ms : List StreamSnapshotResponse) × (stream none current
      ≡ some (m ∷ ms))
    × (all_nodes none (m ∷ ms) ≡ nodes_in none current.nodes)
    × (all_links none (m ∷ ms) ≡ links_in none current.links)
    × (all_prefixes none (m ∷ ms) ≡ prefixes_in none current.prefixes)
    × (m.domains ≡ current.domains)
    × All (λ x. size x ≤ chunk_size) (m ∷ ms)
    × MarksEnd none m.last ms
stream_lem_example = stream_lem none current
