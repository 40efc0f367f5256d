-- ===== src/Tests/Impacts.antt =====
-- The links to one of three nodes fail.
use bg_pls.Base.{◌≡◌, refl, Text, text, some, List, [], ◌∷◌, text_eq, text_lt}
use bg_pls.Base.Dict.{lookup, insert}
use bg_pls.Topology.Graph.{new_graph}
use bg_pls.Topology.Graph.Impact.{AnalyzeImpactResponse, analyze}
use bg_pls.Topology.Graph.Impact.Unreachable.{CutOff, analyze-CutOff}
use bg_pls.Tests.Search.{triangle}

abbrev both_links : List Text
both_links = text "ab" ∷ text "cb" ∷ []

b_cut_off :
    analyze triangle [] both_links []
    ≡ some (record {
      revision = 7;
      unreachable_node_ids = text "b" ∷ [];
      unreachable_prefix_ids = [];
      disconnected_components = (text "a" ∷ text "c" ∷ []) ∷ (text "b" ∷ []) ∷ [];
    })
unfolding analyze new_graph text_eq text_lt lookup insert
b_cut_off = refl

analyze-CutOff_example :
    (main : List Text) × (r : AnalyzeImpactResponse) × (analyze triangle [] both_links [] ≡ some r)
    × CutOff triangle [] both_links main r
analyze-CutOff_example = analyze-CutOff triangle [] both_links []
