-- ===== src/Tests/Data.antt =====
-- The concrete engine and the data that the tests run on.
use kuviewer.Base.{
  ℕ, ◌+◌, ◌&&◌, none, some, [], ◌∷◌, ◌++◌, map, leb, if◌then◌else◌, Text, lit, join,
}
use kuviewer.Base.Number.{Number, whole}
use kuviewer.Base.Sort.{text_compare}
use kuviewer.Platform.{Platform}
use kuviewer.Resources.List.{ResourceExplorerItem}
use kuviewer.Resources.Presets.{ResourceViewPreset}
use kuviewer.Topology.Types.{SummaryValue, text, TopologyNode, TopologyEdge, TopologySnapshot}

-- Lower case of ASCII letters.
abbrev pub lower_letter : ℕ → ℕ
lower_letter c = if leb 65 c && leb c 90 then c + 32 else c

abbrev pub shown : SummaryValue → Text
shown (text s) = s
shown _ = []

-- An engine with ASCII case and the order of code units.
abbrev pub plain : Platform
plain = record {
  lower = map lower_letter;
  locale_compare = text_compare;
  base_compare = text_compare;
  text_of = shown;
  stringify_texts = join (lit ",");
  stringify_object = λ m. join (lit ",") (map (λ e. e.0 ++ shown e.1) m);
}

abbrev pub pod : Text → Text → TopologyNode
pod id status = record {
  id = id;
  cluster_id = lit "c";
  kind = lit "Pod";
  namespace = some (lit "default");
  name = id;
  status = status;
  labels = [];
  annotations = none;
  uid = none;
  age = none;
  owners = none;
  summary = [];
  x = whole 0;
  y = whole 0;
}

abbrev pub link : Text → Text → Text → TopologyEdge
link id source target = record {
  id = id;
  cluster_id = lit "c";
  source = source;
  target = target;
  type = lit "owns";
  confidence = lit "observed";
  source_field = [];
}

abbrev pub before : TopologySnapshot
before = record {
  clusters = [];
  nodes = pod (lit "a") (lit "healthy") ∷ pod (lit "b") (lit "healthy") ∷ [];
  edges = link (lit "e") (lit "a") (lit "b") ∷ [];
  diagnostics = none;
}

abbrev pub after : TopologySnapshot
after = record {
  clusters = [];
  nodes = pod (lit "b") (lit "error") ∷ pod (lit "d") (lit "healthy") ∷ [];
  edges = [];
  diagnostics = none;
}

abbrev pub item : Text → ResourceExplorerItem
item id = record {
  id = id;
  cluster_id = lit "c";
  kind = lit "Pod";
  namespace = some (lit "default");
  name = id;
  status = lit "healthy";
  labels = [];
  annotations = [];
  summary = [];
  preview = [];
  related = [];
}

abbrev pub preset : Text → Text → Number → ResourceViewPreset
preset name query order = record {
  name = name;
  group = lit "General";
  query = query;
  cluster = lit "all";
  namespace = lit "all";
  kind = lit "all";
  status = lit "all";
  order = order;
  updated_at = whole 0;
}
