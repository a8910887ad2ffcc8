-- ===== src/Lib.antt =====
-- kuviewer, a viewer of Kubernetes topologies: the logic of its web client, website/src.
--
-- The parts and their files, with paths from website/src:
--   Topology/Types      types/topology.ts: the nodes, edges and clusters of a snapshot.
--   Json                the values that JSON.parse gives, and the accessors of
--                       features/upload/kubernetesObject.ts.
--   SafeMetadata        utils/safeMetadata.ts: sensitive words and the redaction of annotations.
--   Upload/Names, Upload/LabelSelector
--                       features/upload/labelSelector.ts: the parser of selectors
--                       (parse_label_selector), the matcher (label_selector_matches) and the
--                       namespaces of network policies; Meaning states what Kubernetes asks for.
--   Upload/Import       features/upload/importTopologySnapshot.ts: sanitizing a topology from a
--                       file; Values reads fields, Summary the summaries, Snapshot the whole. It
--                       calls SafeMetadata.
--   Upload/Object, Upload/Values
--                       features/upload/kubernetesObject.ts and uploadResourceKinds.ts: the objects
--                       of manifests, the kinds that are read, and bounded values in them.
--   Upload/Collect      features/upload/parseKubernetesFiles.ts: from files to objects, with the
--                       warnings on what is left out, and the cluster's id.
--   Upload/Graph        features/upload/parseKubernetesFiles.ts: from objects to a snapshot. The
--                       file itself has the context and its two operations, add_node and add_edge;
--                       Definitions has the custom kinds, Summaries the summaries of nodes, Edges
--                       and Policies the edges, Build the composition, and Schemas the interface
--                       to the modules that read the objects of one kind. Induction is the
--                       principle by which Closed, Formed, Complete, Recognized and Warned are
--                       proved; Plain says what the two operations come to.
--   Upload/Schemas      the modules that read the objects of one kind, in features/upload:
--                       Hpa hpaSchema.ts, Storage storageSchema.ts, Workload and Images
--                       workloadSchema.ts, PodRuntime podRuntimeSchema.ts, NodeStatus
--                       nodeStatusSchema.ts, ConfigMap configMapSchema.ts, CustomReferences
--                       customResourceReferences.ts.
--                       Installed puts them in the interface of the graph.
--   Snapshot/Diff, Snapshot/Compare
--                       features/snapshot/compareSnapshots.ts: Diff is the comparison by id that
--                       the source writes out three times, Compare its uses and their sorting.
--   Snapshot/History    features/snapshot/snapshotHistory.ts, and captureSnapshotBaseline.
--   Snapshot/View       features/snapshot/snapshotComparisonView.ts: what of a comparison is shown.
--   Resources/Coordinator
--                       features/resources/resourceListRequestCoordinator.ts: which request of the
--                       resource list is current. Traces has the calls as a step relation.
--   Resources/List      features/resources/resourceListModel.ts and features/export/safeCsv.ts:
--                       pages, filter, sorting, selection, keys, CSV and stored preferences.
--   Resources/Presets   features/resources/resourceViewPresets.ts: saved views, Merge their merge
--                       and Teams the preview of a team's views.
--   Base                lists, texts, maps, sets, numbers and sorting as JavaScript has them.
--   Platform            what the JavaScript engine decides: an argument of what uses it.
--   Tests               runs on concrete data.
-- Functions keep their names, in snake case: addSnapshotHistoryEntry is add_entry of
-- Snapshot/History, compareTopologySnapshots is compare_topology_snapshots.
--
-- How the program is modelled. A string is the list of its UTF-16 code units. A number is a dyadic
-- rational, an infinity or NaN, so comparisons are exact. Objects and Maps from strings are lists of
-- entries in insertion order, Sets lists without repetitions. Integer keys of objects, which
-- JavaScript moves to the front, keep their place here. Array.sort is a stable insertion sort by
-- the same comparison function. A thrown error is none. Values are never mutated by the modelled
-- code except inside the coordinator, whose abort controllers are numbers with a table of those
-- that have fired. The clock is an argument, as a number or as its text in base 36.
-- An object of a manifest is the fields of the parsed document; a field to which KubeObject gives a
-- type counts as missing where the document has a value of another type there, also where the source
-- throws on it and the whole upload fails; so what is proved of the built graph is of uploads that
-- are built. The specification of a custom resource is a tree: an object that occurs twice in it by
-- a YAML alias is visited twice, where the source visits it once. The YAML and archive packages, and
-- the schemas that are not modelled, are functions in a record that the definitions take (Packages,
-- Schemas), and no theorem supposes anything of them.
-- toLowerCase, localeCompare, String and JSON.stringify are fields of Platform, and no theorem
-- supposes anything of them.
--
-- Bounds and fuel. Every loop is structural recursion over a list; the search for the name of a
-- copied view counts the 99 indices of the source's loop down, and its fallback is the source's.
-- The limits of the source (8 entries and views, 100 labels, 50000 nodes and so on) are constants.
--
-- Not modelled: React components and hooks, fetch and storage, the packages that parse YAML and
-- unpack archives, the schemas of services, ingresses and gateway routes, the import and export
-- of diff reports, the topology layout, the desktop sessions; and the server and desktop
-- shell, which are in other languages.
pub mod Base
pub mod Resources
pub mod Json
pub mod Upload
pub mod Topology
pub mod Platform
pub mod Snapshot
pub mod SafeMetadata
mod Tests
